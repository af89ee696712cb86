-- ===== src/Cobs/Encode.antt =====
-- The loop of `Cobs_encode` writes the chunks one after another.
use zephyr_common.Common.{
  ℕ, zero, suc, ◌+◌, ◌-◌, ◌≤◌, ◌<◌, ◌≡◌, ap, ap₂, ◌∙◌, subst, inl, inr, List, [], ◌∷◌, ◌++◌, some,
  arith, length, take, drop, length-take, take-append-drop, length-append, ok,
}
use zephyr_common.Cobs.{encode_from, encode}
use zephyr_common.Cobs.Chunks.{
  chunks, flatten, chunks_plain, Chunks-cases, length-flatten, size_last, size_full, size_zero,
}
use zephyr_common.Cobs.Steps.{
  wrote, Writes, close_last, close_full, close_zero, keep_byte, length-closed, uncons,
}

pub encode_from-Writes :
    (bytes closed chunk room tail : List ℕ) (r max : ℕ)
    → length chunk ≤ 254
    → length (flatten (chunks chunk bytes)) ≡ 1 + length chunk + length room
    → length closed + length (flatten (chunks chunk bytes)) ≤ max
    → Writes bytes closed chunk room tail r max
encode_from-Writes [] closed chunk [] tail r max short size fits =
    close_last closed chunk tail r max short
encode_from-Writes [] closed chunk (s ∷ room) tail r max short size fits =
    absurd (omega (arith, size_last chunk))
encode_from-Writes (byte ∷ bytes) closed chunk room tail r max short size fits =
    elim (Chunks-cases chunk byte) [
      | inl full ↦
          let whole = size_full chunk byte bytes full in
          let first = length-flatten (byte ∷ []) bytes in
          let (s, room1, e1) = uncons room (omega arith) in
          let l1 = ap length e1 in
          let (q, room2, e2) = uncons room1 (omega arith) in
          let l2 = ap length e2 in
          rw (e1, e2)
            (close_full bytes closed chunk room2 tail byte r s q max short full (omega arith) (
              encode_from-Writes bytes _ (byte ∷ []) room2 tail s max (omega arith) (omega arith)
                (omega (arith, length-closed closed chunk))))
      | inr (inl (below, zero_byte)) ↦
          let whole = size_zero chunk byte bytes below zero_byte in
          let first = length-flatten [] bytes in
          let (s, room1, e1) = uncons room (omega arith) in
          let l1 = ap length e1 in
          rw e1 (
            close_zero bytes closed chunk room1 tail byte r s max short below zero_byte (
              encode_from-Writes bytes _ [] room1 tail s max (omega arith) (omega arith)
                (omega (arith, length-closed closed chunk))))
      | inr (inr (below, plain)) ↦
          let same = ap (λ cs. length (flatten cs)) (chunks_plain chunk byte bytes below plain) in
          let longer = length-append chunk (byte ∷ []) in
          let first = length-flatten (chunk ++ byte ∷ []) bytes in
          let less : length chunk < 254 = ground arith in
          let (s, room1, e1) = uncons room (omega arith) in
          let l1 = ap length e1 in
          rw e1 (
            keep_byte bytes closed chunk room1 tail byte r s max short below plain (omega arith) (
              encode_from-Writes bytes closed _ room1 tail r max (omega arith) (omega arith)
                (omega arith)))
    ]

drop_pred : (n r : ℕ) (rest : List ℕ) → 1 ≤ n → drop (n - 1) rest ≡ drop n (r ∷ rest)
drop_pred zero r rest h = absurd (omega arith)
drop_pred (suc n) r rest h = ap (λ k. drop k rest) (omega arith)

-- The encoder at an array that holds the encoding and may be shorter than `max_enc_len`.
pub encode-flatten_room :
    (buf_in enc_out : List ℕ) (max_enc_len : ℕ)
    → length (flatten (chunks [] buf_in)) ≤ max_enc_len
    → length (flatten (chunks [] buf_in)) ≤ length enc_out
    → let encoded = flatten (chunks [] buf_in) in
      encode buf_in enc_out max_enc_len
      ≡ some (ok (length encoded), encoded ++ drop (length encoded) enc_out)
unfolding encode
encode-flatten_room buf_in [] max_enc_len fits holds =
    absurd (omega (arith, length-flatten [] buf_in))
encode-flatten_room buf_in (r ∷ rest) max_enc_len fits holds =
    let n = length (flatten (chunks [] buf_in)) in
    let size : length (take (n - 1) rest) ≡ n - 1 = omega (arith, length-take (n - 1) rest) in
    subst
      (λ t.
        encode_from buf_in 0 0 (r ∷ t) max_enc_len
        ≡ wrote n (flatten (chunks [] buf_in) ++ drop n (r ∷ rest)))
      (take-append-drop (n - 1) rest)
      (encode_from-Writes buf_in [] [] (take (n - 1) rest) (drop (n - 1) rest) r max_enc_len
          (omega arith) (omega (arith, length-flatten [] buf_in)) (omega arith)
        ∙ ap₂ (λ k t. wrote k (flatten (chunks [] buf_in) ++ t)) (omega arith)
            (drop_pred n r rest (omega (arith, length-flatten [] buf_in))))

-- Where the encoding fits the buffer, `Cobs_encode` writes exactly that, leaves the rest of the
-- buffer and returns its length.
pub encode-flatten :
    (buf_in enc_out : List ℕ) (max_enc_len : ℕ)
    → length (flatten (chunks [] buf_in)) ≤ max_enc_len
    → max_enc_len ≤ length enc_out
    → let encoded = flatten (chunks [] buf_in) in
      encode buf_in enc_out max_enc_len
      ≡ some (ok (length encoded), encoded ++ drop (length encoded) enc_out)
encode-flatten buf_in enc_out max_enc_len fits holds =
    encode-flatten_room buf_in enc_out max_enc_len fits (omega arith)
