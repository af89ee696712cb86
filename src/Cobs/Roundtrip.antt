-- ===== src/Cobs/Roundtrip.antt =====
-- Encoding and decoding together, the size of an encoding, and zero bytes in it.
use zephyr_common.Common.{
  ℕ, ◌+◌, ◌/◌, ◌≤◌, ◌<◌, ◌≡◌, refl, sym, ap, ap₂, ◌∙◌, inl, inr, List, [], ◌∷◌, ◌++◌, some, ok, err,
  arith, length, drop, length-append,
}
use zephyr_common.Common.Memory.{◌>>=◌}
use zephyr_common.Cobs.{encode, decode}
use zephyr_common.Cobs.Chunks.{
  chunks, flatten, join, join-chunks, chunks-cons, Chunks-cases, size_last, size_full, size_zero,
  chunks_plain,
}
use zephyr_common.Cobs.Encode.{encode-flatten}
use zephyr_common.Cobs.Steps.{wrote}
use zephyr_common.Cobs.Decode.{decode_from-join}

count_chunks : (cs : List (List ℕ)) → length cs ≤ length (flatten cs)
unfolding flatten
count_chunks [] = omega arith
count_chunks (c ∷ cs) = omega (arith, count_chunks cs, length-append c (flatten cs))

pub decode-flatten :
    (bytes post buf_out : List ℕ) (max_buf_out : ℕ)
    → length bytes ≤ max_buf_out
    → max_buf_out ≤ length buf_out
    → decode
        (flatten (chunks [] bytes) ++ post)
        (length (flatten (chunks [] bytes)))
        buf_out
        max_buf_out
      ≡ some (ok (length bytes), bytes ++ drop (length bytes) buf_out)
unfolding decode
decode-flatten bytes post buf_out max_buf_out fits holds =
    let (c, cs, e) = chunks-cons [] bytes in
    let enc = flatten (chunks [] bytes) in
    let all : join (c ∷ cs) ≡ bytes = ap join (sym e) ∙ join-chunks [] bytes in
    let count = ap length e in
    let size = ap (λ t. length (flatten t)) e in
    let sizes = ap length all in
    decode_from-join cs c (length (enc ++ post)) (enc ++ post) [] post [] buf_out (length enc) 0 0
      max_buf_out (ap (λ t. flatten t ++ post) e) (omega arith) refl refl
      (omega (arith, count_chunks (c ∷ cs), length-append enc post)) (omega arith) (omega arith)
    ∙ ap₂ wrote (omega arith) (ap (λ t. t ++ drop (length t) buf_out) all)

-- Where the encoding fits `enc_out` and the input fits `buf_out`, decoding what `Cobs_encode`
-- wrote returns the length of the input and puts the input at the start of `buf_out`.
pub decode-encode :
    (buf_in enc_out buf_out : List ℕ) (max_enc_len max_buf_out : ℕ)
    → length (flatten (chunks [] buf_in)) ≤ max_enc_len
    → max_enc_len ≤ length enc_out
    → length buf_in ≤ max_buf_out
    → max_buf_out ≤ length buf_out
    → (encode buf_in enc_out max_enc_len >>= λ r. elim (r.0) [
      | ok num ↦ decode r.1 num buf_out max_buf_out
      | err e ↦ some (err e, buf_out)
    ])
      ≡ some (ok (length buf_in), buf_in ++ drop (length buf_in) buf_out)
decode-encode buf_in enc_out buf_out max_enc_len max_buf_out fits holds out_fits out_holds =
    rw (encode-flatten buf_in enc_out max_enc_len fits holds)
      (decode-flatten buf_in _ buf_out max_buf_out out_fits out_holds)

size_bound :
    (chunk bytes : List ℕ)
    → length chunk ≤ 254
    → length (flatten (chunks chunk bytes))
      ≤ 1 + length chunk + length bytes + (length chunk + length bytes) / 254
size_bound chunk [] h = omega (arith, size_last chunk)
size_bound chunk (byte ∷ bytes) h = elim (Chunks-cases chunk byte) [
  | inl full ↦
      let n : length chunk ≡ 254 = ground arith in
      omega (arith, size_full chunk byte bytes full, size_bound (byte ∷ []) bytes (omega arith))
  | inr (inl (below, zero_byte)) ↦
      omega (arith, size_zero chunk byte bytes below zero_byte, size_bound [] bytes (omega arith))
  | inr (inr (below, plain)) ↦
      let less : length chunk < 254 = ground arith in
      let longer = length-append chunk (byte ∷ []) in
      let same = ap (λ cs. length (flatten cs)) (chunks_plain chunk byte bytes below plain) in
      omega (arith, size_bound (chunk ++ byte ∷ []) bytes (omega arith))
]

-- A buffer with one byte more than the input, and one more for each 254 bytes of it, is enough:
-- `Cobs_encode` returns at most that many bytes.
pub encode_bound :
    (buf_in enc_out : List ℕ) (max_enc_len : ℕ)
    → 1 + length buf_in + length buf_in / 254 ≤ max_enc_len
    → max_enc_len ≤ length enc_out
    → (num : ℕ) × ((encode buf_in enc_out max_enc_len >>= λ r. some (r.0)) ≡ some (ok num))
      × (num ≤ 1 + length buf_in + length buf_in / 254)
encode_bound buf_in enc_out max_enc_len room holds =
    let bound = size_bound [] buf_in (omega arith) in
    (
      length (flatten (chunks [] buf_in)),
      rw (encode-flatten buf_in enc_out max_enc_len (omega arith) holds) refl,
      omega arith,
    )
