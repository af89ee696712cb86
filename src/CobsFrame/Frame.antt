-- ===== src/CobsFrame/Frame.antt =====
-- `Cobs_framer` against the frames that it has to write.
use zephyr_common.Common.{
  ℕ, suc, ◌+◌, ◌-◌, ◌≤◌, ◌≡◌, refl, sym, ap, ◌∙◌, inl, inr, Bool-cases, List, [], ◌∷◌, ◌++◌, some,
  Option, leb, ◌==◌, if◌then◌else◌, append_assoc, arith, length, drop, length-append, length-drop,
  drop-drop, Ret, ok, err, failed,
}
use zephyr_common.Common.Memory.{poke, poke-append}
use zephyr_common.Cobs.Chunks.{
  chunks, flatten, chunks_zero, chunks_plain, Chunks-cases, length-flatten,
}
use zephyr_common.Cobs.Steps.{uncons}
use zephyr_common.Cobs.Encode.{encode-flatten_room}
use zephyr_common.Cobs.Zeros.{NonZero}
use zephyr_common.CobsFrame.{framing_byte, framer, framer_close}

-- The COBS encoding of a payload.
abbrev pub encoding : List ℕ → List ℕ
encoding payload = flatten (chunks [] payload)

-- A framing byte, the encoding, and a framing byte.
abbrev pub frame : List ℕ → List ℕ
frame payload = framing_byte ∷ (encoding payload ++ framing_byte ∷ [])

pub NonZero-append : (xs ys : List ℕ) → NonZero xs → NonZero ys → NonZero (xs ++ ys)
unfolding NonZero
NonZero-append [] ys h k = k
NonZero-append (x ∷ xs) ys (plain, h) k = (plain, NonZero-append xs ys h k)

chunk-NonZero :
    (chunk : List ℕ) (cs : List (List ℕ))
    → NonZero chunk
    → NonZero (flatten cs)
    → NonZero (flatten (chunk ∷ cs))
unfolding NonZero flatten
chunk-NonZero chunk cs h k = (ground arith, NonZero-append chunk (flatten cs) h k)

chunks-NonZero :
    (chunk bytes : List ℕ)
    → NonZero chunk
    → length chunk + length bytes ≤ 254
    → NonZero (flatten (chunks chunk bytes))
chunks-NonZero chunk [] h small =
    unfold chunks in chunk-NonZero chunk [] h (unfold flatten NonZero in tt)
chunks-NonZero chunk (byte ∷ bytes) h small = elim (Chunks-cases chunk byte) [
  | inl full ↦ absurd (ground arith)
  | inr (inl (below, zero_byte)) ↦ rw (chunks_zero chunk byte bytes below zero_byte) (
      chunk-NonZero chunk (chunks [] bytes) h
        (chunks-NonZero [] bytes (unfold NonZero in tt) (omega arith)))
  | inr (inr (below, plain)) ↦ rw (chunks_plain chunk byte bytes below plain) (
      chunks-NonZero (chunk ++ byte ∷ []) bytes
        (NonZero-append chunk (byte ∷ []) h (unfold NonZero in (plain, tt)))
        (omega (arith, length-append chunk (byte ∷ []))))
]

-- The encoding of at most 254 bytes holds no framing byte.
pub encoding-NonZero : (payload : List ℕ) → length payload ≤ 254 → NonZero (encoding payload)
encoding-NonZero payload small = chunks-NonZero [] payload (unfold NonZero in tt) (omega arith)

pub length-frame : (payload : List ℕ) → length (frame payload) ≡ length (encoding payload) + 2
length-frame payload = omega (arith, length-append (encoding payload) (framing_byte ∷ []))

-- The array after the encoder and the first framing byte.
close_lem :
    (enc rest : List ℕ) (o r : ℕ) (max : ℕ)
    → 1 ≤ length enc
    → framer_close (length enc) (o ∷ (enc ++ r ∷ rest)) max
      ≡ some (
          if leb max (length enc + 2)
          then (err failed, framing_byte ∷ (enc ++ r ∷ rest))
          else (ok (length enc + 2), framing_byte ∷ (enc ++ framing_byte ∷ rest)))
unfolding framer_close
close_lem [] rest o r max some_bytes = absurd (omega arith)
close_lem (e ∷ enc) rest o r max some_bytes =
    let first : poke (o ∷ e ∷ (enc ++ r ∷ rest)) 0 framing_byte
        ≡ some (framing_byte ∷ e ∷ (enc ++ r ∷ rest)) =
      poke-append [] (e ∷ (enc ++ r ∷ rest)) o 0 framing_byte refl in
    let last =
      poke-append (framing_byte ∷ e ∷ enc) rest r (1 + suc (length enc)) framing_byte
        (omega arith) in
    elim (Bool-cases (leb max (suc (length enc) + 2))) [
      | inl refused ↦ rw (first, refused)
      | inr fits ↦ rw (first, fits, last)
    ]

-- If the frame of the input fits the buffer, `Cobs_framer` puts the framing byte and the encoding
-- into it. If the frame is shorter than `max_enc_len` it adds the other framing byte, leaves the
-- rest of the buffer and returns the length of the frame; a frame of exactly `max_enc_len` bytes
-- is refused.
pub framer-encoding :
    (buf_in enc_out : List ℕ) (max_enc_len : ℕ)
    → length (frame buf_in) ≤ max_enc_len
    → max_enc_len ≤ length enc_out
    → let n = length (frame buf_in) in
      framer buf_in enc_out max_enc_len
      ≡ some (
          if n == max_enc_len
          then (err failed, framing_byte ∷ (encoding buf_in ++ drop (n - 1) enc_out))
          else (ok n, frame buf_in ++ drop n enc_out))
unfolding framer
framer-encoding buf_in [] max fits holds = absurd (omega (arith, length-frame buf_in))
framer-encoding buf_in (o ∷ out) max fits holds =
    let size = length-frame buf_in in
    let encoded = encode-flatten_room buf_in out max (omega arith) (omega arith) in
    let enc = encoding buf_in in
    let (r, rest, left) =
      uncons (drop (length enc) out) (omega (arith, length-drop (length enc) out)) in
    let same : drop (length (frame buf_in) - 1) (o ∷ out) ≡ r ∷ rest =
      let k : length (frame buf_in) - 1 ≡ suc (length enc) = omega arith in
      ap (λ k. drop k (o ∷ out)) k ∙ left in
    let gone : drop (length (frame buf_in)) (o ∷ out) ≡ rest =
      let k : length (frame buf_in) ≡ suc (length enc + 1) = omega arith in
      ap (λ k. drop k (o ∷ out)) k ∙ (sym (drop-drop (length enc) 1 out) ∙ ap (drop 1) left) in
    rw encoded (
      ap (λ t. framer_close (length enc) (o ∷ (enc ++ t)) max) left
      ∙ (close_lem enc rest o r max (omega (arith, length-flatten [] buf_in))
          ∙ whole enc rest _ _ r (length (frame buf_in)) max size fits same gone))
  where
    whole :
        (enc rest here after : List ℕ) (r n max : ℕ)
        → n ≡ length enc + 2
        → n ≤ max
        → here ≡ r ∷ rest
        → after ≡ rest
        → ◌≡◌ {A = Option (Ret × List ℕ)}
            (some (
              if leb max (length enc + 2)
              then (err failed, framing_byte ∷ (enc ++ r ∷ rest))
              else (ok (length enc + 2), framing_byte ∷ (enc ++ framing_byte ∷ rest))))
            (some (
              if n == max
              then (err failed, framing_byte ∷ (enc ++ here))
              else (ok n, (framing_byte ∷ (enc ++ framing_byte ∷ [])) ++ after)))
    whole enc rest here after r n max size fits same gone =
        let test : leb max (length enc + 2) ≡ (n == max) = ground arith in
        rw (test, same, gone, size, append_assoc enc (framing_byte ∷ []) rest)
