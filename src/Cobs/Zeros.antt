-- ===== src/Cobs/Zeros.antt =====
-- A zero byte behind a chunk of the full length stays in the encoding.
use zephyr_common.Common.{
  ℕ, ◌+◌, ◌≤◌, ◌≡◌, refl, sym, ap, ◌∙◌, inl, inr, true, false, List, [], ◌∷◌, ◌++◌, some,
  append_assoc, append-nil, arith, length, drop, length-append, get_elem?, ◌==◌,
}
use zephyr_common.Common.Memory.{◌>>=◌}
use zephyr_common.Cobs.{escaped_byte, encode}
use zephyr_common.Cobs.Chunks.{
  chunks, flatten, Chunks-cases, chunks_full, chunks_zero, chunks_plain,
}
use zephyr_common.Cobs.Encode.{encode-flatten}
use zephyr_common.Cobs.Rounds.{get_elem?-append}

unfoldable pub NonZero : List ℕ → Type 0
NonZero [] = Unit
NonZero (byte ∷ bytes) = ((byte == escaped_byte) ≡ false) × NonZero bytes

full_run :
    (run chunk rest : List ℕ)
    → NonZero run
    → length chunk + length run ≡ 254
    → chunks chunk (run ++ 0 ∷ rest) ≡ (chunk ++ run) ∷ chunks (0 ∷ []) rest
unfolding NonZero
full_run [] chunk rest h n =
    let full : (length chunk == 254) ≡ true = ground arith in
    chunks_full chunk 0 rest full ∙ ap (λ t. t ∷ chunks (0 ∷ []) rest) (sym (append-nil chunk))
full_run (byte ∷ run) chunk rest (plain, h) n =
    let below : (length chunk == 254) ≡ false = ground arith in
    chunks_plain chunk byte (run ++ 0 ∷ rest) below plain
    ∙ (full_run run (chunk ++ byte ∷ []) rest h (omega (arith, length-append chunk (byte ∷ [])))
        ∙ ap (λ t. t ∷ chunks (0 ∷ []) rest) (append_assoc chunk (byte ∷ []) run))

starts_with :
    (chunk bytes : List ℕ) (x : ℕ)
    → (c : List ℕ) × (cs : List (List ℕ)) × (chunks (x ∷ chunk) bytes ≡ (x ∷ c) ∷ cs)
unfolding chunks
starts_with chunk [] x = (chunk, [], refl)
starts_with chunk (byte ∷ bytes) x = elim (Chunks-cases (x ∷ chunk) byte) [
  | inl full ↦ (chunk, chunks (byte ∷ []) bytes, chunks_full (x ∷ chunk) byte bytes full)
  | inr (inl (below, zero_byte)) ↦
      (chunk, chunks [] bytes, chunks_zero (x ∷ chunk) byte bytes below zero_byte)
  | inr (inr (below, plain)) ↦
      let (c, cs, e) = starts_with (chunk ++ byte ∷ []) bytes x in
      (c, cs, chunks_plain (x ∷ chunk) byte bytes below plain ∙ e)
]

zero_inside :
    (run c : List ℕ) (cs : List (List ℕ)) (more : List ℕ)
    → length run ≡ 254
    → get_elem? (flatten (run ∷ (0 ∷ c) ∷ cs) ++ more) 256 ≡ some 0
unfolding flatten
zero_inside run c cs more n =
    let word = length c + 1 + 1 in
    let front = (length run + 1) ∷ run in
    ap (λ t. get_elem? t 256)
      (append_assoc front ((length (0 ∷ c) + 1) ∷ ((0 ∷ c) ++ flatten cs)) more
        ∙ sym (append_assoc front ((length (0 ∷ c) + 1) ∷ []) (((0 ∷ c) ++ flatten cs) ++ more)))
    ∙ get_elem?-append (front ++ (length (0 ∷ c) + 1) ∷ []) ((c ++ flatten cs) ++ more) 0 256
        (omega (arith, length-append front ((length (0 ∷ c) + 1) ∷ [])))

-- After 254 bytes other than zero, a zero byte of the input is written as it is: `Cobs_encode`
-- leaves a zero, the byte that ends a frame, at index 256 of its output, where the encoding fits.
pub encode_zero :
    (run rest enc_out : List ℕ) (max_enc_len : ℕ)
    → NonZero run
    → length run ≡ 254
    → length (flatten (chunks [] (run ++ 0 ∷ rest))) ≤ max_enc_len
    → max_enc_len ≤ length enc_out
    → (encode (run ++ 0 ∷ rest) enc_out max_enc_len >>= λ r. get_elem? r.1 256) ≡ some 0
encode_zero run rest enc_out max_enc_len h n fits holds =
    let (c, cs, e) = starts_with [] rest 0 in
    let split = full_run run [] rest h (omega arith) ∙ ap (λ t. run ∷ t) e in
    let more = drop (length (flatten (chunks [] (run ++ 0 ∷ rest)))) enc_out in
    rw (encode-flatten (run ++ 0 ∷ rest) enc_out max_enc_len fits holds)
      (ap (λ t. get_elem? (flatten t ++ more) 256) split ∙ zero_inside run c cs more n)
