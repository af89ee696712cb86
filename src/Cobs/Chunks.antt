-- ===== src/Cobs/Chunks.antt =====
-- What a COBS encoding is, without buffers: chunks of at most 254 bytes, each behind its length
-- and one.
use zephyr_common.Common.{
  ℕ, ◌+◌, ◌≤◌, ◌≡◌, refl, sym, ap, ◌∙◌, ◌⊎◌, inl, inr, true, false, Bool-cases, List, [], ◌∷◌, ◌++◌,
  append_assoc, append-nil, arith, length, length-append, ◌==◌, ==_iff,
}
use zephyr_common.Cobs.{escaped_byte}

-- The chunks of the bytes that are left, with `chunk` read already.
unfoldable pub chunks : List ℕ → List ℕ → List (List ℕ)
chunks chunk [] = chunk ∷ []
chunks chunk (byte ∷ bytes) = elim (length chunk == 254) [
  | true ↦ chunk ∷ chunks (byte ∷ []) bytes
  | false ↦ elim (byte == escaped_byte) [
    | true ↦ chunk ∷ chunks [] bytes
    | false ↦ chunks (chunk ++ byte ∷ []) bytes
  ]
]

unfoldable pub flatten : List (List ℕ) → List ℕ
flatten [] = []
flatten (c ∷ cs) = (length c + 1) ∷ (c ++ flatten cs)

-- A chunk is followed by a zero byte, unless it is the last or has the full length.
unfoldable pub join : List (List ℕ) → List ℕ
join [] = []
join (c ∷ []) = c
join (c ∷ d ∷ cs) = c ++ elim (length c == 254) [ true ↦ join (d ∷ cs) | false ↦ 0 ∷ join (d ∷ cs) ]

-- The three branches of `chunks`.
pub chunks_full :
    (chunk : List ℕ) (byte : ℕ) (bytes : List ℕ)
    → (length chunk == 254) ≡ true
    → chunks chunk (byte ∷ bytes) ≡ chunk ∷ chunks (byte ∷ []) bytes
unfolding chunks
chunks_full chunk byte bytes full = rw (chunks, full) refl

pub chunks_zero :
    (chunk : List ℕ) (byte : ℕ) (bytes : List ℕ)
    → (length chunk == 254) ≡ false
    → (byte == escaped_byte) ≡ true
    → chunks chunk (byte ∷ bytes) ≡ chunk ∷ chunks [] bytes
unfolding chunks
chunks_zero chunk byte bytes below zero_byte = rw (chunks, below, zero_byte) refl

pub chunks_plain :
    (chunk : List ℕ) (byte : ℕ) (bytes : List ℕ)
    → (length chunk == 254) ≡ false
    → (byte == escaped_byte) ≡ false
    → chunks chunk (byte ∷ bytes) ≡ chunks (chunk ++ byte ∷ []) bytes
unfolding chunks
chunks_plain chunk byte bytes below plain = rw (chunks, below, plain) refl

-- A case for each branch.
pub Chunks-cases :
    (chunk : List ℕ) (byte : ℕ)
    → ((length chunk == 254) ≡ true)
      ⊎ (((length chunk == 254) ≡ false) × ((byte == escaped_byte) ≡ true))
      ⊎ (((length chunk == 254) ≡ false) × ((byte == escaped_byte) ≡ false))
Chunks-cases chunk byte = elim (Bool-cases (length chunk == 254)) [
  | inl full ↦ inl full
  | inr below ↦ inr (elim (Bool-cases (byte == escaped_byte)) [
    | inl zero_byte ↦ inl (below, zero_byte)
    | inr plain ↦ inr (below, plain)
  ])
]

pub chunks-cons :
    (chunk bytes : List ℕ) → (c : List ℕ) × (cs : List (List ℕ)) × (chunks chunk bytes ≡ c ∷ cs)
unfolding chunks
chunks-cons chunk [] = (chunk, [], refl)
chunks-cons chunk (byte ∷ bytes) = elim (Chunks-cases chunk byte) [
  | inl full ↦ (chunk, chunks (byte ∷ []) bytes, chunks_full chunk byte bytes full)
  | inr (inl (below, zero_byte)) ↦
      (chunk, chunks [] bytes, chunks_zero chunk byte bytes below zero_byte)
  | inr (inr (below, plain)) ↦
      let (c, cs, e) = chunks-cons (chunk ++ byte ∷ []) bytes in
      (c, cs, chunks_plain chunk byte bytes below plain ∙ e)
]

join_full :
    (chunk bytes read : List ℕ)
    → (length chunk == 254) ≡ true
    → join (chunk ∷ chunks read bytes) ≡ chunk ++ join (chunks read bytes)
unfolding join
join_full chunk bytes read full = let (c, cs, e) = chunks-cons read bytes in rw (e, join, full) refl

join_zero :
    (chunk bytes read : List ℕ)
    → (length chunk == 254) ≡ false
    → join (chunk ∷ chunks read bytes) ≡ chunk ++ 0 ∷ join (chunks read bytes)
unfolding join
join_zero chunk bytes read below =
    let (c, cs, e) = chunks-cons read bytes in rw (e, join, below) refl

-- The chunks hold all bytes that were read.
pub join-chunks : (chunk bytes : List ℕ) → join (chunks chunk bytes) ≡ chunk ++ bytes
unfolding chunks join
join-chunks chunk [] = sym (append-nil chunk)
join-chunks chunk (byte ∷ bytes) = elim (Chunks-cases chunk byte) [
  | inl full ↦
      ap join (chunks_full chunk byte bytes full)
      ∙ (join_full chunk bytes (byte ∷ []) full
          ∙ ap (λ t. chunk ++ t) (join-chunks (byte ∷ []) bytes))
  | inr (inl (below, zero_byte)) ↦
      ap join (chunks_zero chunk byte bytes below zero_byte)
      ∙ (join_zero chunk bytes [] below
          ∙ ap (λ t. chunk ++ t)
              (ap (λ t. 0 ∷ t) (join-chunks [] bytes)
                ∙ ap (λ b. b ∷ bytes) (sym ((==_iff byte escaped_byte).0 zero_byte))))
  | inr (inr (below, plain)) ↦
      ap join (chunks_plain chunk byte bytes below plain)
      ∙ (join-chunks (chunk ++ byte ∷ []) bytes ∙ append_assoc chunk (byte ∷ []) bytes)
]

-- The encoding is longer than what has been read of its first chunk.
pub length-flatten :
    (chunk bytes : List ℕ) → length chunk + 1 ≤ length (flatten (chunks chunk bytes))
unfolding chunks flatten
length-flatten chunk [] = omega (arith, length-append chunk [])
length-flatten chunk (byte ∷ bytes) = elim (Chunks-cases chunk byte) [
  | inl full ↦
      rw (chunks_full chunk byte bytes full)
        (omega (arith, length-append chunk (flatten (chunks (byte ∷ []) bytes))))
  | inr (inl (below, zero_byte)) ↦
      rw (chunks_zero chunk byte bytes below zero_byte)
        (omega (arith, length-append chunk (flatten (chunks [] bytes))))
  | inr (inr (below, plain)) ↦
      rw (chunks_plain chunk byte bytes below plain)
        (omega (arith, length-flatten (chunk ++ byte ∷ []) bytes, length-append chunk (byte ∷ [])))
]

-- The size of the encoding in each branch.
pub size_last : (chunk : List ℕ) → length (flatten (chunks chunk [])) ≡ 1 + length chunk
unfolding chunks flatten
size_last chunk = omega (arith, length-append chunk [])

pub size_full :
    (chunk : List ℕ) (byte : ℕ) (bytes : List ℕ)
    → (length chunk == 254) ≡ true
    → length (flatten (chunks chunk (byte ∷ bytes)))
      ≡ 1 + length chunk + length (flatten (chunks (byte ∷ []) bytes))
unfolding flatten
size_full chunk byte bytes full =
    let more = flatten (chunks (byte ∷ []) bytes) in
    rw (chunks_full chunk byte bytes full) (omega (arith, length-append chunk more))

pub size_zero :
    (chunk : List ℕ) (byte : ℕ) (bytes : List ℕ)
    → (length chunk == 254) ≡ false
    → (byte == escaped_byte) ≡ true
    → length (flatten (chunks chunk (byte ∷ bytes)))
      ≡ 1 + length chunk + length (flatten (chunks [] bytes))
unfolding flatten
size_zero chunk byte bytes below zero_byte =
    let more = flatten (chunks [] bytes) in
    rw (chunks_zero chunk byte bytes below zero_byte) (omega (arith, length-append chunk more))
