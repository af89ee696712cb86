-- ===== src/Cobs/Steps.antt =====
-- The branches of the loop of `Cobs_encode`: behind the chunks that are `closed` there is a cell
-- for the code word and the chunk that is being read.
use zephyr_common.Common.{
  ℕ, ◌+◌, ◌≤◌, ◌≡◌, refl, sym, ap, ap₂, ◌∙◌, true, false, ◌||◌, List, [], ◌∷◌, ◌++◌, Option, some,
  Ret, append_assoc, append-nil, arith, length, length-append, ◌==◌, u8, ok,
}
use zephyr_common.Common.Memory.{poke, poke-append}
use zephyr_common.Cobs.{escaped_byte, encode_from}
use zephyr_common.Cobs.Chunks.{chunks, flatten, chunks_full, chunks_zero, chunks_plain}

-- The last code word, or one that closes a chunk.
pub poke_code :
    (closed chunk rest : List ℕ) (r n : ℕ)
    → length chunk ≤ 254
    → n ≡ length chunk
    → poke (closed ++ r ∷ (chunk ++ rest)) (length closed) (u8 (n + 1))
      ≡ some ((closed ++ (length chunk + 1) ∷ chunk) ++ rest)
poke_code closed chunk rest r n h e =
    let word : u8 (n + 1) ≡ length chunk + 1 = omega arith in
    rw
      (
        word,
        poke-append closed (chunk ++ rest) r (length closed) (length chunk + 1) refl,
        append_assoc closed ((length chunk + 1) ∷ chunk) rest,
      )
      refl

-- A byte behind the chunk.
pub poke_byte :
    (closed chunk rest : List ℕ) (r s i byte : ℕ)
    → i ≡ length closed + (length chunk + 1)
    → poke (closed ++ r ∷ (chunk ++ s ∷ rest)) i byte
      ≡ some (closed ++ r ∷ ((chunk ++ byte ∷ []) ++ rest))
poke_byte closed chunk rest r s i byte e =
    ap (λ xs. poke xs i byte) (sym (append_assoc closed (r ∷ chunk) (s ∷ rest)))
    ∙ (poke-append (closed ++ r ∷ chunk) rest s i byte
          (omega (arith, length-append closed (r ∷ chunk)))
        ∙ ap some (
            append_assoc closed (r ∷ chunk) (byte ∷ rest)
            ∙ ap (λ t. closed ++ r ∷ t) (sym (append_assoc chunk (byte ∷ []) rest))))

abbrev pub wrote : ℕ → List ℕ → Option (Ret × List ℕ)
wrote n out = some (ok n, out)

-- What the loop leaves from this state on: `room` are the cells that the encoding still takes.
abbrev pub Writes : List ℕ → List ℕ → List ℕ → List ℕ → List ℕ → ℕ → ℕ → Type 0
Writes bytes closed chunk room tail r max =
    encode_from bytes (length chunk) (length closed) (closed ++ r ∷ (chunk ++ (room ++ tail))) max
    ≡ wrote (length closed + length (flatten (chunks chunk bytes)))
        ((closed ++ flatten (chunks chunk bytes)) ++ tail)

pub close_last :
    (closed chunk tail : List ℕ) (r max : ℕ)
    → length chunk ≤ 254
    → Writes [] closed chunk [] tail r max
unfolding encode_from chunks flatten
close_last closed chunk tail r max short =
    let e : chunk ++ [] ≡ chunk = append-nil chunk in
    rw (encode_from, poke_code closed chunk tail r (length chunk) short refl, e)
      (ap₂ wrote (omega arith) refl)

-- The rest of the loop behind a closed chunk.
push_closed :
    (closed chunk more tail : List ℕ) (n : ℕ)
    → n ≡ length closed + (length chunk + 1)
    → wrote (n + length more) (((closed ++ (length chunk + 1) ∷ chunk) ++ more) ++ tail)
      ≡ wrote
          (length closed + length ((length chunk + 1) ∷ (chunk ++ more)))
          ((closed ++ (length chunk + 1) ∷ (chunk ++ more)) ++ tail)
push_closed closed chunk more tail n e =
    ap₂ wrote (omega (arith, length-append chunk more))
      (ap (λ t. t ++ tail) (append_assoc closed ((length chunk + 1) ∷ chunk) more))

pub length-closed :
    (closed chunk : List ℕ)
    → length closed + (length chunk + 1) ≡ length (closed ++ (length chunk + 1) ∷ chunk)
length-closed closed chunk = omega (arith, length-append closed ((length chunk + 1) ∷ chunk))

pub close_zero :
    (bytes closed chunk room tail : List ℕ) (byte r s max : ℕ)
    → length chunk ≤ 254
    → (length chunk == 254) ≡ false
    → (byte == escaped_byte) ≡ true
    → Writes bytes (closed ++ (length chunk + 1) ∷ chunk) [] room tail s max
    → Writes (byte ∷ bytes) closed chunk (s ∷ room) tail r max
unfolding encode_from flatten
close_zero bytes closed chunk room tail byte r s max short below zero_byte later =
    let test : (length chunk + 1 == 255) ≡ false = ground arith in
    rw
      (
        encode_from,
        zero_byte,
        poke_code closed chunk (s ∷ (room ++ tail)) r (length chunk) short refl,
        test,
        chunks_zero chunk byte bytes below zero_byte,
        length-closed closed chunk,
      )
      (later
        ∙ push_closed closed chunk (flatten (chunks [] bytes)) tail _
            (sym (length-closed closed chunk)))

pub close_full :
    (bytes closed chunk room tail : List ℕ) (byte r s q max : ℕ)
    → length chunk ≤ 254
    → (length chunk == 254) ≡ true
    → length closed + (length chunk + 1) + 2 ≤ max
    → Writes bytes (closed ++ (length chunk + 1) ∷ chunk) (byte ∷ []) room tail s max
    → Writes (byte ∷ bytes) closed chunk (s ∷ q ∷ room) tail r max
unfolding encode_from flatten
close_full bytes closed chunk room tail byte r s q max short full space later =
    let test : (length chunk + 1 == 255) ≡ true = ground arith in
    let closes : ((byte == escaped_byte) || (length chunk + 1 == 255)) ≡ true = ground arith in
    let fits : (length closed + (length chunk + 1) + 1 == max) ≡ false = ground arith in
    let more = flatten (chunks (byte ∷ []) bytes) in
    rw
      (
        encode_from,
        closes,
        poke_code closed chunk (s ∷ q ∷ (room ++ tail)) r (length chunk) short refl,
        test,
        fits,
        poke_byte (closed ++ (length chunk + 1) ∷ chunk) [] (room ++ tail) s q
            (length closed + (length chunk + 1) + 1) byte
            (omega (arith, length-closed closed chunk)),
        chunks_full chunk byte bytes full,
        length-closed closed chunk,
      )
      (later ∙ push_closed closed chunk more tail _ (sym (length-closed closed chunk)))

pub keep_byte :
    (bytes closed chunk room tail : List ℕ) (byte r s max : ℕ)
    → length chunk ≤ 254
    → (length chunk == 254) ≡ false
    → (byte == escaped_byte) ≡ false
    → length closed + (length chunk + 1) + 1 ≤ max
    → Writes bytes closed (chunk ++ byte ∷ []) room tail r max
    → Writes (byte ∷ bytes) closed chunk (s ∷ room) tail r max
unfolding encode_from
keep_byte bytes closed chunk room tail byte r s max short below plain space later =
    let test : (length chunk + 1 == 255) ≡ false = ground arith in
    let fits : (length closed + (length chunk + 1) == max) ≡ false = ground arith in
    let longer : length chunk + 1 ≡ length (chunk ++ byte ∷ []) =
      omega (arith, length-append chunk (byte ∷ [])) in
    rw
      (
        encode_from,
        plain,
        test,
        fits,
        poke_byte closed chunk (room ++ tail) r s (length closed + (length chunk + 1)) byte refl,
        chunks_plain chunk byte bytes below plain,
        longer,
      )
      later

pub uncons : (xs : List ℕ) → 1 ≤ length xs → (x : ℕ) × (rest : List ℕ) × (xs ≡ x ∷ rest)
uncons [] h = absurd (omega arith)
uncons (x ∷ xs) h = (x, xs, refl)
