-- ===== src/Cobs/Tests.antt =====
-- Tests of the encoder and the decoder, and their theorems at concrete buffers.
use zephyr_common.Common.{
  ℕ, zero, suc, ◌+◌, ◌/◌, ◌≤◌, ◌≡◌, refl, List, [], ◌∷◌, ◌++◌, some, ok, err, failed, arith, length,
  drop, get_elem?, replicate,
}
use zephyr_common.Common.Memory.{◌>>=◌}
use zephyr_common.Cobs.{encode, encode_from, decode, decode_from, copy_data}
use zephyr_common.Cobs.Chunks.{chunks, flatten}
use zephyr_common.Cobs.Encode.{encode-flatten}
use zephyr_common.Cobs.Roundtrip.{decode-encode, encode_bound}
use zephyr_common.Cobs.Zeros.{NonZero, encode_zero}

abbrev payload : List ℕ
payload = 0x11 ∷ 0 ∷ 0 ∷ 0x22 ∷ 0x33 ∷ []

abbrev room : List ℕ
room = replicate 9 0xEE

encodes :
    encode payload room 9 ≡ some (ok 6, 2 ∷ 0x11 ∷ 1 ∷ 3 ∷ 0x22 ∷ 0x33 ∷ 0xEE ∷ 0xEE ∷ 0xEE ∷ [])
unfolding encode encode_from
encodes = refl

decodes : decode (2 ∷ 0x11 ∷ 1 ∷ 3 ∷ 0x22 ∷ 0x33 ∷ []) 6 (replicate 5 0) 5 ≡ some (ok 5, payload)
unfolding decode decode_from copy_data
decodes = refl

refuses :
    encode payload room 5
    ≡ some (err failed, 2 ∷ 0x11 ∷ 1 ∷ 0xEE ∷ 0x22 ∷ 0xEE ∷ 0xEE ∷ 0xEE ∷ 0xEE ∷ [])
unfolding encode encode_from
refuses = refl

encodes_in_chunks :
    let encoded = flatten (chunks [] payload) in
    encode payload room 9 ≡ some (ok (length encoded), encoded ++ drop (length encoded) room)
unfolding chunks flatten
encodes_in_chunks = encode-flatten payload room 9 (omega arith) (omega arith)

decode-encode_example :
    (encode payload room 9 >>= λ r. elim (r.0) [
      | ok num ↦ decode r.1 num room 8
      | err e ↦ some (err e, room)
    ])
    ≡ some (ok (length payload), payload ++ drop (length payload) room)
unfolding chunks flatten
decode-encode_example =
    decode-encode payload room room 9 8 (omega arith) (omega arith) (omega arith) (omega arith)

encode_bound_example :
    (num : ℕ) × ((encode payload room 6 >>= λ r. some (r.0)) ≡ some (ok num))
    × (num ≤ 1 + length payload + length payload / 254)
encode_bound_example = encode_bound payload room 6 (omega arith) (omega arith)

ones : (n : ℕ) → NonZero (replicate n 1)
unfolding NonZero
ones zero = tt
ones (suc n) = (refl, ones n)

encode_zero_example :
    (encode (replicate 254 1 ++ 0 ∷ 7 ∷ []) (replicate 300 0) 280 >>= λ r. get_elem? r.1 256)
    ≡ some 0
unfolding chunks flatten
encode_zero_example =
    encode_zero (replicate 254 1) (7 ∷ []) (replicate 300 0) 280 (ones 254) refl (omega arith)
      (omega arith)
