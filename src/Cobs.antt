-- ===== src/Cobs.antt =====
-- modules/Cobs/src/Cobs.c: the COBS encoder and decoder. The indices are `int`s and the pointers
-- are indices here, none of which leaves the arrays; an access outside an array is `none`. An `int`
-- does not overflow on arrays of fewer than 2 ^ 31 bytes, which is what is modelled.
pub mod Chunks
pub mod Steps
pub mod Encode
pub mod Rounds
pub mod Decode
pub mod Roundtrip
pub mod Zeros
mod Tests
use zephyr_common.Common.{
  ℕ, zero, suc, ◌+◌, ◌-◌, Bool, true, false, ◌||◌, Option, none, some, List, [], ◌∷◌, ◌==◌, u8, Ret,
  ok, err, failed, get_elem?, length, max,
}
use zephyr_common.Common.Memory.{poke, ◌>>=◌}

-- `ESCAPED_BYTE`
abbrev pub escaped_byte : ℕ
escaped_byte = 0

-- The loop over the bytes that are left, and what follows it. `count` is its value at the test of
-- the loop, one less than in its body.
unfoldable pub encode_from : List ℕ → ℕ → ℕ → List ℕ → ℕ → Option (Ret × List ℕ)
encode_from [] count code_word_idx out max =
    poke out code_word_idx (u8 (count + 1)) >>= λ out. some (ok (code_word_idx + (count + 1)), out)
encode_from (byte ∷ bytes) count code_word_idx out max =
    elim ((byte == escaped_byte) || (count + 1 == 255)) [
      | true ↦ poke out code_word_idx (u8 (count + 1)) >>= λ out. elim (count + 1 == 255) [
        | true ↦ elim (code_word_idx + (count + 1) + 1 == max) [
          | true ↦ some (err failed, out)
          | false ↦ poke out (code_word_idx + (count + 1) + 1) byte >>= λ out.
              encode_from bytes 1 (code_word_idx + (count + 1)) out max
        ]
        | false ↦ encode_from bytes 0 (code_word_idx + (count + 1)) out max
      ]
      | false ↦ elim (code_word_idx + (count + 1) == max) [
        | true ↦ some (err failed, out)
        | false ↦ poke out (code_word_idx + (count + 1)) byte >>= λ out.
            encode_from bytes (count + 1) code_word_idx out max
      ]
    ]

unfoldable pub encode : List ℕ → List ℕ → ℕ → Option (Ret × List ℕ)
unfolding encode_from
encode buf_in enc_out max_enc_len = encode_from buf_in 0 0 enc_out max_enc_len

-- The `for` loop of `Cobs_decode`: `left` rounds from `pData` on. `pBuf` is `num_out` cells into the
-- buffer, which is the count returned.
unfoldable pub copy_data : ℕ → List ℕ → ℕ → List ℕ → ℕ → ℕ → Option (Ret × List ℕ)
copy_data zero enc from out num_out max = some (ok num_out, out)
copy_data (suc left) enc from out num_out max = elim (num_out == max) [
  | true ↦ some (err failed, out)
  | false ↦ get_elem? enc from >>= λ byte.
      poke out num_out byte >>= λ out. copy_data left enc (from + 1) out (num_out + 1) max
]

-- The `while` loop from the code word at `code` on. A round moves `code`, so that a call that
-- returns takes at most one round for each byte of the input array.
unfoldable pub decode_from : ℕ → List ℕ → ℕ → ℕ → List ℕ → ℕ → ℕ → Option (Ret × List ℕ)
unfolding copy_data
decode_from zero enc len code out num_out max_out = none
decode_from (suc rounds) enc len code out num_out max_out = get_elem? enc code >>= λ word.
    copy_data (word - 1) enc (code + 1) out num_out max_out >>= λ copied. elim (copied.0) [
      | err e ↦ some (err e, copied.1)
      | ok num ↦ elim (code + max 1 word == len) [
        | true ↦ some (ok num, copied.1)
        | false ↦ elim (max 1 word == 255) [
          | true ↦ decode_from rounds enc len (code + max 1 word) copied.1 num max_out
          | false ↦ elim (num == max_out) [
            | true ↦ some (err failed, copied.1)
            | false ↦ poke copied.1 num 0 >>= λ out.
                decode_from rounds enc len (code + max 1 word) out (num + 1) max_out
          ]
        ]
      ]
    ]

unfoldable pub decode : List ℕ → ℕ → List ℕ → ℕ → Option (Ret × List ℕ)
unfolding decode_from
decode enc_in enc_in_len buf_out max_buf_out =
    decode_from (length enc_in) enc_in enc_in_len 0 buf_out 0 max_buf_out
