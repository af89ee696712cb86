-- ===== src/PbGeneric.antt =====
-- modules/PbGeneric: messages to and from bytes. The message codec (nanopb) is a parameter: what it
-- makes of a stream, whose bytes are those written so far, or those still to be read.
use zephyr_common.Common.{ℕ, Bool, List, [], length, if◌then◌else◌}

-- `pb_ostream_t` of a buffer.
pub record Ostream : Type 0 where
  pub written : List ℕ
  pub max_size : ℕ

-- `pb_encode` and `pb_decode`, or the two with PB_ENCODE_DELIMITED, for messages of type `M` that
-- are described by fields of type `F`.
pub record Codec (F : Type 0) (M : Type 0) : Type 0 where
  pub encode : F → M → Ostream → Bool × Ostream
  pub decode : F → List ℕ → M → Bool × M × List ℕ

module _ {F : Type 0} {M : Type 0} (codec : Codec F M) where
  -- The count that is returned, and the stream.
  unfoldable pub pack_delimited : Ostream → M → F → ℕ × Ostream
  pack_delimited stream src fields =
      let (status, stream') = codec.encode fields src stream in
      (if status then length stream'.written else 0, stream')

  -- Whether it is a message, the target, and the bytes that are left.
  unfoldable pub unpack_delimited : List ℕ → M → F → Bool × M × List ℕ
  unpack_delimited stream target fields = codec.decode fields stream target

  -- The count that is returned, and the bytes in the buffer.
  unfoldable pub pack : ℕ → M → F → ℕ × List ℕ
  pack buflen src fields =
      let (status, stream') =
        codec.encode fields src (record { written = []; max_size = buflen }) in
      (if status then length stream'.written else 0, stream'.written)

  unfoldable pub unpack : List ℕ → M → F → Bool × M
  unpack buf target fields =
      let (status, target', rest) = codec.decode fields buf target in (status, target')
