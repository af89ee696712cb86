-- ===== src/Slip/Decoder.antt =====
-- A SLIP receiver as a machine that takes a byte at a time and knows nothing of fifos or buffers:
-- what `slip_deframer` has to do.
use zephyr_common.Common.{
  ◌≡◌, refl, ℕ, Bool, true, false, ◌&&◌, List, [], ◌∷◌, ◌++◌, ◌==◌, if◌then◌else◌, length,
}
use zephyr_common.Slip.{end_byte, esc_byte, esc_end, esc_esc}

-- Before a frame, or in one with the payload so far and whether the last byte was ESC.
pub data Decoder : Type 0 where
  hunting : Decoder
  inside : List ℕ → Bool → Decoder

-- After a byte: no frame yet, a whole payload, no room for another byte, or no valid escape.
pub data Event : Type 0 where
  more : Decoder → Event
  payload : List ℕ → Event
  overflow invalid : Event

unfoldable pub inside_byte : List ℕ → Bool → ℕ → Event
inside_byte dec esc b =
    if b == end_byte
    then payload dec
    else if b == esc_byte
    then more (inside dec true)
    else if b == esc_esc && esc
    then more (inside (dec ++ esc_byte ∷ []) false)
    else if b == esc_end && esc
    then more (inside (dec ++ end_byte ∷ []) false)
    else if esc
    then invalid
    else more (inside (dec ++ b ∷ []) false)

module _ (max : ℕ) where
  unfoldable pub feed_byte : Decoder → ℕ → Event
  unfolding inside_byte
  feed_byte hunting b = if b == end_byte then more (inside [] false) else more hunting
  feed_byte (inside dec esc) b = if length dec == max then overflow else inside_byte dec esc b

  -- Bytes are taken until there is something to report; what is left comes back.
  unfoldable pub feed : Decoder → List ℕ → Event × List ℕ
  unfolding feed_byte
  feed d [] = (more d, [])
  feed d (b ∷ bs) = elim (feed_byte d b) [
    | more d' ↦ feed d' bs
    | payload p ↦ (payload p, bs)
    | overflow ↦ (overflow, bs)
    | invalid ↦ (invalid, bs)
  ]

  -- What is done with the bytes behind one that was taken.
  abbrev pub after_event : List ℕ → Event → Event × List ℕ
  after_event q ev = elim ev [
    | more d' ↦ feed d' q
    | payload p ↦ (payload p, q)
    | overflow ↦ (overflow, q)
    | invalid ↦ (invalid, q)
  ]

  pub feed-cons :
      (d : Decoder) (b : ℕ) (q : List ℕ) → feed d (b ∷ q) ≡ after_event q (feed_byte d b)
  unfolding feed
  feed-cons d b q = refl

  pub feed_full :
      (dec : List ℕ) (esc : Bool) (b : ℕ) (q : List ℕ)
      → (length dec == max) ≡ true
      → feed (inside dec esc) (b ∷ q) ≡ (overflow, q)
  unfolding feed
  feed_full dec esc b q h = rw (feed, h)

  pub feed_free :
      (dec : List ℕ) (esc : Bool) (b : ℕ) (q : List ℕ)
      → (length dec == max) ≡ false
      → feed (inside dec esc) (b ∷ q) ≡ after_event q (inside_byte dec esc b)
  unfolding feed
  feed_free dec esc b q h = rw (feed, h)
