-- ===== src/Slip/Stream.antt =====
-- Frames through the receiver, and streams through it in parts.
use zephyr_common.Common.{
  ℕ, ◌+◌, ◌≤◌, ◌<◌, ◌≡◌, refl, ◌∙◌, inl, inr, true, false, Bool-cases, List, [], ◌∷◌, ◌++◌, arith,
  length, length-append, append-nil, append_assoc, ◌==◌, ==_iff,
}
use zephyr_common.Slip.{end_byte, esc_byte, esc_end, esc_esc}
use zephyr_common.Slip.Frame.{escape_byte, escape, frame}
use zephyr_common.Slip.Decoder.{
  Decoder, hunting, inside, Event, more, payload, overflow, invalid, feed, feed_byte, feed-cons,
  after_event, inside_byte, feed_full, feed_free,
}

-- No byte is END.
abbrev pub NoEnd : List ℕ → Type 0
NoEnd [] = Unit
NoEnd (x ∷ xs) = ((x == end_byte) ≡ false) × NoEnd xs

module _ (max : ℕ) where
  -- An escaped byte adds the byte to the payload, where there is room for it.
  feed-escape_byte :
      (dec rest : List ℕ) (c : ℕ)
      → length dec < max
      → feed max (inside dec false) (escape_byte c ++ rest)
        ≡ feed max (inside (dec ++ c ∷ []) false) rest
  unfolding escape_byte inside_byte
  feed-escape_byte dec rest c h =
      let free : (length dec == max) ≡ false = ground arith in
      elim (Bool-cases (c == end_byte)) [
        | inl is_end ↦
            let same : c ≡ end_byte = (==_iff _ _).0 is_end in
            rw is_end (
              feed_free max dec false esc_byte (esc_end ∷ rest) free
              ∙ (feed_free max dec true esc_end rest free ∙ rw same))
        | inr other ↦ elim (Bool-cases (c == esc_byte)) [
          | inl is_esc ↦
              let same : c ≡ esc_byte = (==_iff _ _).0 is_esc in
              rw (other, is_esc)
                (feed_free max dec false esc_byte (esc_esc ∷ rest) free
                  ∙ (feed_free max dec true esc_esc rest free ∙ rw same))
          | inr plain ↦
              rw (other, plain) (feed_free max dec false c rest free ∙ ground (arith, other, plain))
        ]
      ]

  feed-escape :
      (xs dec rest : List ℕ)
      → length dec + length xs ≤ max
      → feed max (inside dec false) (escape xs ++ rest) ≡ feed max (inside (dec ++ xs) false) rest
  unfolding escape
  feed-escape [] dec rest h = rw append-nil
  feed-escape (x ∷ xs) dec rest h = rw (append_assoc (escape_byte x) (escape xs) rest) (
      feed-escape_byte dec (escape xs ++ rest) x (omega arith)
      ∙ (feed-escape xs (dec ++ x ∷ []) rest (omega (arith, length-append dec (x ∷ [])))
          ∙ rw (append_assoc dec (x ∷ []) xs)))

  -- Bytes other than END before the first frame are dropped.
  feed-noise :
      (noise rest : List ℕ) → NoEnd noise → feed max hunting (noise ++ rest) ≡ feed max hunting rest
  unfolding feed_byte feed
  feed-noise [] rest h = refl
  feed-noise (x ∷ noise) rest h =
      feed-cons max hunting x (noise ++ rest) ∙ rw (feed_byte, h.0) (feed-noise noise rest h.1)

  -- The receiver takes the payload out of a frame that comes behind noise, if the payload is
  -- shorter than the room for it, and leaves the bytes behind the frame.
  pub feed-frame :
      (noise xs rest : List ℕ)
      → NoEnd noise
      → length xs < max
      → feed max hunting (noise ++ (frame xs ++ rest)) ≡ (payload xs, rest)
  unfolding frame inside_byte
  feed-frame noise xs rest clean h =
      feed-noise noise (frame xs ++ rest) clean
      ∙ (feed-cons max hunting end_byte ((escape xs ++ end_byte ∷ []) ++ rest)
          ∙ (unfold feed_byte in
              rw (append_assoc (escape xs) (end_byte ∷ []) rest) (
                feed-escape xs [] (end_byte ∷ rest) (omega arith)
                ∙ feed_free max xs false end_byte rest (ground arith))))

  -- The bytes of two parts: those of the second go to where the receiver is after the first.
  abbrev pub continue : List ℕ → Event × List ℕ → Event × List ℕ
  continue b (more d, r) = feed max d b
  continue b (payload p, r) = (payload p, r ++ b)
  continue b (overflow, r) = (overflow, r ++ b)
  continue b (invalid, r) = (invalid, r ++ b)

  pub feed-append : (a b : List ℕ) (d : Decoder) → feed max d (a ++ b) ≡ continue b (feed max d a)
  unfolding feed
  feed-append [] b d = refl
  feed-append (x ∷ a) b d = go (feed-append a b) (feed_byte max d x)
    where
      go :
          ((d' : Decoder) → feed max d' (a ++ b) ≡ continue b (feed max d' a))
          → (ev : Event) → after_event max (a ++ b) ev ≡ continue b (after_event max a ev)
      go ih (more d') = ih d'
      go ih (payload p) = refl
      go ih overflow = refl
      go ih invalid = refl

  -- Where there is nothing to report, all bytes are taken.
  abbrev pub TakesAll : Event × List ℕ → Type 0
  TakesAll (more d, r) = r ≡ []
  TakesAll (payload p, r) = Unit
  TakesAll (overflow, r) = Unit
  TakesAll (invalid, r) = Unit

  pub feed-TakesAll : (a : List ℕ) (d : Decoder) → TakesAll (feed max d a)
  unfolding feed
  feed-TakesAll [] d = refl
  feed-TakesAll (x ∷ a) d = go (feed-TakesAll a) (feed_byte max d x)
    where
      go :
          ((d' : Decoder) → TakesAll (feed max d' a))
          → (ev : Event) → TakesAll (after_event max a ev)
      go ih (more d') = ih d'
      go ih (payload p) = tt
      go ih overflow = tt
      go ih invalid = tt

  -- A payload as long as the room for it is too long for the receiver: it checks for room before
  -- it sees that the frame ends.
  pub feed-frame_exact :
      (xs rest : List ℕ) → length xs ≡ max → feed max hunting (frame xs ++ rest) ≡ (overflow, rest)
  unfolding frame
  feed-frame_exact xs rest h =
      feed-cons max hunting end_byte ((escape xs ++ end_byte ∷ []) ++ rest)
      ∙ (unfold feed_byte in
          rw (append_assoc (escape xs) (end_byte ∷ []) rest) (
            feed-escape xs [] (end_byte ∷ rest) (omega arith)
            ∙ feed_full max xs false end_byte rest (ground arith)))
