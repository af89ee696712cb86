-- ===== src/Slip/Tests.antt =====
-- Tests of framing and deframing, and their theorems at concrete frames.
use zephyr_common.Common.{
  ℕ, ◌≡◌, refl, List, [], ◌∷◌, ◌++◌, none, some, false, inl, arith, length, drop, replicate, ok,
  err, eoverflow,
}
use zephyr_common.Ring.{window}
use zephyr_common.SwFifo.{SwFifo, count}
use zephyr_common.SwFifo.Valid.{IsValid, contents}
use zephyr_common.Slip.{Context, init, framer, deframer, end_byte}
use zephyr_common.Slip.Frame.{escape, frame}
use zephyr_common.Slip.Decoder.{hunting, feed}
use zephyr_common.Slip.Framer.{framer-frame, framer_overrun, framer_overflow}
use zephyr_common.Slip.Deframer.Inside.{Takes}
use zephyr_common.Slip.Deframer.Call.{deframer-Takes}
use zephyr_common.Slip.Parts.{calls, calls-frame, Delivers, deframer_exact, deframer_no_room}

-- One byte to escape among three.
abbrev message : List ℕ
message = 1 ∷ end_byte ∷ 2 ∷ []

frame-message : frame message ≡ end_byte ∷ 1 ∷ 0xDB ∷ 0xDC ∷ 2 ∷ end_byte ∷ []
unfolding frame escape
frame-message = refl

framer-frame_example :
    framer message (replicate 8 0) 7
    ≡ some (
      ok (length (frame message)),
      frame message ++ drop (length (frame message)) (replicate 8 0),
    )
unfolding frame escape
framer-frame_example =
    framer-frame message (replicate 8 0) 7 (omega arith) (omega arith) (omega arith)

framer_short_buffer : framer message (replicate 5 0) 5 ≡ none
unfolding frame escape
framer_short_buffer = framer_overrun message (replicate 5 0) (omega arith) (omega arith)

refuses_full :
    (out' : List ℕ) × (framer (1 ∷ 2 ∷ 3 ∷ 4 ∷ []) (replicate 4 0) 3 ≡ some (err eoverflow, out'))
unfolding escape
refuses_full =
    framer_overflow (1 ∷ 2 ∷ []) (4 ∷ []) (replicate 4 0) 3 3 refl (omega arith) (omega arith)

abbrev empty_fifo : SwFifo
empty_fifo = record {
  depth = 8;
  item_size = 1;
  wr_idx = 6;
  rd_idx = 6;
  threadsafe = false;
  mem = replicate 9 0;
}

abbrev idle : Context
idle = record { state = init; fifo = empty_fifo; idx = 0; get_escaped = false }

deframer-Takes_example :
    Takes 4
      (feed 4 hunting (contents empty_fifo ++ frame message))
      idle
      (replicate 4 0)
      (deframer idle (frame message) (replicate 4 0) 4)
unfolding frame escape window count
deframer-Takes_example =
    deframer-Takes hunting idle (frame message) (replicate 4 0) 4 (omega arith) (omega arith)
      (omega arith) (inl refl) (omega arith)

-- Noise, then the frame in two parts.
calls-frame_example : Delivers message ((7 ∷ end_byte ∷ 1 ∷ 0xDB ∷ []) ∷ []) (
    calls idle (replicate 4 0) 4 ((7 ∷ end_byte ∷ 1 ∷ 0xDB ∷ []) ∷ (0xDC ∷ 2 ∷ end_byte ∷ []) ∷ []))
unfolding frame escape window count
calls-frame_example =
    calls-frame 4 (omega arith) message (7 ∷ []) ((7 ∷ end_byte ∷ 1 ∷ 0xDB ∷ []) ∷ []) 0xDC
      (2 ∷ end_byte ∷ []) idle (replicate 4 0) (refl, tt) (omega arith) (omega arith) (omega arith)
      refl refl (omega arith, tt) (omega arith) refl

refuses_exact :
    (self' : Context) × (out' : List ℕ) × (deframer idle (frame message) (replicate 3 0) 3
      ≡ some (err eoverflow, self', out'))
unfolding frame escape window count
refuses_exact =
    deframer_exact message idle (replicate 3 0) 3 (omega arith) (omega arith) refl (omega arith)
      refl refl (omega arith)

drops_all :
    (self' : Context) × (deframer idle (replicate 9 5) (replicate 3 0) 3
      ≡ some (ok 0, self', replicate 3 0))
    × (self'.state ≡ init)
    × (contents self'.fifo ≡ [])
    × IsValid self'.fifo
unfolding window count
drops_all = deframer_no_room idle (replicate 9 5) (replicate 3 0) 3 (omega arith) (omega arith)
