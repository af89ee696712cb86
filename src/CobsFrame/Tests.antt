-- ===== src/CobsFrame/Tests.antt =====
-- Tests of the framer and the deframer, and their theorems at concrete frames.
use zephyr_common.Common.{
  ℕ, ◌+◌, ◌≢◌, ◌-◌, ◌≡◌, ◌⊎◌, refl, List, [], ◌∷◌, ◌++◌, none, some, false, arith, length, drop,
  replicate, ok, err, failed, ◌==◌, if◌then◌else◌,
}
use zephyr_common.Ring.{window}
use zephyr_common.SwFifo.{count}
use zephyr_common.SwFifo.Valid.{IsValid, contents}
use zephyr_common.Cobs.{encode, encode_from}
use zephyr_common.Cobs.Chunks.{chunks, flatten}
use zephyr_common.Cobs.Zeros.{NonZero}
use zephyr_common.CobsFrame.{
  Deframer, init, framing_byte, framer, framer_close, deframer, deframer_loop, bad,
}
use zephyr_common.CobsFrame.Frame.{encoding, frame, framer-encoding}
use zephyr_common.CobsFrame.Call.{IsIdle, deframer-frame}
use zephyr_common.CobsFrame.Rounds.{deframer_loop_fuel}
use zephyr_common.CobsFrame.Empty.{deframer_empty}

abbrev message : List ℕ
message = 0x11 ∷ 0 ∷ 0x22 ∷ []

frame-message : frame message ≡ 0 ∷ 2 ∷ 0x11 ∷ 2 ∷ 0x22 ∷ 0 ∷ []
unfolding chunks flatten
frame-message = refl

framer-encoding_example :
    let n = length (frame message) in
    framer message (replicate 8 9) 7
    ≡ some (
        if n == 7
        then (err failed, framing_byte ∷ (encoding message ++ drop (n - 1) (replicate 8 9)))
        else (ok n, frame message ++ drop n (replicate 8 9)))
unfolding chunks flatten
framer-encoding_example = framer-encoding message (replicate 8 9) 7 (omega arith) (omega arith)

-- A buffer of the size of the encoding: the encoder is told of one byte more than it has.
framer_outside : framer message (replicate 4 9) 4 ≡ none
unfolding framer framer_close encode encode_from
framer_outside = refl

abbrev pub idle : Deframer
idle = record {
  state = init;
  work = replicate 16 0;
  work_size = 16;
  fifo = record {
    depth = 16;
    item_size = 1;
    wr_idx = 11;
    rd_idx = 11;
    threadsafe = false;
    mem = replicate 17 0;
  };
  count = 0;
}

pub idle-IsIdle : IsIdle idle
unfolding window count
idle-IsIdle = record {
  starts = refl;
  valid = omega arith;
  empty = refl;
  held = refl;
  small = omega arith;
}

deframer-frame_example :
    (self' : Deframer) × (deframer idle ((7 ∷ []) ++ (frame message ++ 0 ∷ [])) (replicate 8 9) 8
      ≡ some (ok (length message), self', message ++ drop (length message) (replicate 8 9)))
    × (self'.state ≡ init)
    × (contents self'.fifo ≡ 0 ∷ [])
    × IsValid self'.fifo
unfolding chunks flatten
deframer-frame_example =
    deframer-frame message (7 ∷ []) (0 ∷ []) idle (replicate 8 9) 8 idle-IsIdle
      (unfold NonZero in (refl, tt)) (omega arith) (omega arith) (omega arith) (omega arith)
      (omega arith)

deframer_empty_example :
    let stream = 7 ∷ 0 ∷ 0 ∷ frame message in
    (deframer idle stream (replicate 8 9) 8 ≡ none)
    ⊎ ((self' : Deframer) × (out' : List ℕ) × (deframer idle stream (replicate 8 9) 8
          ≡ some (ok 0, self', out'))
        × (self'.state ≡ init)
        × (contents self'.fifo ≡ []))
unfolding chunks flatten
deframer_empty_example =
    deframer_empty (7 ∷ []) (frame message) idle (replicate 8 9) 8 idle-IsIdle
      (unfold NonZero in (refl, tt)) (omega arith) (omega arith)

init_in_enum : init ≢ bad
init_in_enum e = ground arith

five_rounds : deframer_loop (5 + 7) idle (replicate 8 9) 8 ≡ deframer_loop 5 idle (replicate 8 9) 8
five_rounds = deframer_loop_fuel 7 idle (replicate 8 9) 8 (omega arith) init_in_enum
