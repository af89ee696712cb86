-- ===== src/CobsFrame/Call.antt =====
-- `Cobs_deframer` at streams that start a frame.
use zephyr_common.Common.{
  ℕ, suc, ◌≤◌, ◌<◌, ◌^◌, ◌≡◌, refl, sym, ap, ◌∙◌, true, false, List, [], ◌∷◌, ◌++◌, none, some,
  Errno, append_assoc, ◌==◌, arith, length, length-append, drop, ok, err,
}
use zephyr_common.SwFifo.{SwFifo, write, get_count, flush}
use zephyr_common.SwFifo.Valid.{IsValid, contents}
use zephyr_common.SwFifo.Room.{get_count-length, write_fits_lem}
use zephyr_common.Cobs.Zeros.{NonZero}
use zephyr_common.Cobs.Roundtrip.{decode-flatten}
use zephyr_common.Cobs
use zephyr_common.CobsFrame.{
  Deframer, framing_byte, init, find_sof, find_eof, decode, look_for_sof, look_for_eof,
  deframer_loop, deframer,
}
use zephyr_common.CobsFrame.Frame.{encoding, frame, encoding-NonZero}
use zephyr_common.CobsFrame.Receive.{look_for_sof_lem, look_for_eof_lem}

-- A deframer between two frames, that has read all there was.
pub record IsIdle (self : Deframer) : Type 0 where
  pub starts : self.state ≡ init
  pub valid : IsValid self.fifo
  pub empty : contents self.fifo ≡ []
  pub held : self.work_size ≡ length self.work
  pub small : self.work_size < 2 ^ 16

-- The loop in each of its states.
module _ (fuel : ℕ) (self : Deframer) (out : List ℕ) (limit : ℕ) where
  pub loop_init :
      self.state ≡ init
      → deframer_loop (suc fuel) self out limit
        ≡ deframer_loop fuel (record self { count = 0; state = find_sof }) out limit
  unfolding deframer_loop
  loop_init st = rw (deframer_loop, st)

  loop_find_sof :
      (self' : Deframer) (q : List ℕ)
      → self.state ≡ find_sof
      → contents self.fifo ≡ q
      → 1 ≤ length q
      → look_for_sof (length q) self 0 ≡ some self'
      → deframer_loop (suc fuel) self out limit ≡ deframer_loop fuel self' out limit
  unfolding deframer_loop
  loop_find_sof self' q st e some_bytes run =
      let n = get_count-length self.fifo q e in
      let here : (get_count self.fifo == 0) ≡ false = ground arith in
      rw (deframer_loop, st, here, n, run)

  loop_find_eof :
      (self' : Deframer) (q : List ℕ)
      → self.state ≡ find_eof
      → contents self.fifo ≡ q
      → 1 ≤ length q
      → look_for_eof (length q) self ≡ some (true, self')
      → deframer_loop (suc fuel) self out limit ≡ deframer_loop fuel self' out limit
  unfolding deframer_loop
  loop_find_eof self' q st e some_bytes run =
      let n = get_count-length self.fifo q e in
      let here : (get_count self.fifo == 0) ≡ false = ground arith in
      rw (deframer_loop, st, here, n, run)

  loop_decoded :
      (num : ℕ) (out' : List ℕ)
      → self.state ≡ decode
      → Cobs.decode self.work self.count out limit ≡ some (ok num, out')
      → deframer_loop (suc fuel) self out limit ≡ some (ok num, record self { state = init }, out')
  unfolding deframer_loop
  loop_decoded num out' st run = rw (deframer_loop, st, run)

  pub loop_refused :
      (e : Errno) (out' : List ℕ)
      → self.state ≡ decode
      → Cobs.decode self.work self.count out limit ≡ some (err e, out')
      → deframer_loop (suc (suc fuel)) self out limit
        ≡ some (ok 0, record self { state = init; fifo = flush self.fifo }, out')
  unfolding deframer_loop
  loop_refused e out' st run = rw (deframer_loop, st, run)

  pub loop_fault :
      self.state ≡ decode
      → Cobs.decode self.work self.count out limit ≡ none
      → deframer_loop (suc fuel) self out limit ≡ none
  unfolding deframer_loop
  loop_fault st run = rw (deframer_loop, st, run)

-- The deframer that has a whole frame in its work buffer.
abbrev pub ready : Deframer → SwFifo → List ℕ → List ℕ → Deframer
ready self f enc rest = record self {
  fifo = f;
  work = enc ++ framing_byte ∷ rest;
  count = length enc;
  state = decode;
}

deframer_stored :
    (self : Deframer) (buf_in out : List ℕ) (limit : ℕ) (f' : SwFifo)
    → write self.fifo buf_in (length buf_in) ≡ some (ok 0, f')
    → deframer self buf_in out limit ≡ deframer_loop 5 (record self { fifo = f' }) out limit
unfolding deframer
deframer_stored self buf_in out limit f' w = rw (deframer, w)

-- Bytes that are no framing byte, and a frame with no framing byte inside, take the deframer to
-- the decoder.
pub takes_frame :
    (junk enc q : List ℕ) (self : Deframer) (out : List ℕ) (limit : ℕ)
    → IsIdle self
    → NonZero junk
    → NonZero enc
    → length enc < self.work_size
    → let stream = junk ++ framing_byte ∷ (enc ++ framing_byte ∷ q) in
      length stream ≤ self.fifo.depth
      → (f' : SwFifo) × (rest : List ℕ) × (deframer self stream out limit
          ≡ deframer_loop 2 (ready self f' enc rest) out limit)
        × (contents f' ≡ q)
        × IsValid f'
        × (f'.depth ≡ self.fifo.depth)
takes_frame junk enc q self out limit idle plain plain2 room fits =
    let later = enc ++ framing_byte ∷ q in
    let stream = junk ++ framing_byte ∷ later in
    let (f1, w, c1, v1, d1) =
      write_fits_lem self.fifo stream idle.valid (omega (arith, ap length idle.empty)) in
    let e1 : contents f1 ≡ stream = c1 ∙ ap (λ t. t ++ stream) idle.empty in
    let s1 : Deframer = record self { fifo = f1; count = 0; state = find_sof } in
    let (f2, run2, e2, v2, d2) = look_for_sof_lem junk later s1 0 plain v1 e1 in
    let s2 : Deframer = record s1 { fifo = f2; state = find_eof } in
    let (f3, rest, run3, e3, v3, d3) =
      look_for_eof_lem enc q [] self.work s2 plain2 v2 e2 refl refl (omega (arith, idle.held))
        (omega (arith, idle.held)) idle.small in
    (
      f3,
      rest,
      deframer_stored self stream out limit f1 w
          ∙ (loop_init 4 (record self { fifo = f1 }) out limit idle.starts
              ∙ (loop_find_sof 3 s1 out limit s2 stream refl e1
                    (omega (arith, length-append junk (framing_byte ∷ later))) run2
                  ∙ loop_find_eof 2 s2 out limit (ready self f3 enc rest) later refl e2
                      (omega (arith, length-append enc (framing_byte ∷ q))) run3)),
      e3,
      v3,
      d3 ∙ (d2 ∙ d1),
    )

-- A deframer between frames that gets a frame of at most 254 bytes, with any bytes but framing
-- bytes before it and any bytes behind it, all of which its fifo has room for, puts the payload at
-- the start of the buffer and returns its length: if the encoding is shorter than its work buffer
-- and the payload fits the buffer. It is ready for the next frame, and the bytes behind the frame
-- are left in its fifo.
pub deframer-frame :
    (payload junk q : List ℕ) (self : Deframer) (buf_out : List ℕ) (limit : ℕ)
    → IsIdle self
    → NonZero junk
    → length payload ≤ 254
    → length (encoding payload) < self.work_size
    → length (junk ++ (frame payload ++ q)) ≤ self.fifo.depth
    → length payload ≤ limit
    → limit ≤ length buf_out
    → (self' : Deframer) × (deframer self (junk ++ (frame payload ++ q)) buf_out limit
        ≡ some (ok (length payload), self', payload ++ drop (length payload) buf_out))
      × (self'.state ≡ init)
      × (contents self'.fifo ≡ q)
      × IsValid self'.fifo
deframer-frame payload junk q self out limit idle plain short room fits max_fits holds =
    let enc = encoding payload in
    let same : junk ++ framing_byte ∷ (enc ++ framing_byte ∷ q) ≡ junk ++ (frame payload ++ q) =
      ap (λ t. junk ++ framing_byte ∷ t) (sym (append_assoc enc (framing_byte ∷ []) q)) in
    let (f', rest, run, c, v, d) =
      takes_frame junk enc q self out limit idle plain (encoding-NonZero payload short) room
        (omega (arith, ap length same)) in
    (
      record (ready self f' enc rest) { state = init },
      ap (λ t. deframer self t out limit) (sym same)
          ∙ (run
              ∙ loop_decoded 1 (ready self f' enc rest) out limit (length payload) _ refl
                  (decode-flatten payload (framing_byte ∷ rest) out limit max_fits holds)),
      refl,
      c,
      v,
    )
