-- ===== src/Slip/Deframer/Call.antt =====
-- The `while` loop of `slip_deframer`, and the whole call.
use zephyr_common.Common.{
  ℕ, suc, ◌+◌, ◌≤◌, ◌<◌, ◌^◌, ◌≡◌, ◌⊎◌, refl, ap, ◌∙◌, inl, inr, Bool, true, false, Bool-cases,
  Option, List, [], ◌∷◌, ◌++◌, some, arith, length, ◌==◌, Ret, ok,
}
use zephyr_common.Common.Memory.{◌>>=◌}
use zephyr_common.SwFifo.{SwFifo, get_count}
use zephyr_common.SwFifo.Valid.{IsValid, contents}
use zephyr_common.SwFifo.Room.{get_count-length, write_fits_lem}
use zephyr_common.Slip.{
  Context, State, init, find_sof, find_eof, find_start, read_byte, deframer_loop, deframer,
  end_byte,
}
use zephyr_common.Slip.Decoder.{Decoder, hunting, inside, more, feed}
use zephyr_common.Slip.Deframer.{Holds}
use zephyr_common.Slip.Deframer.Bytes.{read_byte_lem}
use zephyr_common.Slip.Deframer.Inside.{Takes, find_end_lem}

feed-hunting_end :
    (max b : ℕ) (q : List ℕ)
    → (b == end_byte) ≡ true
    → feed max hunting (b ∷ q) ≡ feed max (inside [] false) q
unfolding feed
feed-hunting_end max b q h = rw (feed, h)

feed-hunting_other :
    (max b : ℕ) (q : List ℕ)
    → (b == end_byte) ≡ false
    → feed max hunting (b ∷ q) ≡ feed max hunting q
unfolding feed
feed-hunting_other max b q h = rw (feed, h)

-- Fresh fields, as `INIT` leaves them.
abbrev Fresh : Context → Type 0
Fresh self = (self.idx ≡ 0) × (self.get_escaped ≡ false)

-- `FIND_SOF` takes bytes up to the start of a frame, or all.
abbrev Started : ℕ → List ℕ → Context → Option Context → Type 0
Started max q self result =
    (self' : Context) × (result ≡ some self')
    × Fresh self'
    × IsValid self'.fifo
    × (self'.fifo.depth ≡ self.fifo.depth)
    × (((self'.state ≡ find_sof)
          × (contents self'.fifo ≡ [])
          × (feed max hunting q ≡ (more hunting, [])))
        ⊎ ((q' : List ℕ) × (self'.state ≡ find_eof)
            × (contents self'.fifo ≡ q')
            × (feed max hunting q ≡ feed max (inside [] false) q')))

find_start_found :
    (n : ℕ) (self : Context) (byte b : ℕ) (f' : SwFifo)
    → read_byte self.fifo byte ≡ some (b, f')
    → (b == end_byte) ≡ true
    → find_start (suc n) self byte ≡ some (record self { fifo = f'; state = find_eof })
unfolding find_start
find_start_found n self byte b f' got h = rw (find_start, got, ◌>>=◌, h)

find_start_lost :
    (n : ℕ) (self : Context) (byte b : ℕ) (f' : SwFifo)
    → read_byte self.fifo byte ≡ some (b, f')
    → (b == end_byte) ≡ false
    → find_start (suc n) self byte ≡ find_start n (record self { fifo = f' }) b
unfolding find_start
find_start_lost n self byte b f' got h = rw (find_start, got, ◌>>=◌, h)

find_start_lem :
    (max : ℕ) (q : List ℕ) (self : Context) (byte : ℕ)
    → IsValid self.fifo
    → contents self.fifo ≡ q
    → self.state ≡ find_sof
    → Fresh self
    → Started max q self (find_start (length q) self byte)
find_start_lem max [] self byte v e st fresh =
    (self, unfold find_start in refl, fresh, v, refl, inl (st, e, unfold feed in refl))
find_start_lem max (b ∷ q) self byte v e st fresh =
    let (f', got, e', v', d) = read_byte_lem self.fifo byte b q v e in
    elim (Bool-cases (b == end_byte)) [
      | inl is_end ↦ (
        record self { fifo = f'; state = find_eof },
        find_start_found (length q) self byte b f' got is_end,
        fresh,
        v',
        d,
        inr (q, refl, e', feed-hunting_end max b q is_end),
      )
      | inr other ↦
          let (self', run, fresh', v2, d2, cases) =
            find_start_lem max q (record self { fifo = f' }) b v' e' st fresh in
          (
            self',
            find_start_lost (length q) self byte b f' got other ∙ run,
            fresh',
            v2,
            d2 ∙ d,
            rw (feed-hunting_other max b q other) cases,
          )
    ]

same_state :
    (self : Context) (out : List ℕ) {st : State}
    → self.state ≡ st
    → ◌≡◌ {A = Option (Ret × Context × List ℕ)}
        (some (ok 0, self, out))
        (some (ok 0, record self { state = st }, out))
same_state self out e = ap (λ s. some (ok 0, record self { state = s }, out)) e

-- The loop in each of its states.
loop_find_eof :
    (max fuel : ℕ) (small : max < 2 ^ 16) (q dec : List ℕ) (esc : Bool) (self : Context)
    (out : List ℕ)
    → IsValid self.fifo
    → contents self.fifo ≡ q
    → max ≤ length out
    → Holds max (inside dec esc) self out
    → Takes max (feed max (inside dec esc) q) self out (deframer_loop (suc fuel) self out max)
unfolding deframer_loop
loop_find_eof max fuel small [] dec esc self out v e room h =
    let empty : (get_count self.fifo == 0) ≡ true =
      ap (λ n. n == 0) (get_count-length self.fifo [] e) in
    (
      ok 0,
      self,
      out,
      rw (deframer_loop, h.0, empty) (same_state self out h.0),
      unfold feed in (refl, h, e),
      (v, refl, refl),
    )
loop_find_eof max fuel small (b ∷ q) dec esc self out v e room h =
    let n = get_count-length self.fifo (b ∷ q) e in
    let held : (get_count self.fifo == 0) ≡ false = ap (λ n. n == 0) n ∙ ground arith in
    let (r, self', out', run, ends, kept) =
      find_end_lem max small (b ∷ q) dec esc self 0 out v e room h in
    (r, self', out', rw (deframer_loop, h.0, held, n) run, ends, kept)

loop_idle :
    (fuel : ℕ) (self : Context) (out : List ℕ) (max : ℕ)
    → self.state ≡ find_sof
    → contents self.fifo ≡ []
    → deframer_loop (suc fuel) self out max ≡ some (ok 0, self, out)
unfolding deframer_loop
loop_idle fuel self out max st e =
    let empty : (get_count self.fifo == 0) ≡ true =
      ap (λ n. n == 0) (get_count-length self.fifo [] e) in
    rw (deframer_loop, st, empty) (same_state self out st)

loop_start :
    (fuel : ℕ) (self self' : Context) (out : List ℕ) (max b : ℕ) (q : List ℕ)
    → self.state ≡ find_sof
    → contents self.fifo ≡ b ∷ q
    → find_start (length (b ∷ q)) self 0 ≡ some self'
    → deframer_loop (suc fuel) self out max ≡ deframer_loop fuel self' out max
unfolding deframer_loop
loop_start fuel self self' out max b q st e run =
    let n = get_count-length self.fifo (b ∷ q) e in
    let held : (get_count self.fifo == 0) ≡ false = ap (λ n. n == 0) n ∙ ground arith in
    rw (deframer_loop, st, held, n, run)

loop_find_sof :
    (max fuel : ℕ) (small : max < 2 ^ 16) (q : List ℕ) (self : Context) (out : List ℕ)
    → IsValid self.fifo
    → contents self.fifo ≡ q
    → max ≤ length out
    → self.state ≡ find_sof
    → Fresh self
    → Takes max (feed max hunting q) self out (deframer_loop (suc (suc fuel)) self out max)
loop_find_sof max fuel small [] self out v e room st fresh = (
  ok 0,
  self,
  out,
  loop_idle (suc fuel) self out max st e,
  unfold feed in (refl, inr (st, fresh.0, fresh.1), e),
  (v, refl, refl),
)
loop_find_sof max fuel small (b ∷ q) self out v e room st fresh =
    let (self', run, fresh', v', d, cases) = find_start_lem max (b ∷ q) self 0 v e st fresh in
    let first = loop_start (suc fuel) self self' out max b q st e run in
    elim cases [
      | inl (st', e', ev) ↦ rw ev (
        ok 0,
        self',
        out,
        first ∙ loop_idle fuel self' out max st' e',
        (refl, inr (st', fresh'.0, fresh'.1), e'),
        (v', d, refl),
      )
      | inr (q', st', e', ev) ↦
          let (r, self2, out2, run2, ends, (v2, d2, l2)) =
            loop_find_eof max fuel small q' [] false self' out v' e' room
              (st', fresh'.0, fresh'.1, omega arith, (out, refl)) in
          rw ev (r, self2, out2, first ∙ run2, ends, (v2, d2 ∙ d, l2))
    ]

loop_init :
    (max : ℕ) (self : Context) (out : List ℕ) (fuel : ℕ)
    → self.state ≡ init
    → deframer_loop (suc fuel) self out max
      ≡ deframer_loop fuel (record self { idx = 0; get_escaped = false; state = find_sof }) out max
unfolding deframer_loop
loop_init max self out fuel st = rw (deframer_loop, st)

loop_lem :
    (max : ℕ) (small : max < 2 ^ 16) (q : List ℕ) (d : Decoder) (self : Context) (out : List ℕ)
    → IsValid self.fifo
    → contents self.fifo ≡ q
    → max ≤ length out
    → Holds max d self out
    → Takes max (feed max d q) self out (deframer_loop 4 self out max)
loop_lem max small q hunting self out v e room (inl st) =
    let (r, self', out', run, ends, kept) =
      loop_find_sof max 1 small q (record self { idx = 0; get_escaped = false; state = find_sof })
        out v e room refl (refl, refl) in
    (r, self', out', loop_init max self out 3 st ∙ run, ends, kept)
loop_lem max small q hunting self out v e room (inr (st, i, esc)) =
    loop_find_sof max 2 small q self out v e room st (i, esc)
loop_lem max small q (inside dec esc) self out v e room h =
    loop_find_eof max 3 small q dec esc self out v e room h

-- A call of `slip_deframer` on a valid context returns, on every input that fits its fifo: it
-- reports what the receiver reports on the bytes left over from earlier calls and the new ones. It
-- returns 0 and holds the receiver's state in the context and the buffer, or the length of a
-- payload that stands at the start of the buffer, with the bytes behind the frame left in the fifo;
-- or -EOVERFLOW or -EINVAL, with the fifo empty. The fifo stays valid and keeps its depth, and the
-- buffer keeps its length. (`buf_out_max` is at most the buffer's length and below 2 ^ 16, the range
-- of the context's index.)
pub deframer-Takes :
    (d : Decoder) (self : Context) (buf_in buf_out : List ℕ) (max : ℕ)
    → max < 2 ^ 16
    → max ≤ length buf_out
    → IsValid self.fifo
    → Holds max d self buf_out
    → length (contents self.fifo) + length buf_in ≤ self.fifo.depth
    → Takes max
        (feed max d (contents self.fifo ++ buf_in))
        self
        buf_out
        (deframer self buf_in buf_out max)
unfolding deframer
deframer-Takes d self buf_in out max small room v h fits =
    let (f', w', c', v', dep) = write_fits_lem self.fifo buf_in v fits in
    let (r, self', out', run, ends, (v2, d2, l2)) =
      loop_lem max small (contents self.fifo ++ buf_in) d (record self { fifo = f' }) out v' c' room
        (Holds_fifo max d self out f' h) in
    (r, self', out', rw (deframer, w', ◌>>=◌) run, ends, (v2, d2 ∙ dep, l2))
  where
    Holds_fifo :
        (max : ℕ) (d : Decoder) (self : Context) (out : List ℕ) (f : SwFifo)
        → Holds max d self out
        → Holds max d (record self { fifo = f }) out
    Holds_fifo max hunting self out f h = h
    Holds_fifo max (inside dec esc) self out f h = h
