-- ===== src/Slip/Deframer.antt =====
-- `slip_deframer` against the receiver of bytes.
pub mod Bytes
pub mod Inside
pub mod Call
use zephyr_common.Common.{
  ℕ, ◌≤◌, ◌≡◌, ◌⊎◌, Bool, false, List, [], ◌++◌, length, Ret, ok, err, eoverflow, einval,
}
use zephyr_common.Slip.{Context, State, init, find_sof, find_eof}
use zephyr_common.Slip.Decoder.{Decoder, hunting, inside, Event, more, payload, overflow, invalid}
use zephyr_common.SwFifo.Valid.{IsValid, contents}

module _ (max : ℕ) where
  -- The deframer and its output buffer are at a point of the receiver.
  abbrev pub Holds : Decoder → Context → List ℕ → Type 0
  Holds hunting self out =
      (self.state ≡ init) ⊎ ((self.state ≡ find_sof) × (self.idx ≡ 0) × (self.get_escaped ≡ false))
  Holds (inside dec esc) self out =
      (self.state ≡ find_eof)
      × (self.idx ≡ length dec)
      × (self.get_escaped ≡ esc)
      × (length dec ≤ max)
      × ((rest : List ℕ) × (out ≡ dec ++ rest))

  -- What a call returns and leaves, when the receiver reports an event and leaves `q`. An error
  -- throws away what is left.
  abbrev pub Ends : Event → List ℕ → Ret → Context → List ℕ → Type 0
  Ends (more d) q r self out = (r ≡ ok 0) × Holds d self out × (contents self.fifo ≡ q)
  Ends (payload p) q r self out =
      (r ≡ ok (length p))
      × (self.state ≡ init)
      × (contents self.fifo ≡ q)
      × ((rest : List ℕ) × (out ≡ p ++ rest))
  Ends overflow q r self out = (r ≡ err eoverflow) × (self.state ≡ init) × (contents self.fifo ≡ [])
  Ends invalid q r self out = (r ≡ err einval) × (self.state ≡ init) × (contents self.fifo ≡ [])

  -- The calls leave a valid fifo of the same depth, and a buffer of the same length.
  abbrev pub Kept : Context → List ℕ → Context → List ℕ → Type 0
  Kept self out self' out' =
      IsValid self'.fifo × (self'.fifo.depth ≡ self.fifo.depth) × (length out' ≡ length out)
