-- ===== src/CobsFrame/Rounds.antt =====
-- The rounds of the `while (1)` of `Cobs_deframer`: five are enough.
use zephyr_common.Common.{
  ℕ, zero, suc, ◌+◌, ◌≡◌, ◌⊎◌, refl, sym, subst, ◌≢◌, ap, ◌∙◌, inl, inr, Bool, true, false,
  Bool-cases, Option-cases, List, [], ◌∷◌, none, some, Option, ◌==◌, u16, arith, length, get_elem?,
  ok, err,
}
use zephyr_common.Common.Memory.{poke}
use zephyr_common.SwFifo.{get_count}
use zephyr_common.SwFifo.Valid.{IsValid, contents}
use zephyr_common.SwFifo.Room.{get_count-length}
use zephyr_common.Slip.{read_byte}
use zephyr_common.Slip.Deframer.Bytes.{read_byte_lem}
use zephyr_common.Cobs
use zephyr_common.CobsFrame.{
  Deframer, State, framing_byte, init, find_sof, find_eof, decode, error, bad, look_for_sof,
  look_for_eof, deframer_loop,
}
use zephyr_common.CobsFrame.Receive.{take_sof, skip_byte}
use zephyr_common.CobsFrame.Call.{loop_init}

-- The loop of `FIND_EOF` that has found the byte leaves the state DECODE.
abbrev Decodes : Option (Bool × Deframer) → Type 0
Decodes none = Unit
Decodes (some (true, self)) = self.state ≡ decode
Decodes (some (false, self)) = Unit

look_for_eof-Decodes : (left : ℕ) (self : Deframer) → Decodes (look_for_eof left self)
unfolding look_for_eof
look_for_eof-Decodes zero self = tt
look_for_eof-Decodes (suc left) self = elim (Bool-cases (self.count == self.work_size)) [
  | inl full ↦ rw (look_for_eof, full) tt
  | inr free ↦ elim (Option-cases (get_elem? self.work self.count)) [
    | inl fault ↦ rw (look_for_eof, free, fault) tt
    | inr (old, held) ↦ elim (Option-cases (read_byte self.fifo old)) [
      | inl fault ↦ rw (look_for_eof, free, held, fault) tt
      | inr ((b, f), got) ↦ elim (Option-cases (poke self.work self.count b)) [
        | inl fault ↦ rw (look_for_eof, free, held, got, fault) tt
        | inr (work, poked) ↦ elim (Bool-cases (b == framing_byte)) [
          | inl is_end ↦ rw (look_for_eof, free, held, got, poked, is_end) refl
          | inr other ↦
              rw (look_for_eof, free, held, got, poked, other)
                (look_for_eof-Decodes left
                  (record self { fifo = f; work = work; count = u16 (self.count + 1) }))
        ]
      ]
    ]
  ]
]

-- The loop of `FIND_SOF` finds the byte or takes all there are.
abbrev Started : Deframer → Type 0
Started self = (self.state ≡ find_eof) ⊎ ((self.state ≡ find_sof) × (contents self.fifo ≡ []))

look_for_sof-Started :
    (q : List ℕ) (self : Deframer) (byte : ℕ)
    → IsValid self.fifo
    → contents self.fifo ≡ q
    → self.state ≡ find_sof
    → (self' : Deframer) × (look_for_sof (length q) self byte ≡ some self') × Started self'
look_for_sof-Started [] self byte v e st = (self, unfold look_for_sof in refl, inr (st, e))
look_for_sof-Started (b ∷ q) self byte v e st =
    let (f', got, e', v', d) = read_byte_lem self.fifo byte b q v e in
    elim (Bool-cases (b == framing_byte)) [
      | inl is_start ↦ (
        record self { fifo = f'; state = find_eof },
        take_sof (length q) self byte b f' got is_start,
        inl refl,
      )
      | inr other ↦
          let (self', run, s) = look_for_sof-Started q (record self { fifo = f' }) b v' e' st in
          (self', skip_byte (length q) self byte b f' got other ∙ run, s)
    ]

-- The fuel that each state needs, and any more.
from_error :
    (k : ℕ) (self : Deframer) (out : List ℕ) (limit : ℕ)
    → self.state ≡ error
    → deframer_loop (suc k) self out limit ≡ deframer_loop 1 self out limit
unfolding deframer_loop
from_error k self out limit st = rw (deframer_loop, st)

from_decode :
    (k : ℕ) (self : Deframer) (out : List ℕ) (limit : ℕ)
    → self.state ≡ decode
    → deframer_loop (suc (suc k)) self out limit ≡ deframer_loop 2 self out limit
unfolding deframer_loop
from_decode k self out limit st = elim (Option-cases (Cobs.decode self.work self.count out limit)) [
  | inl fault ↦ rw (deframer_loop, st, fault)
  | inr ((ok n, o), run) ↦ rw (deframer_loop, st, run)
  | inr ((err e, o), run) ↦ rw (deframer_loop, st, run)
]

from_find_eof :
    (k : ℕ) (self : Deframer) (out : List ℕ) (limit : ℕ)
    → self.state ≡ find_eof
    → deframer_loop (suc (suc (suc k))) self out limit ≡ deframer_loop 3 self out limit
unfolding deframer_loop
from_find_eof k self out limit st = elim (Bool-cases (get_count self.fifo == 0)) [
  | inl empty ↦ rw (deframer_loop, st, empty)
  | inr held ↦ elim (Option-cases (look_for_eof (get_count self.fifo) self)) [
    | inl fault ↦ rw (deframer_loop, st, held, fault)
    | inr ((false, self'), run) ↦ rw (deframer_loop, st, held, run)
    | inr ((true, self'), run) ↦
        let decodes : self'.state ≡ decode =
          subst Decodes run (look_for_eof-Decodes (get_count self.fifo) self) in
        rw (deframer_loop, st, held, run) (from_decode k self' out limit decodes)
  ]
]

from_idle :
    (k : ℕ) (self : Deframer) (out : List ℕ) (limit : ℕ)
    → self.state ≡ find_sof
    → (get_count self.fifo == 0) ≡ true
    → deframer_loop (suc k) self out limit ≡ deframer_loop 1 self out limit
unfolding deframer_loop
from_idle k self out limit st empty = rw (deframer_loop, st, empty)

from_find_sof :
    (k : ℕ) (self : Deframer) (out : List ℕ) (limit : ℕ)
    → IsValid self.fifo
    → self.state ≡ find_sof
    → deframer_loop (suc (suc (suc (suc k)))) self out limit ≡ deframer_loop 4 self out limit
unfolding deframer_loop
from_find_sof k self out limit v st = elim (Bool-cases (get_count self.fifo == 0)) [
  | inl empty ↦
      from_idle (suc (suc (suc k))) self out limit st empty
      ∙ sym (from_idle 3 self out limit st empty)
  | inr held ↦
      let n = get_count-length self.fifo (contents self.fifo) refl in
      let (self', run, started) = look_for_sof-Started (contents self.fifo) self 0 v refl st in
      let run' : look_for_sof (get_count self.fifo) self 0 ≡ some self' =
        ap (λ n. look_for_sof n self 0) n ∙ run in
      elim started [
        | inl found ↦ rw (deframer_loop, st, held, run') (from_find_eof k self' out limit found)
        | inr (st', e) ↦
            let empty : (get_count self'.fifo == 0) ≡ true =
              ap (λ n. n == 0) (get_count-length self'.fifo [] e) in
            rw (deframer_loop, st, held, run')
              (from_idle (suc (suc k)) self' out limit st' empty
                ∙ sym (from_idle 2 self' out limit st' empty))
      ]
]

-- With a valid fifo and a state of the `enum` the `while (1)` of `Cobs_deframer` ends within five
-- rounds, or runs outside an array in them: with more rounds it gives the same.
pub deframer_loop_fuel :
    (k : ℕ) (self : Deframer) (out : List ℕ) (limit : ℕ)
    → IsValid self.fifo
    → self.state ≢ bad
    → deframer_loop (5 + k) self out limit ≡ deframer_loop 5 self out limit
deframer_loop_fuel k self out limit v known =
    let n : 5 + k ≡ suc (suc (suc (suc (suc k)))) = omega arith in
    ap (λ fuel. deframer_loop fuel self out limit) n ∙ by_state self.state refl
  where
    by_state :
        (st : State)
        → self.state ≡ st
        → deframer_loop (suc (suc (suc (suc (suc k))))) self out limit
          ≡ deframer_loop 5 self out limit
    by_state init e =
        let self' : Deframer = record self { count = 0; state = find_sof } in
        loop_init (suc (suc (suc (suc k)))) self out limit e
        ∙ (from_find_sof k self' out limit v refl ∙ sym (loop_init 4 self out limit e))
    by_state find_sof e =
        from_find_sof (suc k) self out limit v e ∙ sym (from_find_sof 1 self out limit v e)
    by_state find_eof e =
        from_find_eof (suc (suc k)) self out limit e ∙ sym (from_find_eof 2 self out limit e)
    by_state decode e =
        from_decode (suc (suc (suc k))) self out limit e ∙ sym (from_decode 3 self out limit e)
    by_state error e =
        from_error (suc (suc (suc (suc k)))) self out limit e ∙ sym (from_error 4 self out limit e)
    by_state bad e = absurd (known e)
