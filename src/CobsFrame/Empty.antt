-- ===== src/CobsFrame/Empty.antt =====
-- `Cobs_deframer` where two framing bytes stand together, and `Cobs_decode` of no bytes.
use zephyr_common.Common.{
  ℕ, zero, suc, ◌+◌, ◌≤◌, ◌<◌, ◌≡◌, ◌⊎◌, refl, sym, subst, ◌∙◌, inl, inr, false, Bool-cases,
  Option-cases, List, [], ◌∷◌, ◌++◌, none, some, Option, ◌==◌, ◌-◌, arith, length, get_elem?, Ret,
  ok, err, failed, Errno, max,
}
use zephyr_common.Common.Memory.{poke}
use zephyr_common.SwFifo.{flush}
use zephyr_common.SwFifo.Valid.{contents}
use zephyr_common.SwFifo.Refine.{flush_refines}
use zephyr_common.Cobs.{decode, decode_from, copy_data}
use zephyr_common.Cobs.Rounds.{next}
use zephyr_common.Cobs.Zeros.{NonZero}
use zephyr_common.CobsFrame.{Deframer, framing_byte, init, deframer}
use zephyr_common.CobsFrame.Call.{IsIdle, ready, takes_frame, loop_refused, loop_fault}

-- A fault or an error.
abbrev Fails : Option (Ret × List ℕ) → Type 0
Fails r = (r ≡ none) ⊎ ((e : Errno) × (out : List ℕ) × (r ≡ some (err e, out)))

past_zero : (code word : ℕ) → (code + max 1 word == 0) ≡ false
past_zero code word = ground arith

by_path : {r s : Option (Ret × List ℕ)} → r ≡ s → Fails s → Fails r
by_path {r} {s} e f = subst Fails (sym e) f

-- Behind a code word the decoder is past the end, which it tests for equality alone.
next-Fails :
    (rounds : ℕ) (enc : List ℕ) (code word num : ℕ) (out : List ℕ) (limit : ℕ)
    → ((code' : ℕ) (out' : List ℕ) (num' : ℕ)
        → Fails (decode_from rounds enc 0 code' out' num' limit))
    → Fails (next rounds enc 0 code word num out limit)
next-Fails rounds enc code word num out limit rest =
    let past : (code + max 1 word == 0) ≡ false = ground arith in
    elim (Bool-cases (max 1 word == 255)) [
      | inl whole ↦ by_path (rw (next, past, whole) refl) (rest (code + max 1 word) out num)
      | inr short ↦ elim (Bool-cases (num == limit)) [
        | inl full ↦ by_path (rw (next, past, short, full) refl) (inr (failed, out, refl))
        | inr below ↦ elim (Option-cases (poke out num 0)) [
          | inl fault ↦ by_path (rw (next, past, short, below, fault) refl) (inl refl)
          | inr (out', poked) ↦
              by_path (rw (next, past, short, below, poked) refl)
                (rest (code + max 1 word) out' (num + 1))
        ]
      ]
    ]

decode_from-Fails :
    (rounds : ℕ) (enc : List ℕ) (code : ℕ) (out : List ℕ) (num limit : ℕ)
    → Fails (decode_from rounds enc 0 code out num limit)
unfolding decode_from
decode_from-Fails zero enc code out num limit = inl refl
decode_from-Fails (suc rounds) enc code out num limit = elim (Option-cases (get_elem? enc code)) [
  | inl outside ↦ inl (rw (decode_from, outside) refl)
  | inr (word, got) ↦ elim (Option-cases (copy_data (word - 1) enc (code + 1) out num limit)) [
    | inl fault ↦ inl (rw (decode_from, got, fault) refl)
    | inr ((err e, o), copied) ↦ inr (e, o, rw (decode_from, got, copied) refl)
    | inr ((ok n, o), copied) ↦
        by_path (the_next rounds enc code word num n out o limit got copied) (
          next-Fails rounds enc code word n o limit
            (λ code' out' num'. decode_from-Fails rounds enc code' out' num' limit))
  ]
]
  where
    the_next :
        (rounds : ℕ) (enc : List ℕ) (code word num n : ℕ) (out o : List ℕ) (limit : ℕ)
        → get_elem? enc code ≡ some word
        → copy_data (word - 1) enc (code + 1) out num limit ≡ some (ok n, o)
        → decode_from (suc rounds) enc 0 code out num limit ≡ next rounds enc 0 code word n o limit
    the_next rounds enc code word num n out o limit got copied =
        unfold decode_from in rw (decode_from, got, copied) refl

-- `Cobs_decode` of no bytes never succeeds: it runs past the input, or returns an error.
pub decode_nothing : (enc out : List ℕ) (limit : ℕ) → Fails (decode enc 0 out limit)
unfolding decode
decode_nothing enc out limit = decode_from-Fails (length enc) enc 0 out 0 limit

-- A deframer between frames that gets two framing bytes in a row, with any bytes but framing bytes
-- before them and any bytes behind them, takes them for an empty frame and decodes what its work
-- buffer holds from before: it runs past an array, or returns 0 and has thrown away all the bytes
-- behind them, the frames among them too. The fifo has room for all the bytes.
pub deframer_empty :
    (junk q : List ℕ) (self : Deframer) (buf_out : List ℕ) (limit : ℕ)
    → IsIdle self
    → NonZero junk
    → 0 < self.work_size
    → let stream = junk ++ framing_byte ∷ framing_byte ∷ q in
      length stream ≤ self.fifo.depth
      → (deframer self stream buf_out limit ≡ none)
        ⊎ ((self' : Deframer) × (out' : List ℕ) × (deframer self stream buf_out limit
              ≡ some (ok 0, self', out'))
            × (self'.state ≡ init)
            × (contents self'.fifo ≡ []))
deframer_empty junk q self out limit idle plain room fits =
    let (f', rest, run, c, v, d) =
      takes_frame junk [] q self out limit idle plain (unfold NonZero in tt) room fits in
    let full = ready self f' [] rest in
    elim (decode_nothing full.work out limit) [
      | inl fault ↦ inl (run ∙ loop_fault 1 full out limit refl fault)
      | inr (e, out', refused) ↦ inr (
        record full { state = init; fifo = flush f' },
        out',
        run ∙ loop_refused 0 full out limit e out' refl refused,
        refl,
        (flush_refines v).0,
      )
    ]
