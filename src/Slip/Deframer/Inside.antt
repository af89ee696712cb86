-- ===== src/Slip/Deframer/Inside.antt =====
-- The loop of `FIND_EOF` against the receiver inside a frame.
use zephyr_common.Common.{
  ℕ, suc, ◌+◌, ◌≤◌, ◌<◌, ◌^◌, ◌≡◌, refl, ap, ◌∙◌, inl, inr, Bool, true, false, Bool-cases, and_true,
  and_false, Option, List, [], ◌∷◌, ◌++◌, none, some, arith, length, length-append, ◌==◌, u16, Ret,
  ok, err, eoverflow, einval,
}
use zephyr_common.Common.Memory.{◌>>=◌}
use zephyr_common.SwFifo.{SwFifo, flush}
use zephyr_common.SwFifo.Valid.{IsValid, contents}
use zephyr_common.SwFifo.Refine.{flush_refines}
use zephyr_common.Slip.{
  Context, init, accept, deliver, find_end, read_byte, end_byte, esc_byte, esc_end, esc_esc,
}
use zephyr_common.Slip.Decoder.{
  hunting, inside, Event, more, payload, overflow, invalid, inside_byte, feed, after_event,
  feed_full, feed_free,
}
use zephyr_common.Slip.Deframer.{Holds, Ends, Kept}
use zephyr_common.Slip.Deframer.Bytes.{read_byte_lem, poke-append}

-- What one byte leads to: the loop goes on, or the function returns.
abbrev Accepts : ℕ → Event → Context → List ℕ → Option (Option Ret × Context × List ℕ) → Type 0
Accepts max (more hunting) self out result = ⊥
Accepts max (more (inside dec esc)) self out result =
    (self' : Context) × (out' : List ℕ) × (result ≡ some (none, self', out'))
    × Holds max (inside dec esc) self' out'
    × (self'.fifo ≡ self.fifo)
    × (length out' ≡ length out)
Accepts max (payload p) self out result =
    (result ≡ some (some (ok (length p)), record self { state = init }, out))
    × ((rest : List ℕ) × (out ≡ p ++ rest))
Accepts max overflow self out result = ⊥
Accepts max invalid self out result =
    result ≡ some (some (err einval), record self { state = init; fifo = flush self.fifo }, out)

module _ (max : ℕ) (small : max < 2 ^ 16) (dec : List ℕ) (out : List ℕ) (room : max ≤ length out)
    (free : length dec < max) where
  delivers :
      (self : Context) (esc : Bool) (c : ℕ)
      → Holds max (inside dec esc) self out
      → Accepts max (more (inside (dec ++ c ∷ []) esc)) self out (deliver self out c)
  delivers self esc c (st, i, e, le, (rest, eo)) =
      let (rest', p, l) = poke-append dec rest out self.idx c eo i (omega arith) in
      let next : u16 (self.idx + 1) ≡ self.idx + 1 = omega arith in
      let longer : self.idx + 1 ≡ length (dec ++ c ∷ []) =
        omega (arith, length-append dec (c ∷ [])) in
      (
        record self { idx = u16 (self.idx + 1) },
        (dec ++ c ∷ []) ++ rest',
        rw p,
        (st, next ∙ longer, e, omega arith, (rest', refl)),
        refl,
        l,
      )

  -- The `if` ladder of the loop takes a byte as the receiver does.
  accept_lem :
      (self : Context) (esc : Bool) (b : ℕ)
      → Holds max (inside dec esc) self out
      → Accepts max (inside_byte dec esc b) self out (accept self b out)
  unfolding accept inside_byte
  accept_lem self esc b (st, i, e, le, (rest, eo)) = elim (Bool-cases (b == end_byte)) [
    | inl is_end ↦ rw (is_end, i) (refl, (rest, eo))
    | inr not_end ↦ elim (Bool-cases (b == esc_byte)) [
      | inl is_esc ↦
          rw (not_end, is_esc)
            (
              record self { get_escaped = true },
              out,
              refl,
              (st, i, refl, le, (rest, eo)),
              refl,
              refl,
            )
      | inr not_esc ↦ elim (Bool-cases esc) [
        | inl escaped ↦ elim (Bool-cases (b == esc_esc)) [
          | inl e1 ↦
              rw (not_end, not_esc, e, escaped, and_true, e1)
                (delivers (record self { get_escaped = false }) false esc_byte
                  (st, i, refl, le, (rest, eo)))
          | inr n1 ↦ elim (Bool-cases (b == esc_end)) [
            | inl e2 ↦
                rw (not_end, not_esc, e, escaped, and_true, n1, e2)
                  (delivers (record self { get_escaped = false }) false end_byte
                    (st, i, refl, le, (rest, eo)))
            | inr n2 ↦ rw (not_end, not_esc, e, escaped, and_true, n1, n2)
          ]
        ]
        | inr plain ↦
            rw (not_end, not_esc, e, plain, and_false (b == esc_esc), and_false (b == esc_end))
              (delivers (record self { get_escaped = false }) false b (st, i, refl, le, (rest, eo)))
      ]
    ]
  ]

-- The result of a call that takes what the receiver takes.
abbrev pub Takes : ℕ → Event × List ℕ → Context → List ℕ → Option (Ret × Context × List ℕ) → Type 0
Takes max ev self out call =
    (r : Ret) × (self' : Context) × (out' : List ℕ) × (call ≡ some (r, self', out'))
    × Ends max ev.0 ev.1 r self' out'
    × Kept max self out self' out'

-- One round of the loop by what the byte leads to.
find_end-suc :
    (left : ℕ) (self : Context) (byte : ℕ) (out : List ℕ) (max b : ℕ) (f' : SwFifo)
    → (self.idx == max) ≡ false
    → read_byte self.fifo byte ≡ some (b, f')
    → find_end (suc left) self byte out max ≡ (
        accept (record self { fifo = f' }) b out >>= λ s. elim (s.0) [
          | some ret ↦ some (ret, s.1, s.2)
          | none ↦ find_end left s.1 b s.2 max
        ])
unfolding find_end
find_end-suc left self byte out max b f' going got = rw (find_end, going, got)

find_end_full :
    (left : ℕ) (self : Context) (byte : ℕ) (out : List ℕ) (max : ℕ)
    → (self.idx == max) ≡ true
    → find_end (suc left) self byte out max
      ≡ some (err eoverflow, record self { state = init; fifo = flush self.fifo }, out)
unfolding find_end
find_end_full left self byte out max full = rw (full, find_end)

-- The rest of a round, behind `accept`.
abbrev go_on : ℕ → ℕ → ℕ → Option (Option Ret × Context × List ℕ) → Option (Ret × Context × List ℕ)
go_on left b max result = result >>= λ s. elim (s.0) [
  | some ret ↦ some (ret, s.1, s.2)
  | none ↦ find_end left s.1 b s.2 max
]

-- The loop from the next byte on, wherever the receiver is then.
abbrev Rest : ℕ → List ℕ → ℕ → Type 0
Rest max q b =
    (dec : List ℕ) (esc : Bool) (self : Context) (out : List ℕ)
    → IsValid self.fifo
    → contents self.fifo ≡ q
    → max ≤ length out
    → Holds max (inside dec esc) self out
    → Takes max (feed max (inside dec esc) q) self out (find_end (length q) self b out max)

after_lem :
    (max : ℕ) (q : List ℕ) (b : ℕ) (self : Context) (out : List ℕ) (ev : Event)
    (result : Option (Option Ret × Context × List ℕ))
    → IsValid self.fifo
    → contents self.fifo ≡ q
    → max ≤ length out
    → Rest max q b
    → Accepts max ev self out result
    → Takes max (after_event max q ev) self out (go_on (length q) b max result)
after_lem max q b self out (more hunting) result v e room rest a = absurd a
after_lem max q b self out (more (inside dec esc)) result v e room rest
      (self', out', r, h, same, l) =
    let v' : IsValid self'.fifo = rw same v in
    let e' : contents self'.fifo ≡ q = rw same e in
    let (ret, self2, out2, run, ends, (v2, d2, l2)) =
      rest dec esc self' out' v' e' (omega arith) h in
    (ret, self2, out2, rw r run, ends, (v2, d2 ∙ ap (λ f. f.depth) same, l2 ∙ l))
after_lem max q b self out (payload p) result v e room rest (r, (tail, eo)) = (
  ok (length p),
  record self { state = init },
  out,
  rw r,
  (refl, refl, e, (tail, eo)),
  (v, refl, refl),
)
after_lem max q b self out overflow result v e room rest a = absurd a
after_lem max q b self out invalid result v e room rest r =
    let (c, v', d) = flush_refines v in
    (
      err einval,
      record self { state = init; fifo = flush self.fifo },
      out,
      rw r,
      (refl, refl, c),
      (v', d, refl),
    )

-- `FIND_EOF` takes all the bytes of the fifo as the receiver does that is inside a frame.
pub find_end_lem :
    (max : ℕ)
    → max < 2 ^ 16
    → (q dec : List ℕ) (esc : Bool) (self : Context) (byte : ℕ) (out : List ℕ) → IsValid self.fifo
    → contents self.fifo ≡ q
    → max ≤ length out
    → Holds max (inside dec esc) self out
    → Takes max (feed max (inside dec esc) q) self out (find_end (length q) self byte out max)
find_end_lem max small [] dec esc self byte out v e room h =
    (ok 0, self, out, unfold find_end in refl, unfold feed in (refl, h, e), (v, refl, refl))
find_end_lem max small (b ∷ q) dec esc self byte out v e room (st, i, es, le, (rest, eo)) =
    elim (Bool-cases (length dec == max)) [
      | inl full ↦
          let (c, v', d) = flush_refines v in
          rw (feed_full max dec esc b q full) (
            err eoverflow,
            record self { state = init; fifo = flush self.fifo },
            out,
            find_end_full (length q) self byte out max (ap (λ n. n == max) i ∙ full),
            (refl, refl, c),
            (v', d, refl),
          )
      | inr free ↦
          let (f', got, e', v', d) = read_byte_lem self.fifo byte b q v e in
          let below : length dec < max = ground arith in
          let going : (self.idx == max) ≡ false = ap (λ n. n == max) i ∙ free in
          let self1 : Context = record self { fifo = f' } in
          let h1 : Holds max (inside dec esc) self1 out = (st, i, es, le, (rest, eo)) in
          let (r, self2, out2, run, ends, (v2, d2, l2)) =
            after_lem max q b self1 out (inside_byte dec esc b) (accept self1 b out) v' e' room
              (λ dec' esc' self' out'. find_end_lem max small q dec' esc' self' b out')
              (accept_lem max small dec out room below self1 esc b h1) in
          rw (feed_free max dec esc b q free) (
            r,
            self2,
            out2,
            find_end-suc (length q) self byte out max b f' going got ∙ run,
            ends,
            (v2, d2 ∙ d, l2),
          )
    ]
