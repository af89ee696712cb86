-- ===== src/Slip/Parts.antt =====
-- Calls of `slip_deframer` on the parts of a stream, and on bytes that it has to refuse.
use zephyr_common.Common.{
  ℕ, ◌+◌, ◌-◌, ◌≤◌, ◌<◌, ◌^◌, ◌≡◌, refl, sym, ap, subst, ◌∙◌, inl, true, Option, List, [], ◌∷◌,
  ◌++◌, map, some, arith, length, length-append, append-nil, append_assoc, Ret, ok, err, eoverflow,
}
use zephyr_common.Common.Memory.{◌>>=◌}
use zephyr_common.SwFifo.Valid.{IsValid, contents, length-contents, count-le}
use zephyr_common.Slip.{Context, init, deframer}
use zephyr_common.Slip.Frame.{frame}
use zephyr_common.Slip.Decoder.{Decoder, hunting, Event, more, payload, overflow, invalid, feed}
use zephyr_common.Slip.Deframer.{Holds, Ends}
use zephyr_common.Slip.Deframer.Call.{deframer-Takes}
use zephyr_common.Slip.Stream.{
  NoEnd, continue, feed-append, feed-TakesAll, TakesAll, feed-frame, feed-frame_exact,
}
use zephyr_common.SwFifo.{flush, write}
use zephyr_common.SwFifo.Queue
use zephyr_common.SwFifo.Refine.{write_refines, flush_refines}
use zephyr_common.Common.{take_all, take, ltb, lt→ltb, failed}

-- A stream in parts, each handed to one call with the same buffer.
unfoldable pub calls : Context → List ℕ → ℕ → List (List ℕ) → Option (List Ret × Context × List ℕ)
calls self out max [] = some ([], self, out)
calls self out max (part ∷ parts) = deframer self part out max >>= λ r.
    calls r.1 r.2 max parts >>= λ rs. some (r.0 ∷ rs.0, rs.1, rs.2)

abbrev pub concat : List (List ℕ) → List ℕ
concat [] = []
concat (part ∷ parts) = part ++ concat parts

abbrev pub Fit : ℕ → List (List ℕ) → Type 0
Fit n [] = Unit
Fit n (part ∷ parts) = (length part ≤ n) × Fit n parts

-- All calls but the last return 0, and the last the payload's length, with the payload in the
-- buffer and nothing left over.
abbrev pub Delivers : List ℕ → List (List ℕ) → Option (List Ret × Context × List ℕ) → Type 0
Delivers xs parts result =
    (self' : Context) × (rest : List ℕ) × (result
      ≡ some (map (λ _. ok 0) parts ++ ok (length xs) ∷ [], self', xs ++ rest))
    × (self'.state ≡ init)
    × (contents self'.fifo ≡ [])
    × IsValid self'.fifo

pub calls-cons :
    (self : Context) (out : List ℕ) (max : ℕ) (part : List ℕ) (parts : List (List ℕ)) {ret : Ret}
    {self1 self2 : Context} {out1 out2 : List ℕ} {rets : List Ret}
    → deframer self part out max ≡ some (ret, self1, out1)
    → calls self1 out1 max parts ≡ some (rets, self2, out2)
    → calls self out max (part ∷ parts) ≡ some (ret ∷ rets, self2, out2)
unfolding calls
calls-cons self out max part parts one later = rw (calls, one, ◌>>=◌, later)

module _ (max : ℕ) (small : max < 2 ^ 16) (xs : List ℕ) where
  -- The calls for the parts behind the first, wherever the receiver is then.
  abbrev Later : List (List ℕ) → List ℕ → Type 0
  Later parts end =
      (d : Decoder) (self : Context) (out : List ℕ)
      → IsValid self.fifo
      → contents self.fifo ≡ []
      → max ≤ length out
      → Holds max d self out
      → Fit self.fifo.depth parts
      → length end ≤ self.fifo.depth
      → feed max d (concat parts ++ end) ≡ (payload xs, [])
      → Delivers xs parts (calls self out max (parts ++ end ∷ []))

  feed_parts :
      (parts : List (List ℕ)) (part end : List ℕ) (d : Decoder) (res : Event × List ℕ)
      → feed max d ((part ++ concat parts) ++ end) ≡ (payload xs, [])
      → feed max d part ≡ res
      → continue max (concat parts ++ end) res ≡ (payload xs, [])
  feed_parts parts part end d res ev eq =
      sym (ap (continue max (concat parts ++ end)) eq)
      ∙ (sym (feed-append max part (concat parts ++ end) d)
          ∙ (ap (feed max d) (sym (append_assoc part (concat parts) end)) ∙ ev))

  part_lem :
      (parts : List (List ℕ)) (part end : List ℕ) (d : Decoder) (self : Context) (out : List ℕ)
      → IsValid self.fifo
      → contents self.fifo ≡ []
      → max ≤ length out
      → Holds max d self out
      → Fit self.fifo.depth (part ∷ parts)
      → (length end ≤ self.fifo.depth) × (0 < length end)
      → feed max d ((part ++ concat parts) ++ end) ≡ (payload xs, [])
      → Later parts end
      → (res : Event × List ℕ) → feed max d part ≡ res
      → Delivers xs (part ∷ parts) (calls self out max (part ∷ (parts ++ end ∷ [])))
  unfolding calls
  part_lem parts part end d self out v e room h fit last ev later (more d', r) eq =
      let one = deframer-Takes d self part out max small room v h (rw e (omega arith)) in
      let (ret, self', out', run, (rok, h', c), (v', dep, len)) = (rw (e, eq) at one) in
      let empty : r ≡ [] = subst (TakesAll max) eq (feed-TakesAll max part d) in
      let (self2, rest, runs, st, c2, v2) =
        later d' self' out' v' (c ∙ empty) (omega arith) h' (rw dep fit.1) (omega arith)
          (feed_parts parts part end d (more d', r) ev eq) in
      (
        self2,
        rest,
        calls-cons self out max part (parts ++ end ∷ []) run runs
            ∙ ap (λ t. some (t ∷ (map (λ _. ok 0) parts ++ ok (length xs) ∷ []), self2, xs ++ rest))
                rok,
        st,
        c2,
        v2,
      )
  part_lem parts part end d self out v e room h fit last ev later (payload p, r) eq =
      let all = feed_parts parts part end d (payload p, r) ev eq in
      let none_left : length (r ++ (concat parts ++ end)) ≡ 0 = ap (λ t. length t.1) all in
      absurd
        (omega (arith, length-append r (concat parts ++ end), length-append (concat parts) end))
  part_lem parts part end d self out v e room h fit last ev later (overflow, r) eq =
      let all = feed_parts parts part end d (overflow, r) ev eq in
      let differ : overflow ≡ payload xs = ap (λ t. t.0) all in cc
  part_lem parts part end d self out v e room h fit last ev later (invalid, r) eq =
      let all = feed_parts parts part end d (invalid, r) ev eq in
      let differ : invalid ≡ payload xs = ap (λ t. t.0) all in cc

  calls_lem :
      (parts : List (List ℕ)) (l : ℕ) (ls : List ℕ) (d : Decoder) (self : Context) (out : List ℕ)
      → IsValid self.fifo
      → contents self.fifo ≡ []
      → max ≤ length out
      → Holds max d self out
      → Fit self.fifo.depth parts
      → length (l ∷ ls) ≤ self.fifo.depth
      → feed max d (concat parts ++ l ∷ ls) ≡ (payload xs, [])
      → Delivers xs parts (calls self out max (parts ++ (l ∷ ls) ∷ []))
  unfolding calls
  calls_lem [] l ls d self out v e room h fit last ev =
      let one = deframer-Takes d self (l ∷ ls) out max small room v h (rw e (omega arith)) in
      let (r, self', out', run, (rok, st, c, (rest, eo)), (v', dep, len)) = (rw (e, ev) at one) in
      (self', rest, rw (run, ◌>>=◌, rok, eo), st, c, v')
  calls_lem (part ∷ parts) l ls d self out v e room h fit last ev =
      part_lem parts part (l ∷ ls) d self out v e room h fit (omega arith) ev
        (λ d' self' out'. calls_lem parts l ls d' self' out') (feed max d part) refl

  -- A frame that arrives in parts, noise before it in the first ones: whatever the parts are, as
  -- long as each fits the fifo and the last is not empty, the calls before the last return 0, and
  -- the last returns the length of the payload and leaves the payload at the start of the buffer,
  -- if the payload is shorter than the room for it.
  pub calls-frame :
      (noise : List ℕ) (parts : List (List ℕ)) (l : ℕ) (ls : List ℕ) (self : Context) (out : List ℕ)
      → NoEnd noise
      → length xs < max
      → max ≤ length out
      → IsValid self.fifo
      → contents self.fifo ≡ []
      → self.state ≡ init
      → Fit self.fifo.depth parts
      → length (l ∷ ls) ≤ self.fifo.depth
      → concat parts ++ l ∷ ls ≡ noise ++ frame xs
      → Delivers xs parts (calls self out max (parts ++ (l ∷ ls) ∷ []))
  calls-frame noise parts l ls self out clean short room v e st fit last whole =
      calls_lem parts l ls hunting self out v e room (inl st) fit last (
        ap (feed max hunting) (whole ∙ ap (λ r. noise ++ r) (sym (append-nil (frame xs))))
        ∙ feed-frame max noise xs [] clean short)

-- A frame whose payload has exactly the length of the buffer is refused with -EOVERFLOW, though
-- the payload would fit.
pub deframer_exact :
    (xs : List ℕ) (self : Context) (out : List ℕ) (max : ℕ)
    → max < 2 ^ 16
    → max ≤ length out
    → length xs ≡ max
    → IsValid self.fifo
    → contents self.fifo ≡ []
    → self.state ≡ init
    → length (frame xs) ≤ self.fifo.depth
    → (self' : Context) × (out' : List ℕ) × (deframer self (frame xs) out max
        ≡ some (err eoverflow, self', out'))
deframer_exact xs self out max small room exact v e st fits =
    let (r, self', out', run, ends, kept) =
      deframer-Takes hunting self (frame xs) out max small room v (inl st) (rw e (omega arith)) in
    let ev : feed max hunting (contents self.fifo ++ frame xs) ≡ (overflow, []) =
      ap (λ q. feed max hunting (q ++ frame xs)) e
      ∙ (ap (feed max hunting) (sym (append-nil (frame xs))) ∙ feed-frame_exact max xs [] exact) in
    let refused : Ends max overflow [] r self' out' =
      subst (λ (t : Event × List ℕ). Ends max t.0 t.1 r self' out') ev ends in
    (self', out', run ∙ ap (λ t. some (t, self', out')) refused.0)

-- Bytes that do not fit the fifo are dropped, with all that it held: the call returns 0, and the
-- deframer starts again with an empty, valid fifo.
pub deframer_no_room :
    (self : Context) (buf_in out : List ℕ) (max : ℕ)
    → IsValid self.fifo
    → self.fifo.depth < length (contents self.fifo) + length buf_in
    → (self' : Context) × (deframer self buf_in out max ≡ some (ok 0, self', out))
      × (self'.state ≡ init)
      × (contents self'.fifo ≡ [])
      × IsValid self'.fifo
unfolding deframer
deframer_no_room self buf_in out max v full =
    let (f', w, c, v', dep) = write_refines buf_in (length buf_in) v (omega arith) in
    let all : take (length buf_in) buf_in ≡ buf_in =
      take_all (length buf_in) buf_in (omega arith) in
    let reply : (Queue.step self.fifo.depth (Queue.write buf_in) (contents self.fifo)).0.0
        ≡ err failed =
      refused self.fifo.depth buf_in (contents self.fifo)
        (omega (arith, length-contents self.fifo, count-le v)) full in
    let w' : write self.fifo buf_in (length buf_in) ≡ some (err failed, f') =
      w
      ∙ (ap (λ b. some ((Queue.step self.fifo.depth (Queue.write b) (contents self.fifo)).0.0, f'))
            all
          ∙ ap (λ r. some (r, f')) reply) in
    let (empty, v2, d2) = flush_refines v' in
    (record self { fifo = flush f'; state = init }, rw (deframer, w', ◌>>=◌), refl, empty, v2)
  where
    refused :
        (depth : ℕ) (xs q : List ℕ)
        → length q ≤ depth
        → depth < length q + length xs
        → (Queue.step depth (Queue.write xs) q).0.0 ≡ err failed
    refused depth xs q le h =
        let over : ltb (depth - length q) (length xs) ≡ true = lt→ltb _ _ (omega arith) in
        unfold Queue.step in rw over
