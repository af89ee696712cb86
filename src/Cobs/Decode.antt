-- ===== src/Cobs/Decode.antt =====
-- The rounds of `Cobs_decode` put down the chunks of an encoding one after another.
use zephyr_common.Common.{
  ℕ, zero, suc, ◌+◌, ◌≤◌, ◌<◌, ◌≡◌, refl, sym, ap, ap₂, ◌∙◌, inl, inr, true, false, Bool-cases,
  List, [], ◌∷◌, ◌++◌, append_assoc, append-nil, arith, length, drop, length-append, length-drop,
  ◌==◌, max,
}
use zephyr_common.Cobs.{decode_from}
use zephyr_common.Cobs.Chunks.{flatten, join}
use zephyr_common.Cobs.Steps.{uncons, wrote}
use zephyr_common.Cobs.Rounds.{next, read_round, next_end, next_full, next_zero, combine}

-- A chunk and its code word move from what is left to what is done.
shift :
    (pre c more post : List ℕ) (word : ℕ)
    → pre ++ ((word ∷ (c ++ more)) ++ post) ≡ (pre ++ word ∷ c) ++ (more ++ post)
shift pre c more post word =
    ap (λ t. pre ++ word ∷ t) (append_assoc c more post)
    ∙ sym (append_assoc pre (word ∷ c) (more ++ post))

join_cons_full :
    (c f : List ℕ) (cs : List (List ℕ))
    → (length c == 254) ≡ true
    → join (c ∷ f ∷ cs) ≡ c ++ join (f ∷ cs)
unfolding join
join_cons_full c f cs full = rw (join, full) refl

join_cons_zero :
    (c f : List ℕ) (cs : List (List ℕ))
    → (length c == 254) ≡ false
    → join (c ∷ f ∷ cs) ≡ c ++ (0 ∷ join (f ∷ cs))
unfolding join
join_cons_zero c f cs below = rw (join, below) refl

-- What the loop leaves from the chunks `cs` on.
abbrev Joins : ℕ → List ℕ → ℕ → ℕ → List ℕ → List ℕ → ℕ → ℕ → List (List ℕ) → Type 0
Joins rounds enc len code done rest num limit cs =
    decode_from rounds enc len code (done ++ rest) num limit
    ≡ wrote (num + length (join cs)) ((done ++ join cs) ++ drop (length (join cs)) rest)

-- A round in front of the other chunks, which start with `f`.
module _ (rounds : ℕ) (enc pre more c f : List ℕ) (cs : List (List ℕ)) (len code : ℕ)
    (whole : enc ≡ pre ++ ((length c + 1) ∷ (c ++ more))) (p : code ≡ length pre)
    (left : code + (length c + 1) < len) where
  full_round :
      (done rest : List ℕ) (num limit : ℕ)
      → (length c == 254) ≡ true
      → num ≡ length done
      → length (join (c ∷ f ∷ cs)) ≤ length rest
      → num + length (join (c ∷ f ∷ cs)) ≤ limit
      → Joins rounds enc len
          (code + (length c + 1))
          (done ++ c)
          (drop (length c) rest)
          (num + length c)
          limit
          (f ∷ cs)
      → Joins (suc rounds) enc len code done rest num limit (c ∷ f ∷ cs)
  full_round done rest num limit full d size fits later =
      let j = join_cons_full c f cs full in
      let sizes = ap length j in
      let parts = length-append c (join (f ∷ cs)) in
      let out = (done ++ c) ++ drop (length c) rest in
      rw j (
        ap (λ xs. decode_from (suc rounds) xs len code (done ++ rest) num limit) whole
        ∙ (read_round rounds c pre more done rest len code num limit (omega arith) p d (omega arith)
            ∙ (ap (λ xs. next rounds xs len code (length c + 1) (num + length c) out limit)
                  (sym whole)
                ∙ (next_full rounds enc len code (length c) (num + length c) out limit left full
                    ∙ (later ∙ combine c (join (f ∷ cs)) done rest num)))))

  zero_round :
      (done rest rest2 : List ℕ) (s num limit : ℕ)
      → (length c == 254) ≡ false
      → num ≡ length done
      → drop (length c) rest ≡ s ∷ rest2
      → length (join (c ∷ f ∷ cs)) ≤ length rest
      → num + length (join (c ∷ f ∷ cs)) ≤ limit
      → Joins rounds enc len
          (code + (length c + 1))
          ((done ++ c) ++ 0 ∷ [])
          rest2
          (num + length c + 1)
          limit
          (f ∷ cs)
      → Joins (suc rounds) enc len code done rest num limit (c ∷ f ∷ cs)
  zero_round done rest rest2 s num limit below d e2 size fits later =
      let out = 0 ∷ join (f ∷ cs) in
      let j = join_cons_zero c f cs below in
      let sizes = ap length j in
      let parts = length-append c out in
      let written = length-append done c in
      rw j (
        ap (λ xs. decode_from (suc rounds) xs len code (done ++ rest) num limit) whole
        ∙ (read_round rounds c pre more done rest len code num limit (omega arith) p d (omega arith)
            ∙ (ap₂
                  (λ xs ys.
                    next rounds xs len code (length c + 1) (num + length c) ((done ++ c) ++ ys)
                      limit)
                  (sym whole) e2
                ∙ (next_zero rounds enc len code (length c) (num + length c) (done ++ c) rest2 s
                      limit left below (omega arith) (omega arith)
                    ∙ (later
                        ∙ (combine (0 ∷ []) (join (f ∷ cs)) (done ++ c) (s ∷ rest2) (num + length c)
                            ∙ (ap
                                  (λ t.
                                    wrote (num + length c + length out)
                                      (((done ++ c) ++ out) ++ drop (length out) t))
                                  (sym e2)
                                ∙ combine c out done rest num)))))))

pub decode_from-join :
    (cs : List (List ℕ)) (c : List ℕ) (rounds : ℕ) (enc pre post done rest : List ℕ)
    (len code num limit : ℕ)
    → enc ≡ pre ++ (flatten (c ∷ cs) ++ post)
    → len ≡ code + length (flatten (c ∷ cs))
    → code ≡ length pre
    → num ≡ length done
    → length (c ∷ cs) ≤ rounds
    → length (join (c ∷ cs)) ≤ length rest
    → num + length (join (c ∷ cs)) ≤ limit
    → decode_from rounds enc len code (done ++ rest) num limit
      ≡ wrote
          (num + length (join (c ∷ cs)))
          ((done ++ join (c ∷ cs)) ++ drop (length (join (c ∷ cs))) rest)
unfolding flatten join
decode_from-join cs c zero enc pre post done rest len code num limit e l p d r size fits =
    absurd (omega arith)
decode_from-join [] c (suc rounds) enc pre post done rest len code num limit e l p d r size fits =
    let at_end : (code + max 1 (length c + 1) == len) ≡ true =
      let total = length-append c [] in ground arith in
    let whole : enc ≡ pre ++ ((length c + 1) ∷ (c ++ post)) =
      e ∙ ap (λ t. pre ++ (length c + 1) ∷ (t ++ post)) (append-nil c) in
    rw whole (
      read_round rounds c pre post done rest len code num limit size p d fits
      ∙ next_end rounds _ len code (length c + 1) _ _ limit at_end)
decode_from-join (f ∷ cs) c (suc rounds) enc pre post done rest len code num limit e l p d r size
      fits =
    let word = length c + 1 in
    let more = flatten (f ∷ cs) in
    let out = join (f ∷ cs) in
    let total = length-append c more in
    let moved = e ∙ shift pre c more post word in
    let whole : enc ≡ pre ++ (word ∷ (c ++ (more ++ post))) =
      moved ∙ append_assoc pre (word ∷ c) (more ++ post) in
    let further : code + word ≡ length (pre ++ word ∷ c) =
      omega (arith, length-append pre (word ∷ c)) in
    let written = length-append done c in
    let left = length-drop (length c) rest in
    elim (Bool-cases (length c == 254)) [
      | inl full ↦
          let sizes = ap length (join_cons_full c f cs full) in
          let parts = length-append c out in
          full_round rounds enc pre (more ++ post) c f cs len code whole p (omega arith) done rest
            num limit full d size fits
            (decode_from-join cs f rounds enc (pre ++ word ∷ c) post (done ++ c)
              (drop (length c) rest) len (code + word) (num + length c) limit moved (omega arith)
              further (omega arith) (omega arith) (omega arith) (omega arith))
      | inr below ↦
          let sizes = ap length (join_cons_zero c f cs below) in
          let parts = length-append c (0 ∷ out) in
          let (s, rest2, e2) = uncons (drop (length c) rest) (omega arith) in
          let sizes2 = ap length e2 in
          let behind = length-append (done ++ c) (0 ∷ []) in
          zero_round rounds enc pre (more ++ post) c f cs len code whole p (omega arith) done rest
            rest2 s num limit below d e2 size fits
            (decode_from-join cs f rounds enc (pre ++ word ∷ c) post ((done ++ c) ++ 0 ∷ []) rest2
              len (code + word) (num + length c + 1) limit moved (omega arith) further (omega arith)
              (omega arith) (omega arith) (omega arith))
    ]
