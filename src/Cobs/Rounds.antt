-- ===== src/Cobs/Rounds.antt =====
-- One round of the loops of `Cobs_decode`: it puts the bytes of a chunk behind those that are
-- `done`.
use zephyr_common.Common.{
  ℕ, suc, ◌+◌, ◌-◌, ◌≤◌, ◌<◌, ◌≡◌, refl, sym, ap, ap₂, ◌∙◌, true, false, List, [], ◌∷◌, ◌++◌,
  Option, some, Ret, ok, err, failed, append_assoc, append-nil, arith, length, drop, drop-drop,
  length-append, get_elem?, ◌==◌, max,
}
use zephyr_common.Common.Memory.{poke-append, poke, ◌>>=◌}
use zephyr_common.Cobs.{copy_data, decode_from}
use zephyr_common.Cobs.Steps.{wrote}

pub get_elem?-append :
    (pre rest : List ℕ) (r i : ℕ) → i ≡ length pre → get_elem? (pre ++ r ∷ rest) i ≡ some r
get_elem?-append pre rest r i e = rw e (at pre)
  where
    at : (pre : List ℕ) → get_elem? (pre ++ r ∷ rest) (length pre) ≡ some r
    at [] = refl
    at (p ∷ pre) = at pre

-- `copy_data` moves a chunk to the cells behind `done`.
copy_data-append :
    (chunk pre post done rest : List ℕ) (from num limit : ℕ)
    → length chunk ≤ length rest
    → num ≡ length done
    → from ≡ length pre
    → num + length chunk ≤ limit
    → copy_data (length chunk) (pre ++ (chunk ++ post)) from (done ++ rest) num limit
      ≡ wrote (num + length chunk) ((done ++ chunk) ++ drop (length chunk) rest)
unfolding copy_data
copy_data-append [] pre post done rest from num limit size n f fits =
    ap₂ wrote (omega arith) (ap (λ t. t ++ rest) (sym (append-nil done)))
copy_data-append (c ∷ chunk) pre post done [] from num limit size n f fits = absurd (omega arith)
copy_data-append (c ∷ chunk) pre post done (r ∷ rest) from num limit size n f fits =
    let free : (num == limit) ≡ false = ground arith in
    let later =
      copy_data-append chunk (pre ++ c ∷ []) post (done ++ c ∷ []) rest (from + 1) (num + 1) limit
        (omega arith) (omega (arith, length-append done (c ∷ [])))
        (omega (arith, length-append pre (c ∷ []))) (omega arith) in
    rw
      (
        copy_data,
        free,
        get_elem?-append pre (chunk ++ post) c from f,
        poke-append done rest r num c n,
      )
      (ap₂ (λ xs ys. copy_data (length chunk) xs (from + 1) ys (num + 1) limit)
          (sym (append_assoc pre (c ∷ []) (chunk ++ post))) (sym (append_assoc done (c ∷ []) rest))
        ∙ (later
            ∙ ap₂ wrote (omega arith)
                (ap (λ t. t ++ drop (length chunk) rest) (append_assoc done (c ∷ []) chunk))))

-- What a round does behind its chunk.
abbrev pub next : ℕ → List ℕ → ℕ → ℕ → ℕ → ℕ → List ℕ → ℕ → Option (Ret × List ℕ)
next rounds enc len code word num out limit = elim (code + max 1 word == len) [
  | true ↦ some (ok num, out)
  | false ↦ elim (max 1 word == 255) [
    | true ↦ decode_from rounds enc len (code + max 1 word) out num limit
    | false ↦ elim (num == limit) [
      | true ↦ some (err failed, out)
      | false ↦ poke out num 0 >>= λ out.
          decode_from rounds enc len (code + max 1 word) out (num + 1) limit
    ]
  ]
]

pub read_round :
    (rounds : ℕ) (c pre post done rest : List ℕ) (len code num limit : ℕ)
    → length c ≤ length rest
    → code ≡ length pre
    → num ≡ length done
    → num + length c ≤ limit
    → let enc = pre ++ ((length c + 1) ∷ (c ++ post)) in
      decode_from (suc rounds) enc len code (done ++ rest) num limit
      ≡ next rounds enc len code
          (length c + 1)
          (num + length c)
          ((done ++ c) ++ drop (length c) rest)
          limit
unfolding decode_from
read_round rounds c pre post done rest len code num limit size p d fits =
    let word = length c + 1 in
    let less : word - 1 ≡ length c = omega arith in
    let copied : copy_data (length c) (pre ++ (word ∷ (c ++ post))) (code + 1) (done ++ rest) num
          limit
        ≡ wrote (num + length c) ((done ++ c) ++ drop (length c) rest) =
      ap (λ xs. copy_data (length c) xs (code + 1) (done ++ rest) num limit)
        (sym (append_assoc pre (word ∷ []) (c ++ post)))
      ∙ copy_data-append c (pre ++ word ∷ []) post done rest (code + 1) num limit size d
          (omega (arith, length-append pre (word ∷ []))) fits in
    rw (decode_from, get_elem?-append pre (c ++ post) word code p, less, copied) refl

pub next_end :
    (rounds : ℕ) (enc : List ℕ) (len code word num : ℕ) (out : List ℕ) (limit : ℕ)
    → (code + max 1 word == len) ≡ true
    → next rounds enc len code word num out limit ≡ wrote num out
next_end rounds enc len code word num out limit e = rw (next, e) refl

pub next_full :
    (rounds : ℕ) (enc : List ℕ) (len code n num : ℕ) (out : List ℕ) (limit : ℕ)
    → code + (n + 1) < len
    → (n == 254) ≡ true
    → next rounds enc len code (n + 1) num out limit
      ≡ decode_from rounds enc len (code + (n + 1)) out num limit
next_full rounds enc len code n num out limit e full =
    let word : max 1 (n + 1) ≡ n + 1 = omega arith in
    let more : (code + max 1 (n + 1) == len) ≡ false = ground arith in
    let long : (max 1 (n + 1) == 255) ≡ true = ground arith in rw (next, more, long, word) refl

pub next_zero :
    (rounds : ℕ) (enc : List ℕ) (len code n num : ℕ) (pre rest : List ℕ) (s limit : ℕ)
    → code + (n + 1) < len
    → (n == 254) ≡ false
    → num < limit
    → num ≡ length pre
    → next rounds enc len code (n + 1) num (pre ++ s ∷ rest) limit
      ≡ decode_from rounds enc len (code + (n + 1)) ((pre ++ 0 ∷ []) ++ rest) (num + 1) limit
next_zero rounds enc len code n num pre rest s limit e below free at =
    let word : max 1 (n + 1) ≡ n + 1 = omega arith in
    let more : (code + max 1 (n + 1) == len) ≡ false = ground arith in
    let long : (max 1 (n + 1) == 255) ≡ false = ground arith in
    let room : (num == limit) ≡ false = ground arith in
    rw
      (
        next,
        more,
        long,
        room,
        poke-append pre rest s num 0 at,
        append_assoc pre (0 ∷ []) rest,
        word,
      )
      refl

-- What is put down in two steps, in one.
pub combine :
    (c more done rest : List ℕ) (num : ℕ)
    → wrote
        (num + length c + length more)
        (((done ++ c) ++ more) ++ drop (length more) (drop (length c) rest))
      ≡ wrote (num + length (c ++ more)) ((done ++ (c ++ more)) ++ drop (length (c ++ more)) rest)
combine c more done rest num = ap₂ wrote (omega (arith, length-append c more)) (
    ap₂ (λ xs ys. xs ++ ys) (append_assoc done c more)
      (drop-drop (length c) (length more) rest
        ∙ ap (λ k. drop k rest) (sym (length-append c more))))
