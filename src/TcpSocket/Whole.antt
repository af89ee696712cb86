-- ===== src/TcpSocket/Whole.antt =====
-- `TcpSocket_write` over a network that takes some bytes at a time.
use zephyr_common.Common.{
  ℕ, zero, suc, ◌+◌, ◌-◌, ◌≤◌, ◌<◌, ◌^◌, ◌≡◌, ◌⊎◌, sym, ap, ◌∙◌, inl, inr, true, false, Bool-cases,
  Option, some, List, ◌++◌, ltb, leb, Ret, ok, err, Errno, arith, length, take, drop, append_assoc,
  append-nil, length-take, length-drop, take-take, take-add, drop_all, drop-drop, take-append-drop,
}
use zephyr_common.Common.Memory.{slice, ◌>>=◌}
use zephyr_common.TcpSocket.{Net, sub16, write_from, write}

-- What the network stack documents of a blocking socket: it takes one byte or more of those that
-- it is given, from the front, or returns an error and takes none. `sent` is what the peer gets.
pub record IsNet {W : Type 0} (net : Net W) (sent : W → List ℕ) : Type 0 where
  pub takes :
      (sock : ℕ) (part : List ℕ) (w : W)
      → 1 ≤ length part
      → ((n : ℕ) × (w' : W) × (net.zsock_send sock part w ≡ (ok n, w'))
          × (1 ≤ n)
          × (n ≤ length part)
          × (sent w' ≡ sent w ++ take n part))
        ⊎ ((e : Errno) × (w' : W) × (net.zsock_send sock part w ≡ (err e, w')) × (sent w' ≡ sent w))

module _ {W : Type 0} (net : Net W) (sent : W → List ℕ) (is : IsNet net sent) where
  -- All the bytes from `num` on have gone, or an error has stopped them after the first `k` ones.
  abbrev pub Writes : List ℕ → ℕ → W → Option (Ret × W) → Type 0
  Writes buf num w result =
      ((w' : W) × (result ≡ some (ok (length buf), w')) × (sent w' ≡ sent w ++ drop num buf))
      ⊎ ((e : Errno) × (k : ℕ) × (w' : W) × (result ≡ some (err e, w'))
          × (k < length buf - num)
          × (sent w' ≡ sent w ++ take k (drop num buf)))

  pub write_from_end :
      (fuel sock : ℕ) (buf : List ℕ) (size num to_write : ℕ) (w : W)
      → ltb num size ≡ false
      → write_from net (suc fuel) sock buf size num to_write w ≡ some (ok num, w)
  unfolding write_from
  write_from_end fuel sock buf size num to_write w h = rw (write_from, h)

  pub write_from_sent :
      (fuel sock : ℕ) (buf : List ℕ) (size num to_write n : ℕ) (w w' : W) (part : List ℕ)
      → ltb num size ≡ true
      → slice buf num to_write ≡ some part
      → net.zsock_send sock part w ≡ (ok n, w')
      → write_from net (suc fuel) sock buf size num to_write w
        ≡ write_from net fuel sock buf size (num + n) (sub16 to_write n) w'
  unfolding write_from
  write_from_sent fuel sock buf size num to_write n w w' part h s e =
      rw (write_from, h, s, ◌>>=◌, e, e)

  write_from_error :
      (fuel sock : ℕ) (buf : List ℕ) (size num to_write : ℕ) (r : Errno) (w w' : W) (part : List ℕ)
      → ltb num size ≡ true
      → slice buf num to_write ≡ some part
      → net.zsock_send sock part w ≡ (err r, w')
      → write_from net (suc fuel) sock buf size num to_write w ≡ some (err r, w')
  unfolding write_from
  write_from_error fuel sock buf size num to_write r w w' part h s e =
      rw (write_from, h, s, ◌>>=◌, e, e)

  -- A part that has gone, and then the rest.
  joined :
      (n num : ℕ) (buf : List ℕ) (w w' : W) (whole rest : Option (Ret × W))
      → num + n ≤ length buf
      → whole ≡ rest
      → sent w' ≡ sent w ++ take n (drop num buf)
      → Writes buf (num + n) w' rest
      → Writes buf num w whole
  joined n num buf w w' whole rest h e taken (inl (w2, run, all)) = inl (
    w2,
    e ∙ run,
    all
        ∙ (ap (λ t. t ++ drop (num + n) buf) taken
            ∙ (append_assoc (sent w) (take n (drop num buf)) (drop (num + n) buf)
                ∙ ap (λ t. sent w ++ t)
                    (ap (λ t. take n (drop num buf) ++ t) (sym (drop-drop num n buf))
                      ∙ take-append-drop n (drop num buf)))),
  )
  joined n num buf w w' whole rest h e taken (inr (r, k, w2, run, below, some_gone)) = inr (
    r,
    n + k,
    w2,
    e ∙ run,
    omega arith,
    some_gone
        ∙ (ap (λ t. t ++ take k (drop (num + n) buf)) taken
            ∙ (append_assoc (sent w) (take n (drop num buf)) (take k (drop (num + n) buf))
                ∙ ap (λ t. sent w ++ t)
                    (ap (λ t. take n (drop num buf) ++ take k t) (sym (drop-drop num n buf))
                      ∙ sym (take-add n k (drop num buf))))),
  )

  write_from-Writes :
      (fuel sock : ℕ) (buf : List ℕ) (num to_write : ℕ) (w : W)
      → length buf < 2 ^ 16
      → num + to_write ≡ length buf
      → to_write < fuel
      → Writes buf num w (write_from net fuel sock buf (length buf) num to_write w)
  write_from-Writes zero sock buf num to_write w small all h = absurd (omega arith)
  write_from-Writes (suc fuel) sock buf num to_write w small all h =
      elim (Bool-cases (ltb num (length buf))) [
        | inr done ↦ inl (
          w,
          write_from_end fuel sock buf (length buf) num to_write w done ∙ ended (ground arith),
          sym (append-nil (sent w)) ∙ ap (λ t. sent w ++ t) (sym (drop_all num buf (ground arith))),
        )
        | inl more ↦
            let in_array : leb (num + to_write) (length buf) ≡ true = ground arith in
            let part = take to_write (drop num buf) in
            let got : slice buf num to_write ≡ some part = rw in_array in
            let size : length part ≡ to_write =
              omega (arith, length-take to_write (drop num buf), length-drop num buf) in
            elim (is.takes sock part w (ground arith)) [
              | inr (e, w', sends, none_sent) ↦ inr (
                e,
                0,
                w',
                write_from_error fuel sock buf (length buf) num to_write e w w' part more got sends,
                ground arith,
                none_sent ∙ sym (append-nil (sent w)),
              )
              | inl (n, w', sends, some_sent, at_most, gone) ↦
                  let next : sub16 to_write n ≡ to_write - n = omega arith in
                  let run =
                    write_from_sent fuel sock buf (length buf) num to_write n w w' part more got
                      sends
                    ∙ ap (λ t. write_from net fuel sock buf (length buf) (num + n) t w') next in
                  let taken : sent w' ≡ sent w ++ take n (drop num buf) =
                    gone
                    ∙ ap (λ t. sent w ++ t)
                        (take-take n to_write (drop num buf) (omega (arith, size, at_most))) in
                  joined n num buf w w' _ _ (omega arith) run taken (
                    write_from-Writes fuel sock buf (num + n) (to_write - n) w' small (omega arith)
                      (omega arith))
            ]
      ]
    where
      ended :
          num ≡ length buf
          → ◌≡◌ {A = Option (Ret × W)} (some (ok num, w)) (some (ok (length buf), w))
      ended e = ap (λ n. some (ok n, w)) e

  -- `TcpSocket_write` of fewer than 2 ^ 16 bytes returns, whatever parts the network takes: the
  -- peer gets all the bytes in their order and their number is returned, or an error is returned
  -- and the peer gets some of the first bytes, not all.
  pub write-Writes :
      (sock : ℕ) (buf : List ℕ) (w : W)
      → length buf < 2 ^ 16
      → Writes buf 0 w (write net sock buf (length buf) w)
  unfolding write
  write-Writes sock buf w small =
      write_from-Writes (suc (length buf)) sock buf 0 (length buf) w small (omega arith)
        (omega arith)
