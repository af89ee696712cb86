-- ===== src/SystemRpc/Drain.antt =====
-- The reads of the trace buffer over the system callset.
use zephyr_common.Common.{
  ℕ, zero, suc, ◌+◌, ◌*◌, ◌-◌, ◌≤◌, ◌<◌, min, ◌≡◌, refl, sym, ap, ◌∙◌, inl, inr, true, false,
  Bool-cases, Option, some, List, [], ◌∷◌, ◌++◌, ◌==◌, ok, arith, length, take, drop, length-drop,
  length-take, length-append, take-add, drop-drop, take-append,
}
use zephyr_common.Common.Memory.{◌>>=◌}
use zephyr_common.CircBuffer.{CircBuffer, count}
use zephyr_common.CircBuffer
use zephyr_common.CircBuffer.Valid.{IsValid, contents, length-contents}
use zephyr_common.CircBuffer.Refine.{contents-read}
use zephyr_common.ProtoRpc.{success}
use zephyr_common.TraceRam.{TraceRam}
use zephyr_common.TraceRam
use zephyr_common.SystemRpc.{TraceReply, getnexttraceram}

module _ {W : Type 0} where
  -- The traces held, oldest first.
  abbrev pub traces : TraceRam W → List ℕ
  traces tr = contents tr.traceram_circ

  -- `n` calls one after the other into the same frame, and the bytes of their replies.
  unfoldable pub collect :
      ℕ → ℕ → TraceReply → TraceRam W → Option (List ℕ × TraceReply × TraceRam W)
  collect zero max_size reply tr = some ([], reply, tr)
  collect (suc n) max_size reply tr = getnexttraceram max_size reply tr >>= λ r.
      collect n max_size (r.0) (r.2) >>= λ rest.
      some (take (r.0.part.size) (r.0.part.array) ++ rest.0, rest.1, rest.2)

  getnexttraceram-read :
      (max_size n : ℕ) (out : List ℕ) (reply : TraceReply) (tr : TraceRam W) (circ : CircBuffer)
      → (count tr.traceram_circ == 0) ≡ false
      → CircBuffer.read tr.traceram_circ reply.part.array max_size ≡ some (ok (suc n), out, circ)
      → getnexttraceram max_size reply tr
        ≡ some (
          record { empty_on_read = count circ == 0; part = record { array = out; size = suc n } },
          success,
          record tr { traceram_circ = circ },
        )
  unfolding getnexttraceram TraceRam.get_count TraceRam.read CircBuffer.get_count
  getnexttraceram-read max_size n out reply tr circ held run = rw (getnexttraceram, held, run)

  -- A call on a valid buffer that holds something, for at least one byte and no more than the reply
  -- has room for, succeeds. The reply holds the oldest bytes, as many as there are and at most
  -- `max_size`; exactly those leave the buffer, which stays valid. `empty_on_read` says whether
  -- none are left.
  pub getnexttraceram-traces :
      (max_size : ℕ) (reply : TraceReply) (tr : TraceRam W)
      → IsValid tr.traceram_circ
      → 0 < count tr.traceram_circ
      → 0 < max_size
      → max_size ≤ length reply.part.array
      → (tr' : TraceRam W) × (getnexttraceram max_size reply tr
          ≡ some (
            record {
              empty_on_read = length (traces tr') == 0;
              part = record {
                array =
                    take max_size (traces tr)
                    ++ drop (min max_size (length (traces tr))) reply.part.array;
                size = min max_size (length (traces tr));
              };
            },
            success,
            tr',
          ))
        × (traces tr' ≡ drop max_size (traces tr))
        × IsValid tr'.traceram_circ
        × (tr'.core ≡ tr.core)
  getnexttraceram-traces max_size reply tr v some_left pos room =
      let (circ, run, left, v', size) = contents-read reply.part.array max_size v (omega arith) in
      let held : (count tr.traceram_circ == 0) ≡ false = ground arith in
      let n : count tr.traceram_circ ≡ length (traces tr) = sym (length-contents v) in
      let n' : count circ ≡ length (contents circ) = sym (length-contents v') in
      let k : min max_size (count tr.traceram_circ) ≡ suc (min max_size (length (traces tr)) - 1) =
        omega arith in
      let k' : suc (min max_size (length (traces tr)) - 1) ≡ min max_size (length (traces tr)) =
        omega arith in
      let tr' : TraceRam W = record tr { traceram_circ = circ } in
      let old = reply.part.array in
      (
        tr',
        getnexttraceram-read max_size (min max_size (length (traces tr)) - 1) _ reply tr circ held
              (run ∙ ap (λ i. some (ok i, take max_size (traces tr) ++ drop i old, circ)) k)
            ∙ rw (n', k'),
        left,
        v',
        refl,
      )

  getnexttraceram-empty :
      (max_size : ℕ) (reply : TraceReply) (tr : TraceRam W)
      → (count tr.traceram_circ == 0) ≡ true
      → getnexttraceram max_size reply tr
        ≡ some
            (record { empty_on_read = false; part = record reply.part { size = 0 } }, success, tr)
  unfolding getnexttraceram TraceRam.get_count CircBuffer.get_count
  getnexttraceram-empty max_size reply tr empty = rw (getnexttraceram, empty)

  -- What a call takes, be the buffer empty or not.
  getnexttraceram-take :
      (max_size : ℕ) (reply : TraceReply) (tr : TraceRam W)
      → IsValid tr.traceram_circ
      → 0 < max_size
      → max_size ≤ length reply.part.array
      → (reply' : TraceReply) × (tr' : TraceRam W) × (getnexttraceram max_size reply tr
          ≡ some (reply', success, tr'))
        × (take reply'.part.size reply'.part.array ≡ take max_size (traces tr))
        × (max_size ≤ length reply'.part.array)
        × (traces tr' ≡ drop max_size (traces tr))
        × IsValid tr'.traceram_circ
  getnexttraceram-take max_size reply tr v pos room =
      let n : count tr.traceram_circ ≡ length (traces tr) = sym (length-contents v) in
      let part = take max_size (traces tr) in
      let k = min max_size (length (traces tr)) in
      let lp : length part ≡ k = length-take max_size (traces tr) in
      elim (Bool-cases (count tr.traceram_circ == 0)) [
        | inl empty ↦
            let (no_bytes, same) = nothing_held max_size (traces tr) (ground arith) in
            (_, tr, getnexttraceram-empty max_size reply tr empty, no_bytes, room, same, v)
        | inr held ↦
            let (tr', run, left, v', same) =
              getnexttraceram-traces max_size reply tr v (ground arith) pos room in
            let old = drop k reply.part.array in
            (
              _,
              tr',
              run,
              ap (λ i. take i (part ++ old)) (sym lp) ∙ take-append part old,
              omega (arith, lp, length-append part old, length-drop k reply.part.array),
              left,
              v',
            )
      ]
    where
      nothing_held : (i : ℕ) (xs : List ℕ) → length xs ≡ 0 → ([] ≡ take i xs) × (xs ≡ drop i xs)
      nothing_held zero [] h = (refl, refl)
      nothing_held (suc i) [] h = (refl, refl)
      nothing_held i (x ∷ xs) h = absurd (omega arith)

  -- `n` calls on a valid buffer, each for the same number of bytes, at least one and no more than
  -- the reply has room for, take the oldest `n` times that many bytes out of it, or all that there
  -- are, and give them in order, each once; the buffer stays valid with the rest in it.
  pub collect-traces :
      (n max_size : ℕ) (reply : TraceReply) (tr : TraceRam W)
      → IsValid tr.traceram_circ
      → 0 < max_size
      → max_size ≤ length reply.part.array
      → (reply' : TraceReply) × (tr' : TraceRam W) × (collect n max_size reply tr
          ≡ some (take (n * max_size) (traces tr), reply', tr'))
        × (traces tr' ≡ drop (n * max_size) (traces tr))
        × IsValid tr'.traceram_circ
  unfolding collect
  collect-traces zero max_size reply tr v pos room =
      let none_taken : 0 * max_size ≡ 0 = omega arith in
      (reply, tr, rw none_taken refl, rw none_taken refl, v)
  collect-traces (suc n) max_size reply tr v pos room =
      let (reply1, tr1, call, part, room1, left1, v1) =
        getnexttraceram-take max_size reply tr v pos room in
      let (reply2, tr2, calls, left2, v2) = collect-traces n max_size reply1 tr1 v1 pos room1 in
      let more : suc n * max_size ≡ max_size + n * max_size = omega arith in
      let joined : take reply1.part.size reply1.part.array ++ take (n * max_size) (traces tr1)
          ≡ take (suc n * max_size) (traces tr) =
        ap (λ l. l ++ take (n * max_size) (traces tr1)) part
        ∙ (ap (λ l. take max_size (traces tr) ++ take (n * max_size) l) left1
            ∙ (sym (take-add max_size (n * max_size) (traces tr))
                ∙ ap (λ k. take k (traces tr)) (sym more))) in
      (
        reply2,
        tr2,
        rw (call, calls) (ap (λ bytes. some (bytes, reply2, tr2)) joined),
        left2
            ∙ (ap (drop (n * max_size)) left1
                ∙ (drop-drop max_size (n * max_size) (traces tr)
                    ∙ ap (λ k. drop k (traces tr)) (sym more))),
        v2,
      )
