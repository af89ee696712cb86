-- ===== src/EthSerial/Receive.antt =====
-- The receive callback over a frame that comes in parts, with SLIP framing.
use zephyr_common.Common.{
  ℕ, suc, ◌+◌, ◌≤◌, ◌<◌, ◌≡◌, refl, sym, ap, ap₂, ◌∙◌, inl, inr, true, Option, none, some,
  Option-cases, List, [], ◌∷◌, ◌++◌, map, Ret, ok, arith, length, drop, take-append, length-append,
  length-drop, u16,
}
use zephyr_common.Common.Memory.{memcpy, memcpy_lem, ◌>>=◌}
use zephyr_common.SwFifo.Valid.{IsValid, contents}
use zephyr_common.Slip.{Context, init, deframer}
use zephyr_common.Slip.Frame.{frame}
use zephyr_common.Slip.Stream.{NoEnd}
use zephyr_common.Slip.Parts.{calls, calls-cons, calls-frame, concat, Fit}
use zephyr_common.EthSerial.{Item, Kernel, EthSerial, recv_cb, max_frame}
use zephyr_common.EthSerial.Pool.{IsKernel}
use zephyr_common.EthSerial.Branches.{recv_cb_nothing, recv_cb_queued}
use zephyr_common.EthSerial.Send.{slip_framing}

-- The first call and the others.
abbrev Split :
    Context → List ℕ → List ℕ → List (List ℕ) → Ret → List Ret → Context → List ℕ → Type 0
Split self out part parts ret rets self' out' =
    (self1 : Context) × (out1 : List ℕ) × (deframer self part out max_frame
      ≡ some (ret, self1, out1))
    × (calls self1 out1 max_frame parts ≡ some (rets, self', out'))

calls-Split :
    (self : Context) (out part : List ℕ) (parts : List (List ℕ)) (ret : Ret) (rets : List Ret)
    (self' : Context) (out' : List ℕ)
    → calls self out max_frame (part ∷ parts) ≡ some (ret ∷ rets, self', out')
    → Split self out part parts ret rets self' out'
unfolding calls
calls-Split self out part parts ret rets self' out' e =
    elim (Option-cases (deframer self part out max_frame)) [
      | inl fault ↦
          let no_result : calls self out max_frame (part ∷ parts) ≡ none = rw (calls, fault) in cc
      | inr ((r, self1, out1), run) ↦ elim (Option-cases (calls self1 out1 max_frame parts)) [
        | inl fault ↦
            let no_result : calls self out max_frame (part ∷ parts) ≡ none =
              rw (calls, run, ◌>>=◌, fault) in
            cc
        | inr ((rs, self2, out2), runs) ↦
            let same : some (r ∷ rs, self2, out2) ≡ some (ret ∷ rets, self', out') =
              sym (calls-cons self out max_frame part parts run runs) ∙ e in
            (self1, out1, cc, cc)
      ]
    ]

calls-nil :
    (self self' : Context) (out out' : List ℕ) (rets : List Ret)
    → calls self out max_frame [] ≡ some (rets, self', out')
    → (self' ≡ self) × (out' ≡ out)
unfolding calls
calls-nil self self' out out' rets e = (cc, cc)

module _ {S : Type 0} (malloc : ℕ → Option (List ℕ)) (kernel : Kernel S) where
  -- The callback for one part after the other.
  unfoldable pub receives : List (List ℕ) → EthSerial Context → S → Option (EthSerial Context × S)
  receives [] self s = some (self, s)
  receives (part ∷ parts) self s =
      recv_cb (slip_framing malloc) kernel part self s >>= λ r. receives parts r.0 r.1

  -- The driver with the deframer and the buffer as calls of `slip_deframer` leave them.
  abbrev pub with_deframed : EthSerial Context → Context → List ℕ → EthSerial Context
  with_deframed self state out = record self { deframer_state = state; buf_deframed = out }

  receives-calls :
      (parts : List (List ℕ)) (end : List ℕ) (self : EthSerial Context) (s s1 : S) (n : ℕ)
      (state' : Context) (out' msg msg' : List ℕ)
      → self.init_done ≡ true
      → calls self.deframer_state self.buf_deframed max_frame (parts ++ end ∷ [])
        ≡ some (map (λ _. ok 0) parts ++ ok (suc n) ∷ [], state', out')
      → kernel.mem_slab_alloc s ≡ (some msg, s1)
      → memcpy msg 0 out' 0 (suc n) ≡ some msg'
      → receives (parts ++ end ∷ []) self s
        ≡ some (
          with_deframed self state' out',
          kernel.fifo_put (record { len = u16 (suc n); msg = msg' }) s1,
        )
  unfolding receives
  receives-calls [] end self s s1 n state' out' msg msg' on e alloc copied =
      let (d1, out1, run, none_left) =
        calls-Split self.deframer_state self.buf_deframed end [] (ok (suc n)) [] state' out' e in
      let (same, same_out) = calls-nil d1 state' out1 out' [] none_left in
      let run' : deframer self.deframer_state end self.buf_deframed max_frame
          ≡ some (ok (suc n), state', out') =
        run ∙ ap₂ (λ d o. some (ok (suc n), d, o)) (sym same) (sym same_out) in
      rw (
        recv_cb_queued (slip_framing malloc) kernel end self s (ok (suc n), state', out') on run' n
          msg msg' s1 refl alloc copied)
  receives-calls (part ∷ parts) end self s s1 n state' out' msg msg' on e alloc copied =
      let (d1, out1, run, rest) =
        calls-Split self.deframer_state self.buf_deframed part (parts ++ end ∷ []) (ok 0)
          (map (λ _. ok 0) parts ++ ok (suc n) ∷ []) state' out' e in
      rw (recv_cb_nothing (slip_framing malloc) kernel part self s (ok 0, d1, out1) on run refl) (
        receives-calls parts end (with_deframed self d1 out1) s s1 n state' out' msg msg' on rest
          alloc copied)

  receives-frame_cons :
      (free : S → ℕ) (queue : S → List Item)
      → IsKernel kernel free queue
      → (x : ℕ) (xs noise : List ℕ) (parts : List (List ℕ)) (l : ℕ) (ls : List ℕ)
        (self : EthSerial Context) (s : S)
      → self.init_done ≡ true
      → 0 < free s
      → NoEnd noise
      → length (x ∷ xs) < max_frame
      → max_frame ≤ length self.buf_deframed
      → IsValid self.deframer_state.fifo
      → contents self.deframer_state.fifo ≡ []
      → self.deframer_state.state ≡ init
      → Fit self.deframer_state.fifo.depth parts
      → length (l ∷ ls) ≤ self.deframer_state.fifo.depth
      → concat parts ++ l ∷ ls ≡ noise ++ frame (x ∷ xs)
      → (self' : EthSerial Context) × (s' : S) × (behind : List ℕ) × (receives
            (parts ++ (l ∷ ls) ∷ [])
            self
            s
          ≡ some (self', s'))
        × (queue s' ≡ queue s ++ record { len = length (x ∷ xs); msg = (x ∷ xs) ++ behind } ∷ [])
        × (length ((x ∷ xs) ++ behind) ≡ max_frame)
        × (free s' + 1 ≡ free s)
        × (self'.deframer_state.state ≡ init)
        × (contents self'.deframer_state.fifo ≡ [])
        × IsValid self'.deframer_state.fifo
  receives-frame_cons free queue is x xs noise parts l ls self s on some_free clean short room v e
        st fit last whole =
      let (msg, s1, alloc, len, one, same) = is.alloc s some_free in
      let payload = x ∷ xs in
      let n = length payload in
      let (state', rest, run, st', c', v') =
        calls-frame max_frame (omega arith) payload noise parts l ls self.deframer_state
          self.buf_deframed clean short room v e st fit last whole in
      let copied : memcpy msg 0 (payload ++ rest) 0 n ≡ some (payload ++ drop n msg) =
        memcpy_lem msg 0 (payload ++ rest) 0 n (omega (arith, length-append payload rest))
          (omega arith)
        ∙ (let zn : 0 + n ≡ n = omega arith in
            ap (λ t. some (t ++ drop (0 + n) msg)) (take-append payload rest) ∙ rw zn) in
      let item : Item = record { len = n; msg = payload ++ drop n msg } in
      let n16 : u16 n ≡ n = omega arith in
      (
        with_deframed self state' (payload ++ rest),
        kernel.fifo_put item s1,
        drop n msg,
        receives-calls parts (l ∷ ls) self s s1 (length xs) state' (payload ++ rest) msg _ on run
              alloc copied
            ∙ ap
                (λ k. some (
                  with_deframed self state' (payload ++ rest),
                  kernel.fifo_put (record { len = k; msg = payload ++ drop n msg }) s1,
                ))
                n16,
        is.queue-put item s1 ∙ ap (λ q. q ++ item ∷ []) same,
        omega (arith, length-append payload (drop n msg), length-drop n msg),
        omega (arith, is.free-put item s1),
        st',
        c',
        v',
      )

  -- A frame that comes in parts is queued once, as the payload at the front of a block; the
  -- deframer is ready for the next one.
  pub receives-frame :
      (free : S → ℕ) (queue : S → List Item)
      → IsKernel kernel free queue
      → (payload noise : List ℕ) (parts : List (List ℕ)) (l : ℕ) (ls : List ℕ)
        (self : EthSerial Context) (s : S)
      → self.init_done ≡ true
      → 0 < free s
      → NoEnd noise
      → 0 < length payload
      → length payload < max_frame
      → max_frame ≤ length self.buf_deframed
      → IsValid self.deframer_state.fifo
      → contents self.deframer_state.fifo ≡ []
      → self.deframer_state.state ≡ init
      → Fit self.deframer_state.fifo.depth parts
      → length (l ∷ ls) ≤ self.deframer_state.fifo.depth
      → concat parts ++ l ∷ ls ≡ noise ++ frame payload
      → (self' : EthSerial Context) × (s' : S) × (behind : List ℕ) × (receives
            (parts ++ (l ∷ ls) ∷ [])
            self
            s
          ≡ some (self', s'))
        × (queue s' ≡ queue s ++ record { len = length payload; msg = payload ++ behind } ∷ [])
        × (length (payload ++ behind) ≡ max_frame)
        × (free s' + 1 ≡ free s)
        × (self'.deframer_state.state ≡ init)
        × (contents self'.deframer_state.fifo ≡ [])
        × IsValid self'.deframer_state.fifo
  receives-frame free queue is [] noise parts l ls self s on some_free clean pos =
      absurd (omega arith)
  receives-frame free queue is (x ∷ xs) noise parts l ls self s on some_free clean pos =
      receives-frame_cons free queue is x xs noise parts l ls self s on some_free clean
