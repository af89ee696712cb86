-- ===== src/EthSerial/Blocks.antt =====
-- Where the blocks of `rx_pool` are, over any interleaving of the receive callback and the thread.
use zephyr_common.Common.{
  ℕ, zero, suc, ◌+◌, ◌≡◌, ◌⊎◌, refl, ap, inl, inr, Bool, true, false, Bool-cases, Option, none,
  some, Option-cases, List, [], ◌∷◌, Ret, ok, err, Errno, arith, length, length-append, u16, sub32,
  take, ltb, ltb→lt,
}
use zephyr_common.Common.Memory.{memcpy, AllSome, bind-AllSome}
use zephyr_common.EthSerial.{
  Item, Framing, Kernel, Stack, EthSerial, recv_cb, rx_thread, header_size, max_frame,
}
use zephyr_common.EthSerial.Pool.{IsKernel}
use zephyr_common.EthSerial.Branches.{
  Event, received, round, System, step, lost, run, recv_cb_error, recv_cb_nothing, recv_cb_dropped,
  recv_cb_fault, recv_cb_queued, no_packet, no_buffer, none_lost, header_fault, rest_fault,
  delivered,
}

Ret-cases : (r : Ret) → (r ≡ ok 0) ⊎ ((n : ℕ) × (r ≡ ok (suc n))) ⊎ ((e : Errno) × (r ≡ err e))
Ret-cases (ok zero) = inl refl
Ret-cases (ok (suc n)) = inr (inl (n, refl))
Ret-cases (err e) = inr (inr (e, refl))

module _ {D S W : Type 0} (framing : Framing D) (kernel : Kernel S) (stack : Stack W) (free : S → ℕ)
    (queue : S → List Item) (is : IsKernel kernel free queue) where
  abbrev pub blocks : S → ℕ
  blocks s = free s + length (queue s)

  abbrev Keeps : S → Option (EthSerial D × S) → Type 0
  Keeps s = AllSome (λ (r : EthSerial D × S). blocks r.1 ≡ blocks s)

  -- The callback for a result of the deframer.
  module _ (buf : List ℕ) (self : EthSerial D) (s : S) (r : Ret × D × List ℕ)
      (on : self.init_done ≡ true)
      (e : framing.deframer self.deframer_state buf self.buf_deframed max_frame ≡ some r) where
    recv_cb-Keeps_size : (n : ℕ) → r.0 ≡ ok (suc n) → Keeps s (recv_cb framing kernel buf self s)
    recv_cb-Keeps_size n size = elim (Bool-cases (ltb 0 (free s))) [
      | inr none_free ↦
          rw
            (recv_cb_dropped framing kernel buf self s r on e n s size
              (is.exhausted s (ground arith)))
            refl
      | inl some_free ↦
          let (msg, s1, alloc, len, one, same) = is.alloc s (ltb→lt 0 (free s) some_free) in
          elim (Option-cases (memcpy msg 0 r.2 0 (suc n))) [
            | inl outside ↦
                rw (recv_cb_fault framing kernel buf self s r on e n msg s1 size alloc outside) tt
            | inr (msg', copied) ↦
                let item : Item = record { len = u16 (suc n); msg = msg' } in
                rw (recv_cb_queued framing kernel buf self s r on e n msg msg' s1 size alloc copied)
                  (omega (
                    arith,
                    is.free-put item s1,
                    ap length (is.queue-put item s1),
                    length-append (queue s1) (item ∷ []),
                    ap length same,
                  ))
          ]
    ]

    recv_cb-Keeps_deframed : Keeps s (recv_cb framing kernel buf self s)
    recv_cb-Keeps_deframed = elim (Ret-cases (r.0)) [
      | inl none_yet ↦ rw (recv_cb_nothing framing kernel buf self s r on e none_yet) refl
      | inr (inl (n, size)) ↦ recv_cb-Keeps_size n size
      | inr (inr (n, bad)) ↦ rw (recv_cb_error framing kernel buf self s r on e n bad) refl
    ]

  recv_cb-Keeps :
      (buf : List ℕ) (self : EthSerial D) (s : S) → Keeps s (recv_cb framing kernel buf self s)
  unfolding recv_cb
  recv_cb-Keeps buf self s = elim (Bool-cases (self.init_done)) [
    | inr off ↦ rw (recv_cb, off) refl
    | inl on ↦
        elim (Option-cases (framing.deframer self.deframer_state buf self.buf_deframed max_frame)) [
          | inl fault ↦ rw (recv_cb, on, fault) tt
          | inr (r, e) ↦ recv_cb-Keeps_deframed buf self s r on e
        ]
  ]

  abbrev Counts : System D S W → Option (S × W) → Type 0
  Counts sys =
      AllSome (λ (r : S × W). blocks r.0 + lost framing kernel stack round sys ≡ blocks sys.pool)

  module _ (sys : System D S W) (item : Item) (s1 : S)
      (got : kernel.fifo_get sys.pool ≡ some (item, s1))
      (fewer : blocks s1 + 1 ≡ blocks sys.pool) where
    given_back : blocks (kernel.mem_slab_free item.msg s1) ≡ blocks sys.pool
    given_back =
        omega (arith, fewer, is.free-freed item.msg s1, ap length (is.queue-freed item.msg s1))

    rx_thread-Counts_buffer :
        (w1 w2 : W) (buffer : List ℕ)
        → stack.rx_alloc sys.net ≡ (true, w1)
        → stack.get_frag w1 ≡ (some buffer, w2)
        → Counts sys (rx_thread kernel stack sys.pool sys.net)
    rx_thread-Counts_buffer w1 w2 buffer pkt frag =
        elim (Option-cases (memcpy buffer 0 item.msg 0 header_size)) [
          | inl fault ↦
              rw (header_fault framing kernel stack sys item s1 got w1 pkt w2 buffer frag fault) tt
          | inr (hdr, e1) ↦
              elim (Option-cases
                (memcpy hdr header_size item.msg header_size (sub32 item.len header_size))) [
                  | inl fault ↦
                      rw
                        (rest_fault framing kernel stack sys item s1 got w1 pkt w2 buffer frag hdr
                          e1 fault)
                        tt
                  | inr (full, e2) ↦
                      let (ret, w3) = stack.recv_data (take item.len full) w2 in
                      let taken : stack.recv_data (take item.len full) w2 ≡ (ret, w3) = refl in
                      rw
                        (delivered framing kernel stack sys item s1 got w1 pkt w2 buffer frag hdr e1
                          full ret w3 e2 taken)
                        (omega (
                          arith,
                          given_back,
                          none_lost framing kernel stack sys item s1 got w1 pkt w2 buffer frag,
                        ))
                ]
        ]

    rx_thread-Counts_item : Counts sys (rx_thread kernel stack sys.pool sys.net)
    rx_thread-Counts_item = split (stack.rx_alloc sys.net) refl
      where
        split_frag :
            (w1 : W)
            → stack.rx_alloc sys.net ≡ (true, w1)
            → (f : Option (List ℕ) × W) → stack.get_frag w1 ≡ f
            → Counts sys (rx_thread kernel stack sys.pool sys.net)
        split_frag w1 pkt (some buffer, w2) frag = rx_thread-Counts_buffer w1 w2 buffer pkt frag
        split_frag w1 pkt (none, w2) frag =
            let (run, one) = no_buffer framing kernel stack sys item s1 got w1 pkt w2 frag in
            rw run (omega (arith, one, fewer))

        split :
            (p : Bool × W)
            → stack.rx_alloc sys.net ≡ p
            → Counts sys (rx_thread kernel stack sys.pool sys.net)
        split (false, w1) pkt =
            let (run, one) = no_packet framing kernel stack sys item s1 got w1 pkt in
            rw run (omega (arith, one, fewer))
        split (true, w1) pkt = split_frag w1 pkt (stack.get_frag w1) refl

  waiting :
      (sys : System D S W)
      → queue sys.pool ≡ []
      → (rx_thread kernel stack sys.pool sys.net ≡ some (sys.pool, sys.net))
        × (lost framing kernel stack round sys ≡ 0)
  unfolding rx_thread lost
  waiting sys empty =
      let none_queued = is.waits sys.pool empty in
      (rw (rx_thread, none_queued), rw (lost, none_queued))

  rx_thread-Counts : (sys : System D S W) → Counts sys (rx_thread kernel stack sys.pool sys.net)
  rx_thread-Counts sys = split (queue sys.pool) refl
    where
      split :
          (items : List Item)
          → queue sys.pool ≡ items
          → Counts sys (rx_thread kernel stack sys.pool sys.net)
      split [] empty = let (run, zero_lost) = waiting sys empty in rw run (omega (arith, zero_lost))
      split (item ∷ items) q =
          let (s1, got, left, same) = is.gets sys.pool item items q in
          rx_thread-Counts_item sys item s1 got (omega (arith, same, ap length left, ap length q))

  step-blocks :
      (event : Event) (sys : System D S W)
      → AllSome
          (λ (sys' : System D S W).
            blocks sys'.pool + lost framing kernel stack event sys ≡ blocks sys.pool)
          (step framing kernel stack event sys)
  unfolding step lost
  step-blocks (received buf) sys =
      bind-AllSome _ _ (recv_cb framing kernel buf sys.driver sys.pool) _
        (recv_cb-Keeps buf sys.driver sys.pool) (λ r kept. omega (arith, kept))
  step-blocks round sys =
      bind-AllSome _ _ (rx_thread kernel stack sys.pool sys.net) _ (rx_thread-Counts sys)
        (λ r counted. counted)

  -- In any interleaving of received bytes and rounds of the thread, as long as no access leaves an
  -- array, the blocks that are free or queued become fewer by one for each item for which the stack
  -- had no packet or no buffer, and only by those: such a block is never given back.
  pub run-blocks :
      (events : List Event) (sys : System D S W)
      → AllSome
          (λ (r : ℕ × System D S W). blocks r.1.pool + r.0 ≡ blocks sys.pool)
          (run framing kernel stack events sys)
  unfolding run
  run-blocks [] sys = omega arith
  run-blocks (event ∷ events) sys =
      bind-AllSome _ _ (step framing kernel stack event sys) _ (step-blocks event sys)
        (λ sys1 first.
          bind-AllSome _ _ (run framing kernel stack events sys1) _ (run-blocks events sys1)
            (λ r later. omega (arith, first, later)))
