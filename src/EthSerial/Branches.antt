-- ===== src/EthSerial/Branches.antt =====
-- The branches of the receive callback and of a round of the thread.
use zephyr_common.Common.{
  ℕ, suc, ◌+◌, ◌≡◌, true, false, Option, none, some, List, [], ◌∷◌, Ret, ok, err, Errno, u16, sub32,
  take,
}
use zephyr_common.Common.Memory.{memcpy, ◌>>=◌}
use zephyr_common.EthSerial.{
  Item, Framing, Kernel, Stack, EthSerial, recv_cb, rx_item, rx_thread, header_size, max_frame,
}

pub data Event : Type 0 where
  received : List ℕ → Event
  round : Event

pub record System (D S W : Type 0) : Type 0 where
  pub driver : EthSerial D
  pub pool : S
  pub net : W

module _ {D S W : Type 0} (framing : Framing D) (kernel : Kernel S) (stack : Stack W) where
  unfoldable pub step : Event → System D S W → Option (System D S W)
  step (received buf) sys = recv_cb framing kernel buf sys.driver sys.pool >>= λ r.
      some (record sys { driver = r.0; pool = r.1 })
  step round sys =
      rx_thread kernel stack sys.pool sys.net >>= λ r. some (record sys { pool = r.0; net = r.1 })

  -- Whether the thread gets an item for which the stack has no packet or no buffer.
  unfoldable pub lost : Event → System D S W → ℕ
  lost (received buf) sys = 0
  lost round sys = elim (kernel.fifo_get sys.pool) [
    | none ↦ 0
    | some item ↦
        let (pkt, w) = stack.rx_alloc sys.net in
        elim pkt [ false ↦ 1 | true ↦ elim (stack.get_frag w).0 [ none ↦ 1 | some buffer ↦ 0 ] ]
  ]

  -- The system after the events, and the number of those in which an item is lost.
  unfoldable pub run : List Event → System D S W → Option (ℕ × System D S W)
  unfolding step lost
  run [] sys = some (0, sys)
  run (event ∷ events) sys =
      step event sys >>= λ sys1. run events sys1 >>= λ r. some (lost event sys + r.0, r.1)

module _ {D S : Type 0} (framing : Framing D) (kernel : Kernel S) where
  -- The branches of `recv_cb` for a result of the deframer.
  module _ (buf : List ℕ) (self : EthSerial D) (s : S) (r : Ret × D × List ℕ)
      (on : self.init_done ≡ true)
      (e : framing.deframer self.deframer_state buf self.buf_deframed max_frame ≡ some r) where
    pub recv_cb_error :
        (n : Errno)
        → r.0 ≡ err n
        → recv_cb framing kernel buf self s
          ≡ some (record self { deframer_state = r.1; buf_deframed = r.2 }, s)
    unfolding recv_cb
    recv_cb_error n size = rw (recv_cb, on, e, size, on)

    pub recv_cb_nothing :
        r.0 ≡ ok 0
        → recv_cb framing kernel buf self s
          ≡ some (record self { deframer_state = r.1; buf_deframed = r.2 }, s)
    unfolding recv_cb
    recv_cb_nothing size = rw (recv_cb, on, e, size, on)

    pub recv_cb_dropped :
        (n : ℕ) (s' : S)
        → r.0 ≡ ok (suc n)
        → kernel.mem_slab_alloc s ≡ (none, s')
        → recv_cb framing kernel buf self s
          ≡ some (record self { deframer_state = r.1; buf_deframed = r.2 }, s')
    unfolding recv_cb
    recv_cb_dropped n s' size full = rw (recv_cb, on, e, size, full, on, full)

    pub recv_cb_fault :
        (n : ℕ) (msg : List ℕ) (s' : S)
        → r.0 ≡ ok (suc n)
        → kernel.mem_slab_alloc s ≡ (some msg, s')
        → memcpy msg 0 r.2 0 (suc n) ≡ none
        → recv_cb framing kernel buf self s ≡ none
    unfolding recv_cb
    recv_cb_fault n msg s' size alloc outside = rw (recv_cb, on, e, size, alloc, outside)

    pub recv_cb_queued :
        (n : ℕ) (msg msg' : List ℕ) (s' : S)
        → r.0 ≡ ok (suc n)
        → kernel.mem_slab_alloc s ≡ (some msg, s')
        → memcpy msg 0 r.2 0 (suc n) ≡ some msg'
        → recv_cb framing kernel buf self s
          ≡ some (
            record self { deframer_state = r.1; buf_deframed = r.2 },
            kernel.fifo_put (record { len = u16 (suc n); msg = msg' }) s',
          )
    unfolding recv_cb
    recv_cb_queued n msg msg' s' size alloc copied =
        rw (recv_cb, on, e, size, alloc, copied, ◌>>=◌, on, alloc)

module _ {D S W : Type 0} (framing : Framing D) (kernel : Kernel S) (stack : Stack W) where
  -- A round of the thread for an item that it has got.
  module _ (sys : System D S W) (item : Item) (s1 : S)
      (got : kernel.fifo_get sys.pool ≡ some (item, s1)) where
    pub no_packet :
        (w1 : W)
        → stack.rx_alloc sys.net ≡ (false, w1)
        → (rx_thread kernel stack sys.pool sys.net ≡ some (s1, w1))
          × (lost framing kernel stack round sys ≡ 1)
    unfolding rx_thread rx_item lost
    no_packet w1 pkt = (rw (rx_thread, got, rx_item, pkt, pkt), rw (lost, got, pkt))

    module _ (w1 : W) (pkt : stack.rx_alloc sys.net ≡ (true, w1)) where
      pub no_buffer :
          (w2 : W)
          → stack.get_frag w1 ≡ (none, w2)
          → (rx_thread kernel stack sys.pool sys.net ≡ some (s1, stack.unref w2))
            × (lost framing kernel stack round sys ≡ 1)
      unfolding rx_thread rx_item lost
      no_buffer w2 frag =
          (rw (rx_thread, got, rx_item, pkt, pkt, frag, pkt, frag), rw (lost, got, pkt, pkt, frag))

      module _ (w2 : W) (buffer : List ℕ) (frag : stack.get_frag w1 ≡ (some buffer, w2)) where
        pub none_lost : lost framing kernel stack round sys ≡ 0
        unfolding lost
        none_lost = rw (lost, got, pkt, pkt, frag)

        pub header_fault :
            memcpy buffer 0 item.msg 0 header_size ≡ none
            → rx_thread kernel stack sys.pool sys.net ≡ none
        unfolding rx_thread rx_item
        header_fault e = rw (rx_thread, got, rx_item, pkt, pkt, frag, e)

        module _ (hdr : List ℕ) (e : memcpy buffer 0 item.msg 0 header_size ≡ some hdr) where
          pub rest_fault :
              memcpy hdr header_size item.msg header_size (sub32 item.len header_size) ≡ none
              → rx_thread kernel stack sys.pool sys.net ≡ none
          unfolding rx_thread rx_item
          rest_fault e2 = rw (rx_thread, got, rx_item, pkt, pkt, frag, e, ◌>>=◌, e2)

          pub delivered :
              (full : List ℕ) (ret : Ret) (w3 : W)
              → memcpy hdr header_size item.msg header_size (sub32 item.len header_size) ≡ some full
              → stack.recv_data (take item.len full) w2 ≡ (ret, w3)
              → rx_thread kernel stack sys.pool sys.net
                ≡ some (
                  kernel.mem_slab_free item.msg s1,
                  elim ret [ err r ↦ stack.unref w3 | ok n ↦ w3 ],
                )
          unfolding rx_thread rx_item
          delivered full (ok n) w3 e2 taken = rw (
            rx_thread, got, rx_item, pkt, pkt, frag, e, ◌>>=◌, e2, ◌>>=◌, pkt, frag, taken, pkt,
            frag, taken,
          )
          delivered full (err r) w3 e2 taken = rw (
            rx_thread, got, rx_item, pkt, pkt, frag, e, ◌>>=◌, e2, ◌>>=◌, pkt, frag, taken, pkt,
            frag, taken,
          )
