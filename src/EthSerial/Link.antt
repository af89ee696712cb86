-- ===== src/EthSerial/Link.antt =====
-- From one driver to another, with SLIP framing.
use zephyr_common.Common.{
  ℕ, ◌≤◌, ◌<◌, ◌^◌, ◌≡◌, ap, ◌∙◌, true, some, List, [], ◌∷◌, ◌++◌, ok, arith, length, Option,
}
use zephyr_common.SwFifo.Valid.{IsValid, contents}
use zephyr_common.Slip.{Context, init}
use zephyr_common.Slip.Frame.{frame}
use zephyr_common.Slip.Stream.{NoEnd}
use zephyr_common.Slip.Parts.{concat, Fit}
use zephyr_common.EthSerial.{
  Item, Kernel, Stack, EthSerial, send, rx_thread, max_frame, header_size,
}
use zephyr_common.EthSerial.Pool.{IsKernel}
use zephyr_common.EthSerial.Send.{slip_framing, send-frame}
use zephyr_common.EthSerial.Receive.{receives, receives-frame}
use zephyr_common.EthSerial.Deliver.{given, rx_thread-payload}

-- A receiver with a block left and nothing queued, between frames.
pub record IsReady {S : Type 0} (free : S → ℕ) (queue : S → List Item) (self : EthSerial Context)
    (s : S) : Type 0 where
  pub on : self.init_done ≡ true
  pub some_free : 0 < free s
  pub none_queued : queue s ≡ []
  pub room : max_frame ≤ length self.buf_deframed
  pub valid : IsValid self.deframer_state.fifo
  pub empty : contents self.deframer_state.fifo ≡ []
  pub idle : self.deframer_state.state ≡ init

module _ {S W : Type 0} (malloc : ℕ → Option (List ℕ)) (kernel : Kernel S) (stack : Stack W)
    (free : S → ℕ) (queue : S → List Item) (is : IsKernel kernel free queue) where
  -- What `eth_serial_send` of a packet gives to the serial port, behind noise without END and cut
  -- into any parts that fit the fifo, the last not empty, the receive callbacks and one round of
  -- the thread of another driver hand to the network stack as one frame with the bytes of the
  -- packet. Its block is free again, and the driver is ready for the next frame. The packet has an
  -- Ethernet header, is shorter than the largest frame of the driver and fits the buffers, and the
  -- stack has a packet with room for it.
  pub link-frame :
      (sender self : EthSerial Context) (frag : List ℕ) (frags : List (List ℕ)) (noise : List ℕ)
      (parts : List (List ℕ)) (l : ℕ) (ls buffer : List ℕ) (s : S) (w w1 w2 : W)
      → let payload = concat (frag ∷ frags) in
        length payload ≤ length sender.pktbuf_aggregate
        → length sender.pktbuf_aggregate < 2 ^ 16
        → length (frame payload) ≤ length sender.buf_framed
        → length sender.buf_framed < 2 ^ 32
        → header_size ≤ length payload
        → length payload < max_frame
        → length payload ≤ length buffer
        → IsReady free queue self s
        → NoEnd noise
        → Fit self.deframer_state.fifo.depth parts
        → length (l ∷ ls) ≤ self.deframer_state.fifo.depth
        → concat parts ++ l ∷ ls ≡ noise ++ frame payload
        → stack.rx_alloc w ≡ (true, w1)
        → stack.get_frag w1 ≡ (some buffer, w2)
        → (sender' self' : EthSerial Context) × (s' s'' : S) × (send
              (slip_framing malloc)
              sender
              (frag ∷ frags)
            ≡ some (ok 0, sender', frame payload))
          × (receives malloc kernel (parts ++ (l ∷ ls) ∷ []) self s ≡ some (self', s'))
          × (rx_thread kernel stack s' w ≡ some (s'', given stack payload w2))
          × (free s'' ≡ free s)
          × (queue s'' ≡ [])
          × (self'.deframer_state.state ≡ init)
          × (contents self'.deframer_state.fifo ≡ [])
          × IsValid self'.deframer_state.fifo
  link-frame sender self frag frags noise parts l ls buffer s w w1 w2 fits small framed wide long
        short room ready clean fit last whole pkt frag_buffer =
      let payload = concat (frag ∷ frags) in
      let (sender', sends) = send-frame malloc sender frag frags fits small framed wide in
      let (self', s', behind, run, q, size, fewer, st, c, v) =
        receives-frame malloc kernel free queue is payload noise parts l ls self s ready.on
          ready.some_free clean (omega arith) short ready.room ready.valid ready.empty ready.idle
          fit last whole in
      let one_queued : queue s' ≡ record { len = length payload; msg = payload ++ behind } ∷ [] =
        q
        ∙ ap (λ items. items ++ record { len = length payload; msg = payload ++ behind } ∷ [])
            ready.none_queued in
      let (s'', round, left, more) =
        rx_thread-payload (slip_framing malloc) kernel stack free queue is self' s' w w1 w2 buffer
          payload behind [] one_queued long (omega arith) room pkt frag_buffer in
      (sender', self', s', s'', sends, run, round, more ∙ fewer, left, st, c, v)
