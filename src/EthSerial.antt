-- ===== src/EthSerial.antt =====
-- drivers/net/eth_serial: Ethernet frames over a serial port. The framing is that of SLIP or of
-- COBS, with a deframer of type `D`. The kernel's slab and fifo, with state `S`, and the network
-- stack, with state `W`, are parameters. The static buffers are fields of the driver.
pub mod Pool
pub mod Branches
pub mod Blocks
pub mod Send
pub mod Receive
pub mod Deliver
pub mod Link
mod Tests
use zephyr_common.Common.{
  ℕ, zero, suc, ◌+◌, ◌*◌, Bool, true, false, Option, none, some, List, [], ◌∷◌, ◌++◌, u16, sub32,
  Ret, ok, err, failed, enodata, length, take, set,
}
use zephyr_common.Common.Memory.{memcpy, poke, ◌>>=◌}

-- MAX_ETHERNET_FRAME_SIZE
abbrev pub max_frame : ℕ
max_frame = 1500 + 18

-- sizeof(struct net_eth_hdr)
abbrev pub header_size : ℕ
header_size = 14

pub record Item : Type 0 where
  pub len : ℕ
  pub msg : List ℕ

-- The framing that the driver is built with.
pub record Framing (D : Type 0) : Type 0 where
  pub framer : List ℕ → List ℕ → ℕ → Option (Ret × List ℕ)
  pub deframer : D → List ℕ → List ℕ → ℕ → Option (Ret × D × List ℕ)
  pub deframer_init : D → ℕ → Ret × D

-- `rx_pool` and `rx_fifo`. A block is its array `msg`; where none is free there is no block, and
-- where nothing is queued a thread waits.
pub record Kernel (S : Type 0) : Type 0 where
  pub mem_slab_alloc : S → Option (List ℕ) × S
  pub mem_slab_free : List ℕ → S → S
  pub fifo_put : Item → S → S
  pub fifo_get : S → Option (Item × S)

-- A packet is the array of its buffer; `net_recv_data` gets the bytes up to its length.
pub record Stack (W : Type 0) : Type 0 where
  pub rx_alloc : W → Bool × W
  pub get_frag : W → Option (List ℕ) × W
  pub recv_data : List ℕ → W → Ret × W
  pub unref : W → W

pub record EthSerial (D : Type 0) : Type 0 where
  pub init_done : Bool
  pub mac_addr : List ℕ
  pub deframer_state : D
  pub buf_deframed : List ℕ
  pub buf_framed : List ℕ
  pub pktbuf_aggregate : List ℕ

module _ {D S : Type 0} (framing : Framing D) (kernel : Kernel S) where
  -- The driver and the kernel after it; the offset is always set to 0.
  unfoldable pub recv_cb : List ℕ → EthSerial D → S → Option (EthSerial D × S)
  recv_cb buf self s = elim (self.init_done) [
    | false ↦ some (self, s)
    | true ↦ framing.deframer self.deframer_state buf self.buf_deframed max_frame >>= λ r.
        let self' = record self { deframer_state = r.1; buf_deframed = r.2 } in
        elim (r.0) [
          | err e ↦ some (self', s)
          | ok zero ↦ some (self', s)
          | ok (suc n) ↦
              let (item, s') = kernel.mem_slab_alloc s in
              elim item [
                | none ↦ some (self', s')
                | some msg ↦ memcpy msg 0 self'.buf_deframed 0 (suc n) >>= λ msg'.
                    some (self', kernel.fifo_put (record { len = u16 (suc n); msg = msg' }) s')
              ]
        ]
  ]

-- The inner loop of `eth_serial_send`.
unfoldable pub gather_bytes : List ℕ → ℕ → List ℕ → Option (ℕ × List ℕ)
gather_bytes [] k aggregate = some (k, aggregate)
gather_bytes (b ∷ bytes) k aggregate =
    poke aggregate k b >>= λ aggregate'. gather_bytes bytes (u16 (k + 1)) aggregate'

-- The loop over the fragments.
unfoldable pub gather : List (List ℕ) → ℕ → List ℕ → Option (ℕ × List ℕ)
unfolding gather_bytes
gather [] k aggregate = some (k, aggregate)
gather (frag ∷ frags) k aggregate = gather_bytes frag k aggregate >>= λ r. gather frags r.0 r.1

module _ {D : Type 0} (framing : Framing D) where
  -- With the bytes that `uart_pipe_send` is given.
  unfoldable pub send : EthSerial D → List (List ℕ) → Option (Ret × EthSerial D × List ℕ)
  unfolding gather
  send self [] = some (err enodata, self, [])
  send self (frag ∷ frags) = gather (frag ∷ frags) 0 self.pktbuf_aggregate >>= λ r.
      framing.framer (take r.0 r.1) self.buf_framed (length self.buf_framed) >>= λ framed.
      let self' = record self { pktbuf_aggregate = r.1; buf_framed = framed.1 } in
      elim (framed.0) [
        | err e ↦ some (ok 0, self', [])
        | ok zero ↦ some (ok 0, self', [])
        | ok (suc n) ↦ some (ok 0, self', take (suc n) framed.1)
      ]

  -- Behind it the driver only registers `recv_cb` and starts `rx_thread`.
  unfoldable pub eth_serial_init : EthSerial D → Ret × EthSerial D
  eth_serial_init self =
      let (ret, state) = framing.deframer_init self.deframer_state 2048 in
      let self' = record self { deframer_state = state } in
      elim ret [ err e ↦ (err failed, self') | ok n ↦ (ok 0, self') ]

  -- `rand8` is `sys_rand8_get`.
  unfoldable pub iface_init : ℕ → EthSerial D → EthSerial D
  iface_init rand8 self = elim (self.init_done) [
    | true ↦ self
    | false ↦ record self {
      mac_addr = 0x00 ∷ 0x00 ∷ 0x5E ∷ 0x00 ∷ 0x53 ∷ rand8 ∷ [];
      init_done = true;
    }
  ]

module _ {S W : Type 0} (kernel : Kernel S) (stack : Stack W) where
  -- A round of `rx_thread` for an item that it has got.
  unfoldable pub rx_item : Item → S → W → Option (S × W)
  rx_item item s w =
      let (pkt, w1) = stack.rx_alloc w in
      elim pkt [
        | false ↦ some (s, w1)
        | true ↦
            let (pkt_buf, w2) = stack.get_frag w1 in
            elim pkt_buf [
              | none ↦ some (s, stack.unref w2)
              | some buffer ↦ memcpy buffer 0 item.msg 0 header_size >>= λ hdr.
                  memcpy hdr header_size item.msg header_size (sub32 item.len header_size)
                  >>= λ full.
                      let (ret, w3) = stack.recv_data (take item.len full) w2 in
                      let s' = kernel.mem_slab_free item.msg s in
                      elim ret [ err e ↦ some (s', stack.unref w3) | ok n ↦ some (s', w3) ]
            ]
      ]

  -- A round of `rx_thread`; while nothing is queued it waits.
  unfoldable pub rx_thread : S → W → Option (S × W)
  unfolding rx_item
  rx_thread s w = elim (kernel.fifo_get s) [
    | none ↦ some (s, w)
    | some (item, s') ↦ rx_item item s' w
  ]
