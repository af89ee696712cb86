-- ===== src/EthSerial/Deliver.antt =====
-- A round of the thread for a frame in a block.
use zephyr_common.Common.{
  ℕ, ◌+◌, ◌-◌, ◌≤◌, ◌<◌, ◌^◌, ◌≡◌, refl, sym, ap, ◌∙◌, true, none, some, List, ◌∷◌, ◌++◌, ok, err,
  arith, length, take, drop, append_assoc, leb, false, take-append, take-add, length-append,
  length-take, length-drop, sub32,
}
use zephyr_common.Common.Memory.{memcpy, memcpy_lem}
use zephyr_common.EthSerial.{
  Item, Framing, Kernel, Stack, EthSerial, rx_thread, header_size, max_frame,
}
use zephyr_common.EthSerial.Pool.{IsKernel}
use zephyr_common.EthSerial.Branches.{System, delivered, rest_fault}

-- The copy of the header, and that of the rest, fill the buffer from its start.
two_copies :
    (buffer msg : List ℕ) (h n : ℕ)
    → h ≤ n
    → n ≤ length buffer
    → n ≤ length msg
    → (hdr full : List ℕ) × (memcpy buffer 0 msg 0 h ≡ some hdr)
      × (memcpy hdr h msg h (n - h) ≡ some full)
      × (take n full ≡ take n msg)
two_copies buffer msg h n le k l =
    let hdr = take h msg ++ drop (0 + h) buffer in
    let lh : length (take h msg) ≡ h = omega (arith, length-take h msg) in
    let total : length hdr ≡ length buffer =
      omega (arith, length-append (take h msg) (drop (0 + h) buffer), length-drop (0 + h) buffer) in
    let n2 : h + (n - h) ≡ n = omega arith in
    let front : take h hdr ≡ take h msg =
      ap (λ i. take i hdr) (sym lh) ∙ take-append (take h msg) (drop (0 + h) buffer) in
    let filled = take h msg ++ take (n - h) (drop h msg) in
    let whole : filled ≡ take n msg = sym (take-add h (n - h) msg) ∙ ap (λ i. take i msg) n2 in
    let rest = drop (h + (n - h)) hdr in
    let size : length (take n msg) ≡ n = omega (arith, length-take n msg) in
    (
      hdr,
      take h hdr ++ (take (n - h) (drop h msg) ++ rest),
      memcpy_lem buffer 0 msg 0 h (omega arith) (omega arith),
      memcpy_lem hdr h msg h (n - h) (omega arith) (omega arith),
      ap (take n) (
            ap (λ t. t ++ (take (n - h) (drop h msg) ++ rest)) front
            ∙ (sym (append_assoc (take h msg) (take (n - h) (drop h msg)) rest)
                ∙ ap (λ t. t ++ rest) whole))
          ∙ (ap (λ i. take i (take n msg ++ rest)) (sym size) ∙ take-append (take n msg) rest),
    )

module _ {W : Type 0} (stack : Stack W) where
  -- The network stack after it has been given a frame.
  abbrev pub given : List ℕ → W → W
  given payload w =
      let (ret, w') = stack.recv_data payload w in elim ret [ err r ↦ stack.unref w' | ok n ↦ w' ]

module _ {D S W : Type 0} (framing : Framing D) (kernel : Kernel S) (stack : Stack W) (free : S → ℕ)
    (queue : S → List Item) (is : IsKernel kernel free queue) where
  pub rx_thread-payload :
      (self : EthSerial D) (s : S) (w w1 w2 : W) (buffer payload behind : List ℕ)
      (items : List Item)
      → queue s ≡ record { len = length payload; msg = payload ++ behind } ∷ items
      → header_size ≤ length payload
      → length payload < 2 ^ 16
      → length payload ≤ length buffer
      → stack.rx_alloc w ≡ (true, w1)
      → stack.get_frag w1 ≡ (some buffer, w2)
      → (s' : S) × (rx_thread kernel stack s w ≡ some (s', given stack payload w2))
        × (queue s' ≡ items)
        × (free s' ≡ free s + 1)
  rx_thread-payload self s w w1 w2 buffer payload behind items q long small room pkt frag =
      let n = length payload in
      let item : Item = record { len = n; msg = payload ++ behind } in
      let (s1, got, left, same) = is.gets s item items q in
      let (hdr, full, first, second, front) =
        two_copies buffer (payload ++ behind) header_size n long room
          (omega (arith, length-append payload behind)) in
      let rest : sub32 n header_size ≡ n - header_size = omega arith in
      let sys : System D S W = record { driver = self; pool = s; net = w } in
      let whole : take n full ≡ payload = front ∙ take-append payload behind in
      let (ret, w3) = stack.recv_data (take n full) w2 in
      (
        kernel.mem_slab_free item.msg s1,
        delivered framing kernel stack sys item s1 got w1 pkt w2 buffer frag hdr first full ret w3
              (rw rest second) refl
            ∙ ap (λ bytes. some (kernel.mem_slab_free item.msg s1, given stack bytes w2)) whole,
        is.queue-freed item.msg s1 ∙ left,
        is.free-freed item.msg s1 ∙ ap (λ k. k + 1) same,
      )

  -- A frame shorter than an Ethernet header makes the thread copy outside the block.
  pub rx_thread_short :
      (self : EthSerial D) (s : S) (w w1 w2 : W) (buffer : List ℕ) (item : Item) (items : List Item)
      → queue s ≡ item ∷ items
      → length item.msg ≡ max_frame
      → item.len < header_size
      → header_size ≤ length buffer
      → stack.rx_alloc w ≡ (true, w1)
      → stack.get_frag w1 ≡ (some buffer, w2)
      → rx_thread kernel stack s w ≡ none
  rx_thread_short self s w w1 w2 buffer item items q block short room pkt frag =
      let (s1, got, left, same) = is.gets s item items q in
      let sys : System D S W = record { driver = self; pool = s; net = w } in
      let outside : leb (header_size + sub32 item.len header_size) (length item.msg) ≡ false =
        ground arith in
      rest_fault framing kernel stack sys item s1 got w1 pkt w2 buffer frag _
        (memcpy_lem buffer 0 item.msg 0 header_size (omega arith) (omega arith))
        (rw (memcpy, outside))
