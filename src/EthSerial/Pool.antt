-- ===== src/EthSerial/Pool.antt =====
-- What the kernel documents of a slab and a fifo.
use zephyr_common.Common.{ℕ, ◌+◌, ◌<◌, ◌≡◌, List, [], ◌∷◌, ◌++◌, none, some, length}
use zephyr_common.EthSerial.{Item, Kernel, max_frame}

-- A block is given while one is free, a fifo gives the items in the order in which they were put,
-- and neither changes the other.
pub record IsKernel {S : Type 0} (kernel : Kernel S) (free : S → ℕ) (queue : S → List Item)
    : Type 0 where
  pub alloc :
      (s : S)
      → 0 < free s
      → (msg : List ℕ) × (s' : S) × (kernel.mem_slab_alloc s ≡ (some msg, s'))
        × (length msg ≡ max_frame)
        × (free s' + 1 ≡ free s)
        × (queue s' ≡ queue s)
  pub exhausted : (s : S) → free s ≡ 0 → kernel.mem_slab_alloc s ≡ (none, s)
  pub free-freed : (msg : List ℕ) (s : S) → free (kernel.mem_slab_free msg s) ≡ free s + 1
  pub queue-freed : (msg : List ℕ) (s : S) → queue (kernel.mem_slab_free msg s) ≡ queue s
  pub queue-put : (item : Item) (s : S) → queue (kernel.fifo_put item s) ≡ queue s ++ item ∷ []
  pub free-put : (item : Item) (s : S) → free (kernel.fifo_put item s) ≡ free s
  pub waits : (s : S) → queue s ≡ [] → kernel.fifo_get s ≡ none
  pub gets :
      (s : S) (item : Item) (items : List Item)
      → queue s ≡ item ∷ items
      → (s' : S) × (kernel.fifo_get s ≡ some (item, s')) × (queue s' ≡ items) × (free s' ≡ free s)
