-- ===== src/TraceRam.antt =====
-- modules/TraceRam: traces in a circular buffer, with its backend. The tracing core is a parameter,
-- with state `W`; the buffer is the static `traceram_circ`.
use zephyr_common.Common.{ℕ, Bool, Option, some, List, [], ◌∷◌, Ret, length}
use zephyr_common.Common.Memory.{◌>>=◌}
use zephyr_common.CircBuffer.{CircBuffer}
use zephyr_common.CircBuffer

pub record Tracing (W : Type 0) : Type 0 where
  pub is_tracing_enabled : W → Bool
  pub tracing_cmd_handle : List ℕ → W → W

pub record TraceRam (W : Type 0) : Type 0 where
  pub traceram_circ : CircBuffer
  pub core : W

-- The commands, with the zero that ends them.
abbrev enable_cmd : List ℕ
enable_cmd = 101 ∷ 110 ∷ 97 ∷ 98 ∷ 108 ∷ 101 ∷ 0 ∷ []

abbrev disable_cmd : List ℕ
disable_cmd = 100 ∷ 105 ∷ 115 ∷ 97 ∷ 98 ∷ 108 ∷ 101 ∷ 0 ∷ []

module _ {W : Type 0} (tracing : Tracing W) where
  unfoldable pub get_state : TraceRam W → Bool
  get_state self = tracing.is_tracing_enabled self.core

  unfoldable pub enable : TraceRam W → TraceRam W
  enable self = record self { core = tracing.tracing_cmd_handle enable_cmd self.core }

  unfoldable pub disable : TraceRam W → TraceRam W
  disable self = record self { core = tracing.tracing_cmd_handle disable_cmd self.core }

module _ {W : Type 0} where
  unfoldable pub get_count : TraceRam W → ℕ
  get_count self = CircBuffer.get_count self.traceram_circ

  unfoldable pub flush : TraceRam W → TraceRam W
  flush self = record self { traceram_circ = CircBuffer.flush self.traceram_circ }

  unfoldable pub read : TraceRam W → List ℕ → ℕ → Option (Ret × List ℕ × TraceRam W)
  read self buf size = CircBuffer.read self.traceram_circ buf size >>= λ r.
      some (r.0, r.1, record self { traceram_circ = r.2 })

  -- The backend: an error of the buffer is only logged. The length has 32 bits here, of which the
  -- parameter of `CircBuffer_write` takes 16.
  unfoldable pub ram_output : TraceRam W → List ℕ → ℕ → Option (TraceRam W)
  ram_output self bytes size = CircBuffer.write self.traceram_circ bytes size >>= λ r.
      some (record self { traceram_circ = r.1 })

  -- `depth` is CONFIG_TRACERAM_DEPTH, and `circbuf` is the static memory.
  unfoldable pub ram_init : (ℕ → Option (List ℕ)) → TraceRam W → ℕ → List ℕ → TraceRam W
  ram_init k_malloc self depth circbuf =
      let (ret, circ) =
        CircBuffer.init k_malloc self.traceram_circ depth (some circbuf) (length circbuf) in
      record self { traceram_circ = circ }
