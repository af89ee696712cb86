-- ===== src/SystemRpc.antt =====
-- modules/SystemRpc: the handlers of the system callset, built with CONFIG_TRACERAM. Each is given
-- the fields of its call and the reply frame before the call.
pub mod Drain
mod Tests
use zephyr_common.Common.{
  ℕ, zero, suc, Bool, true, false, Option, none, some, List, [], ◌∷◌, ◌==◌, leb, Ret, ok, err,
  length, if◌then◌else◌,
}
use zephyr_common.Common.Memory.{memcpy, ◌>>=◌}
use zephyr_common.ProtoRpc.{Status, success, handler_error}
use zephyr_common.TraceRam.{Tracing, TraceRam}
use zephyr_common.TraceRam

-- A `bytes` field of a reply: the array and the count.
pub record Bytes : Type 0 where
  pub array : List ℕ
  pub size : ℕ

-- `memory` is what can be read, by its address.
unfoldable pub dumpmem : List ℕ → ℕ → ℕ → Bytes → Option (Bytes × Status)
dumpmem memory address size mem = elim (leb size (length mem.array)) [
  | true ↦ memcpy mem.array 0 memory address size >>= λ array.
      some (record { array = array; size = size }, success)
  | false ↦ some (mem, handler_error)
]

pub record TraceRamStatus : Type 0 where
  pub state : Bool
  pub count : ℕ

pub record TraceReply : Type 0 where
  pub empty_on_read : Bool
  pub part : Bytes

module _ {W : Type 0} (tracing : Tracing W) where
  unfoldable pub gettraceramstatus : TraceRam W → TraceRamStatus × Status
  gettraceramstatus tr =
      (record { state = TraceRam.get_state tracing tr; count = TraceRam.get_count tr }, success)

  unfoldable pub enabletraceram : TraceRam W → Bool × Status × TraceRam W
  enabletraceram tr =
      let tr' = TraceRam.enable tracing tr in (TraceRam.get_state tracing tr', success, tr')

  -- `sleep` is `k_msleep`, in which the tracing thread runs.
  unfoldable pub disabletraceram :
      (ℕ → TraceRam W → TraceRam W) → TraceRam W → Bool × Status × TraceRam W
  disabletraceram sleep tr =
      let tr' = TraceRam.disable tracing (sleep 50 tr) in
      (TraceRam.get_state tracing tr', success, tr')

module _ {W : Type 0} where
  unfoldable pub getnexttraceram :
      ℕ → TraceReply → TraceRam W → Option (TraceReply × Status × TraceRam W)
  getnexttraceram max_size reply tr = elim (TraceRam.get_count tr == 0) [
    | true ↦
        some (record { empty_on_read = false; part = record reply.part { size = 0 } }, success, tr)
    | false ↦ TraceRam.read tr reply.part.array max_size >>= λ r. elim (r.0) [
      | err e ↦ some (
        record { empty_on_read = false; part = record { array = r.1; size = 0 } },
        handler_error,
        r.2,
      )
      | ok zero ↦ some (
        record { empty_on_read = false; part = record { array = r.1; size = 0 } },
        handler_error,
        r.2,
      )
      | ok (suc n) ↦ some (
        record {
          empty_on_read = TraceRam.get_count r.2 == 0;
          part = record { array = r.1; size = suc n };
        },
        success,
        r.2,
      )
    ]
  ]
