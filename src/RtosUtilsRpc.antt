-- ===== src/RtosUtilsRpc.antt =====
-- modules/RtosUtils/src/RtosUtilsRpc.c: the report on the threads of the system, built with
-- CONFIG_THREAD_RUNTIME_STATS and CONFIG_SCHED_THREAD_USAGE_ANALYSIS. The kernel's list of threads
-- and what it says of each of them are parameters.
pub mod Pages
mod Tests
use zephyr_common.Common.{
  ℕ, zero, suc, ◌+◌, ◌-◌, Option, none, some, List, [], ◌∷◌, ◌++◌, ◌==◌, leb, true, false, u8, Ret,
  ok, err, failed, length, take, replicate,
}
use zephyr_common.Common.Memory.{poke, ◌>>=◌}

-- A priority of the kernel is a signed byte: `negsuc n` is -1 - n.
pub data ℤ : Type 0 where
  pos negsuc : ℕ → ℤ

-- `k_thread_runtime_stats_t`
pub record Stats : Type 0 where
  pub current_cycles : ℕ
  pub peak_cycles : ℕ
  pub average_cycles : ℕ
  pub execution_cycles : ℕ

-- What the kernel says of a thread; `none` is an error code.
pub record Thread : Type 0 where
  pub address : ℕ
  pub name : List ℕ
  pub thread_state : ℕ
  pub prio : ℤ
  pub runtime_stats : Option Stats
  pub stack_size : ℕ
  pub stack_space : Option ℕ

-- `rtosutils_ThreadInfo`
pub record ThreadInfo : Type 0 where
  pub name : List ℕ
  pub tid : ℕ
  pub state : ℕ
  pub prio : ℤ
  pub current_cycles : ℕ
  pub peak_cycles : ℕ
  pub avg_cycles : ℕ
  pub total_cycles : ℕ
  pub stack_size : ℕ
  pub unused_stack : ℕ

pub record CtxObject : Type 0 where
  pub loop_idx : ℕ
  pub start_thread_idx : ℕ
  pub curr_thread_idx : ℕ
  pub max_reportable : ℕ
  pub name_max : ℕ
  pub thread_cnt : ℕ
  pub ret : Ret
  pub thread_info : List ThreadInfo

-- `strncpy` of `n` bytes: the characters, and zeros up to `n`.
abbrev pub strncpy : ℕ → List ℕ → List ℕ
strncpy n s = take n s ++ replicate (n - length s) 0

abbrev no_stats : Stats
no_stats = record { current_cycles = 0; peak_cycles = 0; average_cycles = 0; execution_cycles = 0 }

abbrev or_none : Option Stats → Stats
or_none none = no_stats
or_none (some stats) = stats

abbrev pub or_zero : Option ℕ → ℕ
or_zero none = 0
or_zero (some n) = n

-- What is written to an entry of the report.
unfoldable pub describe : ℕ → Thread → ThreadInfo
describe name_max thread = record {
  name = strncpy (name_max - 1) thread.name ++ 0 ∷ [];
  tid = thread.address;
  state = thread.thread_state;
  prio = thread.prio;
  current_cycles = (or_none thread.runtime_stats).current_cycles;
  peak_cycles = (or_none thread.runtime_stats).peak_cycles;
  avg_cycles = (or_none thread.runtime_stats).average_cycles;
  total_cycles = (or_none thread.runtime_stats).execution_cycles;
  stack_size = thread.stack_size;
  unused_stack = or_zero thread.stack_space;
}

-- The end of the callback.
abbrev pub iterate : CtxObject → CtxObject
iterate ctx = record ctx {
  curr_thread_idx = u8 (ctx.curr_thread_idx + 1);
  loop_idx = u8 (ctx.loop_idx + 1);
  ret = ok 0;
}

unfoldable pub thread_info_cb : Thread → CtxObject → Option CtxObject
unfolding describe
thread_info_cb thread ctx =
    let ctx' = record ctx { thread_cnt = u8 (ctx.thread_cnt + 1) } in
    elim (ctx.loop_idx == ctx.max_reportable) [
      | true ↦ some (record ctx' { ret = err failed })
      | false ↦ elim (leb ctx.start_thread_idx ctx.curr_thread_idx) [
        | true ↦ poke ctx.thread_info ctx.loop_idx (describe ctx.name_max thread) >>= λ infos.
            some (iterate (record ctx' { thread_info = infos }))
        | false ↦ some (iterate ctx')
      ]
    ]

-- `k_thread_foreach_unlocked`, which calls the callback for each thread.
unfoldable pub for_threads : List Thread → CtxObject → Option CtxObject
unfolding thread_info_cb
for_threads [] ctx = some ctx
for_threads (thread ∷ threads) ctx = thread_info_cb thread ctx >>= λ ctx'. for_threads threads ctx'

-- `rtosutils_GetSystemThreads_reply`
pub record Reply : Type 0 where
  pub thread_info : List ThreadInfo
  pub thread_info_count : ℕ
  pub total_cycles : ℕ
  pub idx_start : ℕ
  pub num_threads : ℕ

-- `reply` is the frame before the call, with the array of the report and the length of its names;
-- `all_stats` are the cycles of all threads.
unfoldable pub get_system_threads : List Thread → Option ℕ → ℕ → ℕ → Reply → Option Reply
unfolding for_threads
get_system_threads threads all_stats name_max idx_start reply =
    let ctx : CtxObject = record {
      loop_idx = 0;
      thread_cnt = 0;
      curr_thread_idx = u8 idx_start;
      start_thread_idx = u8 idx_start;
      max_reportable = u8 (length reply.thread_info);
      name_max = u8 name_max;
      ret = ok 0;
      thread_info = reply.thread_info;
    } in
    for_threads threads ctx >>= λ ctx'. some (record {
      thread_info = ctx'.thread_info;
      thread_info_count = ctx'.loop_idx;
      total_cycles = or_zero all_stats;
      idx_start = idx_start;
      num_threads = ctx'.thread_cnt;
    })
