-- ===== src/RtosUtilsRpc/Tests.antt =====
-- The report of two threads in a frame with room for one.
use zephyr_common.Common.{◌≡◌, [], ◌∷◌, none, some, arith}
use zephyr_common.RtosUtilsRpc.{
  pos, negsuc, Thread, ThreadInfo, Reply, describe, get_system_threads,
}
use zephyr_common.RtosUtilsRpc.Pages.{get_system_threads_first}

abbrev main : Thread
main = record {
  address = 64;
  name = 77 ∷ 78 ∷ [];
  thread_state = 8;
  prio = pos 0;
  runtime_stats = none;
  stack_size = 512;
  stack_space = some 100;
}

abbrev idle : Thread
idle = record main { address = 65; name = 73 ∷ []; prio = negsuc 0 }

abbrev empty : ThreadInfo
empty = record {
  name = [];
  tid = 0;
  state = 0;
  prio = pos 0;
  current_cycles = 0;
  peak_cycles = 0;
  avg_cycles = 0;
  total_cycles = 0;
  stack_size = 0;
  unused_stack = 0;
}

abbrev reply : Reply
reply = record {
  thread_info = empty ∷ [];
  thread_info_count = 0;
  total_cycles = 0;
  idx_start = 0;
  num_threads = 0;
}

-- Asked for the threads from the second on, the report shows the first again.
get_system_threads_first_example :
    get_system_threads (main ∷ idle ∷ []) (some 9) 16 1 reply
    ≡ some (record {
      thread_info = describe 16 main ∷ [];
      thread_info_count = 1;
      total_cycles = 9;
      idx_start = 1;
      num_threads = 2;
    })
get_system_threads_first_example =
    get_system_threads_first (main ∷ idle ∷ []) (some 9) 16 1 reply (omega arith)
