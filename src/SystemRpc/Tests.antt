-- ===== src/SystemRpc/Tests.antt =====
-- Tests of the system callset.
use zephyr_common.Common.{◌*◌, ◌≡◌, refl, Bool, true, [], ◌∷◌, some, arith, take, drop}
use zephyr_common.CircBuffer.{CircBuffer, count, inc_idx, circ_read}
use zephyr_common.CircBuffer
use zephyr_common.CircBuffer.Valid.{IsValid}
use zephyr_common.ProtoRpc.{success, handler_error}
use zephyr_common.TraceRam.{TraceRam}
use zephyr_common.TraceRam
use zephyr_common.SystemRpc.{TraceReply, dumpmem, getnexttraceram}
use zephyr_common.SystemRpc.Drain.{traces, collect, collect-traces}

-- The bytes 8, 9 and 4, round the end of the memory.
abbrev tr : TraceRam Bool
tr = record {
  traceram_circ = record { buf = 9 ∷ 4 ∷ 6 ∷ 8 ∷ []; buf_size = 3; wr_idx = 2; rd_idx = 3 };
  core = true;
}

abbrev reply : TraceReply
reply = record { empty_on_read = true; part = record { array = 0 ∷ 0 ∷ []; size = 0 } }

abbrev drained : TraceRam Bool
drained = record tr { traceram_circ = record tr.traceram_circ { rd_idx = 2 } }

last_call :
    getnexttraceram 2 reply (record tr { traceram_circ = record tr.traceram_circ { rd_idx = 1 } })
    ≡ some (
      record { empty_on_read = true; part = record { array = 4 ∷ 0 ∷ []; size = 1 } },
      success,
      drained,
    )
unfolding getnexttraceram TraceRam.get_count TraceRam.read CircBuffer.get_count CircBuffer.read
    count inc_idx circ_read
last_call = refl

dump_too_long :
    dumpmem (1 ∷ 2 ∷ 3 ∷ []) 0 3 (reply.part)
    ≡ some (record { array = 0 ∷ 0 ∷ []; size = 0 }, handler_error)
unfolding dumpmem
dump_too_long = refl

collect-traces_example :
    (reply' : TraceReply) × (tr' : TraceRam Bool) × (collect 2 2 reply tr
      ≡ some (take (2 * 2) (traces tr), reply', tr'))
    × (traces tr' ≡ drop (2 * 2) (traces tr))
    × IsValid tr'.traceram_circ
collect-traces_example = collect-traces 2 2 reply tr (omega arith) (omega arith) (omega arith)
