-- ===== src/TcpRpcServer/Tests.antt =====
-- A request to a server with one handler.
use zephyr_common.Common.{
  ℕ, zero, suc, ◌*◌, ◌≡◌, refl, Option, none, some, List, [], ◌∷◌, ◌++◌, arith, replicate,
}
use zephyr_common.SwFifo.Valid.{contents}
use zephyr_common.PbGeneric.{unpack_delimited, pack_delimited}
use zephyr_common.ProtoRpc.{
  Handler, Outcome, success, zeroed, exec, query, call, callset_lookup, run_handler,
}
use zephyr_common.ProtoRpc.Tests.{headers, words, request, header_bytes}
use zephyr_common.Cobs.Chunks.{chunks, flatten}
use zephyr_common.Cobs.Zeros.{NonZero}
use zephyr_common.CobsFrame.{init}
use zephyr_common.CobsFrame.Frame.{frame}
use zephyr_common.CobsFrame.Tests.{idle, idle-IsIdle}
use zephyr_common.TcpSocket.Tests.{pairs, pairs-IsNet}
use zephyr_common.TcpRpcServer.{TcpRpcServer, rpc_callback}
use zephyr_common.TcpRpcServer.Request.{Sent, rpc_callback-Sent}

abbrev double : Handler ℕ (List ℕ)
double frame reply status w = (2 * frame, success, w)

abbrev resolver : ℕ → Option (Handler ℕ (List ℕ)) × ℕ
resolver zero = (none, 0)
resolver (suc n) = (some double, suc n)

abbrev server : TcpRpcServer ℕ ℕ (Unit {0}) (List ℕ)
server = record {
  rpc = record {
    callset_call_buf = 0;
    callset_reply_buf = 0;
    callsets =
        record { id = 7; resolver = resolver; fields = 5; info = record { id = 0; rest = tt } }
        ∷ [];
  };
  deframer = idle;
  rpc_rcv_msg = replicate 16 0;
  tcp_tx_buf = replicate 16 0;
}

abbrev payload : List ℕ
payload = header_bytes tt (request 7) ++ 21 ∷ []

abbrev reply : Outcome ℕ ℕ (Unit {0}) (List ℕ)
reply = exec headers words 3 server.rpc zeroed payload 16 []

rpc_callback-Sent_example :
    (server' : TcpRpcServer ℕ ℕ (Unit {0}) (List ℕ)) × (w' : List ℕ) × (rpc_callback pairs headers
        words 3 server zeroed 5
        ((7 ∷ []) ++ (frame payload ++ []))
        []
      ≡ some (1, server', w'))
    × Sent pairs (λ w. w) pairs-IsNet headers words 3 (frame reply.reply) reply.after w'
    × (server'.rpc ≡ reply.rpc)
    × (server'.deframer.state ≡ init)
    × (contents server'.deframer.fifo ≡ [])
unfolding chunks flatten exec query call callset_lookup run_handler unpack_delimited pack_delimited
    words
rpc_callback-Sent_example =
    rpc_callback-Sent pairs (λ w. w) pairs-IsNet headers words 3 server zeroed 5 (7 ∷ []) payload []
      [] idle-IsIdle (unfold NonZero in (refl, tt)) (omega arith) (omega arith) (omega arith)
      (omega arith) (omega arith) refl (omega arith) (omega arith) (omega arith)
