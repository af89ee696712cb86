-- ===== src/TcpRpcServer.antt =====
-- modules/TcpRpcServer: calls of procedures in COBS frames over a TCP connection. The buffers are
-- static: those for a request and for what is sent are state here, the reply is what the call of
-- ProtoRpc_exec leaves. The state `W` is that of the network stack and of the handlers.
pub mod Request
mod Tests
use zephyr_common.Common.{
  ℕ, zero, suc, Bool, true, false, Option, none, some, List, [], ◌==◌, ltb, u16, Ret, ok, err,
  length, take, if◌then◌else◌,
}
use zephyr_common.Common.Memory.{◌>>=◌}
use zephyr_common.PbGeneric.{Codec}
use zephyr_common.ProtoRpc.{Header, ProtoRpc, exec}
use zephyr_common.CobsFrame.{Deframer, deframer, framer}
use zephyr_common.TcpSocket.{Net, write}

pub record TcpRpcServer (F M I W : Type 0) : Type 0 where
  pub rpc : ProtoRpc F M I W
  pub deframer : Deframer
  pub rpc_rcv_msg : List ℕ
  pub tcp_tx_buf : List ℕ

module _ {F M I W : Type 0} (net : Net W) (headers : Codec (Unit {0}) (Header I))
    (codec : Codec F M) (max_info : ℕ) where
  -- What follows a reply of `size` bytes.
  unfoldable pub send_reply :
      TcpRpcServer F M I W → ℕ → List ℕ → ℕ → W → Option (TcpRpcServer F M I W × W)
  send_reply server sock reply size w = elim (ltb 0 size) [
    | false ↦ some (server, w)
    | true ↦ framer (take size reply) server.tcp_tx_buf (length server.tcp_tx_buf) >>= λ framed.
        let server' = record server { tcp_tx_buf = framed.1 } in
        elim (framed.0) [
          | err e ↦ some (server', w)
          | ok framed_size ↦ write net sock (take framed_size framed.1) (u16 framed_size) w >>= λ r.
              some (server', r.1)
        ]
  ]

  -- `local` is the header on the stack as it is found. The first part of the result is `finished`.
  -- A negative size, which the deframer never returns, would be taken as that of the request.
  unfoldable pub rpc_callback :
      TcpRpcServer F M I W → Header I → ℕ → List ℕ → W → Option (ℕ × TcpRpcServer F M I W × W)
  rpc_callback server local sock buf w = elim (ltb 0 (length buf)) [
    | false ↦ some (1, server, w)
    | true ↦ deframer server.deframer buf server.rpc_rcv_msg (length server.rpc_rcv_msg) >>= λ r.
        let server1 = record server { deframer = r.1; rpc_rcv_msg = r.2 } in
        elim (r.0) [
          | err e ↦ none
          | ok raw_msg_size ↦ elim (raw_msg_size == 0) [
            | true ↦ some (1, server1, w)
            | false ↦
                let out =
                  exec headers codec max_info server1.rpc local
                    (take raw_msg_size server1.rpc_rcv_msg) (length server.rpc_rcv_msg) w in
                send_reply (record server1 { rpc = out.rpc }) sock out.reply out.size out.after
                >>= λ s. some (1, s.0, s.1)
          ]
        ]
  ]
