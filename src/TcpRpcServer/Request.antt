-- ===== src/TcpRpcServer/Request.antt =====
-- A request that arrives as a frame is answered by the frame of the reply.
use zephyr_common.Common.{
  ℕ, ◌≤◌, ◌<◌, ◌^◌, ◌≡◌, ◌⊎◌, refl, ◌∙◌, inl, inr, true, false, Option, some, List, ◌++◌, arith,
  length, take, drop, take-append, take_all, length-append, ltb, ◌==◌, Ret, ok, err, u16,
}
use zephyr_common.Common.Memory.{◌>>=◌}
use zephyr_common.PbGeneric.{Codec}
use zephyr_common.ProtoRpc.{Header, exec}
use zephyr_common.SwFifo.Valid.{contents}
use zephyr_common.Cobs.Zeros.{NonZero}
use zephyr_common.CobsFrame.{init, framer}
use zephyr_common.CobsFrame.Frame.{encoding, frame, length-frame, framer-encoding}
use zephyr_common.CobsFrame.Call.{IsIdle, deframer-frame}
use zephyr_common.TcpSocket.{Net}
use zephyr_common.TcpSocket.Whole.{IsNet, Writes, write-Writes}
use zephyr_common.TcpRpcServer.{TcpRpcServer, send_reply, rpc_callback}

module _ {F M I W : Type 0} (net : Net W) (sent : W → List ℕ) (is_net : IsNet net sent)
    (headers : Codec (Unit {0}) (Header I)) (codec : Codec F M) (max_info : ℕ) where
  -- The peer has got all of `bytes`, or a part of them before an error.
  abbrev pub Sent : List ℕ → W → W → Type 0
  Sent bytes w w' =
      (sent w' ≡ sent w ++ bytes)
      ⊎ ((k : ℕ) × (k < length bytes) × (sent w' ≡ sent w ++ take k bytes))

  Writes-Sent :
      (buf : List ℕ) (w : W) (result : Option (Ret × W))
      → Writes net sent is_net buf 0 w result
      → (r : Ret) × (w' : W) × (result ≡ some (r, w')) × Sent buf w w'
  Writes-Sent buf w result (inl (w', e, all)) = (ok (length buf), w', e, inl all)
  Writes-Sent buf w result (inr (r, k, w', e, below, part)) =
      (err r, w', e, inr (k, omega arith, part))

  send_reply-Sent :
      (server : TcpRpcServer F M I W) (sock : ℕ) (reply : List ℕ) (w : W)
      → 1 ≤ length reply
      → length (frame reply) < length server.tcp_tx_buf
      → length server.tcp_tx_buf < 2 ^ 16
      → (tx : List ℕ) × (w' : W) × (send_reply net headers codec max_info server sock reply
            (length reply)
            w
          ≡ some (record server { tcp_tx_buf = tx }, w'))
        × Sent (frame reply) w w'
  unfolding send_reply
  send_reply-Sent server sock reply w some_bytes room small =
      let all : take (length reply) reply ≡ reply = take_all (length reply) reply (omega arith) in
      let some_size : ltb 0 (length reply) ≡ true = ground arith in
      let n = length (frame reply) in
      let tx = frame reply ++ drop n server.tcp_tx_buf in
      let below : (n == length server.tcp_tx_buf) ≡ false = ground arith in
      let framed : framer reply server.tcp_tx_buf (length server.tcp_tx_buf) ≡ some (ok n, tx) =
        framer-encoding reply server.tcp_tx_buf (length server.tcp_tx_buf) (omega arith)
          (omega arith)
        ∙ rw below in
      let part : take n tx ≡ frame reply = take-append (frame reply) (drop n server.tcp_tx_buf) in
      let n16 : u16 n ≡ n = omega arith in
      let (r, w', written, done) =
        Writes-Sent (frame reply) w _
          (write-Writes net sent is_net sock (frame reply) w (omega arith)) in
      (tx, w', rw (send_reply, some_size, all, framed, part, n16, written), done)

  -- A server between requests that gets the frame of a request of at most 254 bytes, with any bytes
  -- but framing bytes before it and any bytes behind it, calls ProtoRpc_exec once on the request.
  -- If that replies, the peer gets the frame of the reply, or a part of it before an error of the
  -- network. The server then has what ProtoRpc_exec leaves, and its deframer is ready for the next
  -- request with the bytes behind the frame in its fifo. The frames fit the buffers.
  pub rpc_callback-Sent :
      (server : TcpRpcServer F M I W) (local : Header I) (sock : ℕ) (junk payload q : List ℕ)
      (w : W)
      → IsIdle server.deframer
      → NonZero junk
      → 1 ≤ length payload
      → length payload ≤ 254
      → length (encoding payload) < server.deframer.work_size
      → length (junk ++ (frame payload ++ q)) ≤ server.deframer.fifo.depth
      → length payload ≤ length server.rpc_rcv_msg
      → let out =
          exec headers codec max_info server.rpc local payload (length server.rpc_rcv_msg) w in
        out.size ≡ length out.reply
        → 1 ≤ length out.reply
        → length (frame out.reply) < length server.tcp_tx_buf
        → length server.tcp_tx_buf < 2 ^ 16
        → (server' : TcpRpcServer F M I W) × (w' : W) × (rpc_callback net headers codec max_info
              server local sock
              (junk ++ (frame payload ++ q))
              w
            ≡ some (1, server', w'))
          × Sent (frame out.reply) out.after w'
          × (server'.rpc ≡ out.rpc)
          × (server'.deframer.state ≡ init)
          × (contents server'.deframer.fifo ≡ q)
  unfolding rpc_callback
  rpc_callback-Sent server local sock junk payload q w idle plain one short room fits rcv_fits size
        replies tx_fits tx_small =
      let stream = junk ++ (frame payload ++ q) in
      let max = length server.rpc_rcv_msg in
      let (d', run, st, c, v) =
        deframer-frame payload junk q server.deframer server.rpc_rcv_msg max idle plain short room
          fits rcv_fits (omega arith) in
      let rcv = payload ++ drop (length payload) server.rpc_rcv_msg in
      let part : take (length payload) rcv ≡ payload = take-append payload _ in
      let arrived : ltb 0 (length stream) ≡ true = ground (
        arith,
        length-append junk (frame payload ++ q),
        length-append (frame payload) q,
        length-frame payload,
      ) in
      let raw : (length payload == 0) ≡ false = ground arith in
      let out = exec headers codec max_info server.rpc local payload max w in
      let server1 : TcpRpcServer F M I W = record server {
        deframer = d';
        rpc_rcv_msg = rcv;
        rpc = out.rpc;
      } in
      let (tx, w', sends, done) =
        send_reply-Sent server1 sock out.reply out.after replies tx_fits tx_small in
      (
        record server1 { tcp_tx_buf = tx },
        w',
        rw (rpc_callback, arrived, run, ◌>>=◌, raw, part, size, sends),
        done,
        refl,
        st,
        c,
      )
