-- ===== src/ProtoRpc/Calls.antt =====
-- `ProtoRpc_exec` of a call that has a handler.
use zephyr_common.Common.{
  ℕ, ◌≤◌, ◌≡◌, ◌∙◌, false, Option, some, List, [], ◌++◌, arith, length, length-append,
}
use zephyr_common.PbGeneric.{Ostream, Codec}
use zephyr_common.ProtoRpc.{
  Status, success, Header, answer, ProtoRpc, Handler, callset_lookup, run_handler, exec,
}
use zephyr_common.ProtoRpc.Replies.{IsCodec, unpacked, call_handled, exec_read}

module _ {F M I W : Type 0} (headers : Codec (Unit {0}) (Header I)) (codec : Codec F M)
    (max_info : ℕ) (header_bytes : Unit {0} → Header I → List ℕ) (bytes : F → M → List ℕ)
    (is_h : IsCodec headers header_bytes) (is : IsCodec codec bytes) where
  run_handler_lem :
      (rpc : ProtoRpc F M I W) (header : Header I) (fields : F) (handler : Handler M W)
      (reply_frame : M) (status : Status) (w w' : W) (max : ℕ)
      → header.no_reply ≡ false
      → handler rpc.callset_call_buf rpc.callset_reply_buf success w ≡ (reply_frame, status, w')
      → let reply = header_bytes tt (answer header status) ++ bytes fields reply_frame in
        length reply ≤ max
        → run_handler headers codec max_info rpc
            (record { written = []; max_size = max })
            header
            fields
            handler
            w
          ≡ record {
            size = length reply;
            reply = reply;
            rpc = record rpc { callset_reply_buf = reply_frame };
            after = w';
          }
  unfolding run_handler
  run_handler_lem rpc header fields handler reply_frame status w w' max loud runs room =
      let first = header_bytes tt (answer header status) in
      let l = length-append first (bytes fields reply_frame) in
      let o : Ostream = record { written = []; max_size = max } in
      let o1 : Ostream = record { written = first; max_size = max } in
      let e1 = is_h.fits tt (answer header status) o (omega arith) in
      let e2 = is.fits fields reply_frame o1 (omega arith) in rw (run_handler, loud, runs, e1, e2)

  -- A request that is no query and wants a reply, for a callset and a message that have a handler,
  -- runs the handler once on the message and replies with a header that has the sequence number
  -- and the callset of the request and the status of the handler, and the reply frame behind it:
  -- where both fit the buffer. The state is what the handler leaves.
  pub exec-run :
      (rpc : ProtoRpc F M I W) (local header : Header I) (frame : M) (fields : F) (more : List ℕ)
      (resolver : M → Option (Handler M W) × ℕ) (handler : Handler M W) (reply_frame : M)
      (status : Status) (w w' : W) (max : ℕ)
      → header.callset_query ≡ false
      → header.no_reply ≡ false
      → callset_lookup header.which_callset rpc.callsets ≡ some (resolver, fields)
      → (resolver frame).0 ≡ some handler
      → handler frame rpc.callset_reply_buf success w ≡ (reply_frame, status, w')
      → let reply = header_bytes tt (answer header status) ++ bytes fields reply_frame in
        length reply ≤ max
        → exec headers codec max_info rpc local
            (header_bytes tt header ++ (bytes fields frame ++ more))
            max
            w
          ≡ record {
            size = length reply;
            reply = reply;
            rpc = record rpc { callset_call_buf = frame; callset_reply_buf = reply_frame };
            after = w';
          }
  exec-run rpc local header frame fields more resolver handler reply_frame status w w' max plain
        loud known found runs room =
      let o : Ostream = record { written = []; max_size = max } in
      let read_h =
        unpacked headers header_bytes is_h tt header local (bytes fields frame ++ more) in
      let read = unpacked codec bytes is fields frame rpc.callset_call_buf more in
      exec_read headers codec max_info rpc local header _ (bytes fields frame ++ more) max w read_h
      ∙ (rw plain (
          call_handled headers codec max_info rpc o header w (bytes fields frame ++ more) resolver
            fields frame more known handler read found
          ∙ run_handler_lem (record rpc { callset_call_buf = frame }) header fields handler
              reply_frame status w w' max loud runs room))
