-- ===== src/ProtoRpc/Refusals.antt =====
-- `ProtoRpc_exec` of a call that finds no handler.
use zephyr_common.Common.{
  ℕ, ◌≤◌, ◌≡◌, ◌≢◌, ◌⊎◌, refl, sym, ap, subst, ◌∙◌, inl, inr, true, false, Option, none, some, List,
  [], ◌∷◌, ◌==◌, arith, length, append-nil,
}
use zephyr_common.PbGeneric.{Ostream, Codec, unpack_delimited}
use zephyr_common.ProtoRpc.{
  Status, bad_resolver_lookup, bad_callset_unpack, bad_handler_lookup, Header, answer, CallsetEntry,
  ProtoRpc, Handler, Outcome, callset_lookup, refuse, call, exec,
}
use zephyr_common.ProtoRpc.Replies.{
  IsCodec, packed, unpacked, called, call_unknown, call_unreadable, call_no_handler, exec_read,
}

module _ {F M I W : Type 0} where
  -- No callset has the identifier.
  abbrev pub Absent : ℕ → List (CallsetEntry F M I W) → Type 0
  Absent id [] = Unit {0}
  Absent id (entry ∷ callsets) = (entry.id ≢ id) × Absent id callsets

  Absent-callset_lookup :
      (id : ℕ) (callsets : List (CallsetEntry F M I W))
      → Absent id callsets
      → callset_lookup id callsets ≡ none
  unfolding callset_lookup
  Absent-callset_lookup id [] h = refl
  Absent-callset_lookup id (entry ∷ callsets) (h, more) =
      let other : (entry.id == id) ≡ false = ground arith in
      rw (callset_lookup, other) (Absent-callset_lookup id callsets more)

module _ {F M I W : Type 0} (headers : Codec (Unit {0}) (Header I)) (codec : Codec F M)
    (max_info : ℕ) (header_bytes : Unit {0} → Header I → List ℕ)
    (is_h : IsCodec headers header_bytes) (t : Header I) where
  -- Why the call of `header`, with `rest` behind it, finds no handler, by the status for it.
  abbrev pub Fails : ProtoRpc F M I W → Header I → List ℕ → Status → Type 0
  Fails rpc header rest status =
      ((status ≡ bad_resolver_lookup) × Absent header.which_callset rpc.callsets)
      ⊎ ((resolver : M → Option (Handler M W) × ℕ) × (fields : F) × (frame : M) × (left : List ℕ)
          × (callset_lookup header.which_callset rpc.callsets ≡ some (resolver, fields))
          × (((status ≡ bad_callset_unpack)
                × (unpack_delimited codec rest rpc.callset_call_buf fields ≡ (false, frame, left)))
              ⊎ ((status ≡ bad_handler_lookup)
                  × (unpack_delimited codec rest rpc.callset_call_buf fields ≡ (true, frame, left))
                  × ((resolver frame).0 ≡ none))))

  -- A reply of a header alone, as a reader with the local `t` gets it, and no other effect than on
  -- the buffer of the call.
  abbrev pub Refuses : ProtoRpc F M I W → Header I → Status → W → Outcome F M I W → Type 0
  Refuses rpc header status w out =
      (h : Header I) × (unpack_delimited headers out.reply t tt ≡ (true, h, []))
      × (h.seqn ≡ header.seqn)
      × (h.which_callset ≡ header.which_callset)
      × (h.status ≡ status)
      × (out.size ≡ length out.reply)
      × (out.after ≡ w)
      × (out.rpc.callset_reply_buf ≡ rpc.callset_reply_buf)
      × (out.rpc.callsets ≡ rpc.callsets)

  refuse-Refuses :
      (rpc rpc' : ProtoRpc F M I W) (max : ℕ) (header : Header I) (status : Status) (w : W)
      → rpc'.callset_reply_buf ≡ rpc.callset_reply_buf
      → rpc'.callsets ≡ rpc.callsets
      → length (header_bytes tt (answer header status)) ≤ max
      → Refuses rpc header status w (
          refuse headers codec max_info rpc'
            (record { written = []; max_size = max })
            header
            status
            w)
  refuse-Refuses rpc rpc' max header status w same_buf same_callsets room =
      let o : Ostream = record { written = []; max_size = max } in
      let h : Header I = answer header status in
      let e = packed headers header_bytes is_h o h tt (omega arith) in
      let whole = sym (append-nil (header_bytes tt h)) in
      (
        h,
        ap (λ r. unpack_delimited headers r.1.written t tt) e
            ∙ (ap (λ r. unpack_delimited headers r t tt) whole
                ∙ unpacked headers header_bytes is_h tt h t []),
        refl,
        refl,
        refl,
        ap (λ r. r.0) e ∙ sym (ap (λ r. length r.1.written) e),
        refl,
        same_buf,
        same_callsets,
      )

  -- A request that is no query and finds no handler is answered, also if it wants no reply, by a
  -- header alone that a reader gets back with the sequence number and the callset of the request
  -- and the status that says why: RPC_BAD_RESOLVER_LOOKUP if no callset has its identifier,
  -- RPC_BAD_CALLSET_UNPACK if the message cannot be unpacked, RPC_BAD_HANDLER_LOOKUP if the
  -- resolver knows no handler for it. The state, the callsets and the reply buffer of the callset
  -- stay as they are. This is where the buffer has room for that header.
  pub exec-Refuses :
      (rpc : ProtoRpc F M I W) (local header : Header I) (rcvd_buf rest : List ℕ) (status : Status)
      (max : ℕ) (w : W)
      → unpack_delimited headers rcvd_buf local tt ≡ (true, header, rest)
      → header.callset_query ≡ false
      → Fails rpc header rest status
      → length (header_bytes tt (answer header status)) ≤ max
      → Refuses rpc header status w (exec headers codec max_info rpc local rcvd_buf max w)
  exec-Refuses rpc local header rcvd_buf rest status max w read plain fails room = why fails
    where
      o : Ostream
      o = record { written = []; max_size = max }

      by_call :
          (rpc' : ProtoRpc F M I W) (given : Status)
          → status ≡ given
          → call headers codec max_info rpc o header rest w
            ≡ refuse headers codec max_info rpc' o header given w
          → rpc'.callset_reply_buf ≡ rpc.callset_reply_buf
          → rpc'.callsets ≡ rpc.callsets
          → Refuses rpc header status w (exec headers codec max_info rpc local rcvd_buf max w)
      by_call rpc' given same e same_buf same_callsets =
          let whole = e ∙ ap (λ s. refuse headers codec max_info rpc' o header s w) (sym same) in
          let run : exec headers codec max_info rpc local rcvd_buf max w
              ≡ refuse headers codec max_info rpc' o header status w =
            exec_read headers codec max_info rpc local header rcvd_buf rest max w read
            ∙ rw plain whole in
          subst (Refuses rpc header status w) (sym run)
            (refuse-Refuses rpc rpc' max header status w same_buf same_callsets room)

      why :
          Fails rpc header rest status
          → Refuses rpc header status w (exec headers codec max_info rpc local rcvd_buf max w)
      why (inl (same, absent)) =
          by_call rpc bad_resolver_lookup same
            (call_unknown headers codec max_info rpc o header w rest
              (Absent-callset_lookup header.which_callset rpc.callsets absent))
            refl refl
      why (inr (resolver, fields, frame, left, known, inl (same, bad))) =
          by_call (called headers codec max_info rpc o header w frame) bad_callset_unpack same
            (call_unreadable headers codec max_info rpc o header w rest resolver fields frame left
              known bad)
            refl refl
      why (inr (resolver, fields, frame, left, known, inr (same, good, no_handler))) =
          by_call (called headers codec max_info rpc o header w frame) bad_handler_lookup same
            (call_no_handler headers codec max_info rpc o header w rest resolver fields frame left
              known good no_handler)
            refl refl
