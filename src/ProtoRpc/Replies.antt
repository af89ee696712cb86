-- ===== src/ProtoRpc/Replies.antt =====
-- What `ProtoRpc_exec` replies, over a codec that does what nanopb documents.
use zephyr_common.Common.{
  ℕ, ◌+◌, ◌≤◌, ◌≡◌, ◌⊎◌, refl, sym, subst, ap, ◌∙◌, inl, inr, Bool, true, false, Bool-cases,
  Option-cases, Option, none, some, List, [], ◌++◌, arith, length, append-nil,
}
use zephyr_common.PbGeneric.{Ostream, Codec, pack_delimited, unpack_delimited}
use zephyr_common.ProtoRpc.{
  Status, success, bad_resolver_lookup, bad_callset_unpack, bad_handler_lookup, Header, answer,
  query_reply, ProtoRpc, Handler, Outcome, callset_lookup, reply_alone, refuse, silent, run_handler,
  query, call, exec,
}

-- The codec documents: a delimited message is put behind what the stream holds if there is room,
-- what a failed call leaves stands behind it too, and a message is read back from its bytes.
pub record IsCodec {F M : Type 0} (codec : Codec F M) (bytes : F → M → List ℕ) : Type 0 where
  pub fits :
      (fields : F) (m : M) (s : Ostream)
      → length s.written + length (bytes fields m) ≤ s.max_size
      → codec.encode fields m s ≡ (true, record s { written = s.written ++ bytes fields m })
  pub extends :
      (fields : F) (m : M) (s : Ostream)
      → (part : List ℕ) × ((codec.encode fields m s).1.written ≡ s.written ++ part)
  pub reads :
      (fields : F) (m t : M) (rest : List ℕ)
      → codec.decode fields (bytes fields m ++ rest) t ≡ (true, m, rest)

module _ {F M : Type 0} (codec : Codec F M) (bytes : F → M → List ℕ)
    (is : IsCodec codec bytes) where
  pub packed :
      (s : Ostream) (m : M) (fields : F)
      → length s.written + length (bytes fields m) ≤ s.max_size
      → pack_delimited codec s m fields
        ≡ (length (s.written ++ bytes fields m), record s { written = s.written ++ bytes fields m })
  unfolding pack_delimited
  packed s m fields room = rw (is.fits fields m s room)

  pub packed_part :
      (s : Ostream) (m : M) (fields : F)
      → (part : List ℕ) × ((pack_delimited codec s m fields).1.written ≡ s.written ++ part)
  unfolding pack_delimited
  packed_part s m fields = is.extends fields m s

  pub unpacked :
      (fields : F) (m t : M) (rest : List ℕ)
      → unpack_delimited codec (bytes fields m ++ rest) t fields ≡ (true, m, rest)
  unfolding unpack_delimited
  unpacked fields m t rest = is.reads fields m t rest

-- The branches.
module _ {F M I W : Type 0} (headers : Codec (Unit {0}) (Header I)) (codec : Codec F M)
    (max_info : ℕ) (rpc : ProtoRpc F M I W) (o : Ostream) (header : Header I) (w : W) where
  abbrev pub called : M → ProtoRpc F M I W
  called frame = record rpc { callset_call_buf = frame }

  module _ (istream : List ℕ) where
    pub call_unknown :
        callset_lookup header.which_callset rpc.callsets ≡ none
        → call headers codec max_info rpc o header istream w
          ≡ refuse headers codec max_info rpc o header bad_resolver_lookup w
    unfolding call
    call_unknown e = rw (call, e)

    module _ (resolver : M → Option (Handler M W) × ℕ) (fields : F) (frame : M) (rest : List ℕ)
        (known : callset_lookup header.which_callset rpc.callsets ≡ some (resolver, fields)) where
      pub call_unreadable :
          unpack_delimited codec istream rpc.callset_call_buf fields ≡ (false, frame, rest)
          → call headers codec max_info rpc o header istream w
            ≡ refuse headers codec max_info (called frame) o header bad_callset_unpack w
      unfolding call
      call_unreadable read = rw (call, known, read, read)

      pub call_no_handler :
          unpack_delimited codec istream rpc.callset_call_buf fields ≡ (true, frame, rest)
          → (resolver frame).0 ≡ none
          → call headers codec max_info rpc o header istream w
            ≡ refuse headers codec max_info (called frame) o header bad_handler_lookup w
      unfolding call
      call_no_handler read e = rw (call, known, read, read, e, read)

      pub call_handled :
          (handler : Handler M W)
          → unpack_delimited codec istream rpc.callset_call_buf fields ≡ (true, frame, rest)
          → (resolver frame).0 ≡ some handler
          → call headers codec max_info rpc o header istream w
            ≡ run_handler headers codec max_info (called frame) o header fields handler w
      unfolding call
      call_handled handler read e = rw (call, known, read, read, e, read)

pub exec_read :
    {F M I W : Type 0} (headers : Codec (Unit {0}) (Header I)) (codec : Codec F M) (max_info : ℕ)
    (rpc : ProtoRpc F M I W) (local header : Header I) (rcvd_buf rest : List ℕ) (max : ℕ) (w : W)
    → unpack_delimited headers rcvd_buf local tt ≡ (true, header, rest)
    → let o : Ostream = record { written = []; max_size = max } in
      exec headers codec max_info rpc local rcvd_buf max w ≡ elim (header.callset_query) [
        | true ↦ query headers codec max_info rpc o header w
        | false ↦ call headers codec max_info rpc o header rest w
      ]
unfolding exec
exec_read headers codec max_info rpc local header rcvd_buf rest max w read =
    ap
      (λ r. elim (r.0) [
        | false ↦ silent headers codec max_info rpc (record { written = []; max_size = max }) w
        | true ↦ elim (r.1.callset_query) [
          | true ↦ query headers codec max_info rpc (record { written = []; max_size = max }) r.1 w
          | false ↦
              call headers codec max_info rpc (record { written = []; max_size = max }) r.1 r.2 w
        ]
      ])
      read

module _ {F M I W : Type 0} (headers : Codec (Unit {0}) (Header I)) (codec : Codec F M)
    (max_info : ℕ) (header_bytes : Unit {0} → Header I → List ℕ) (bytes : F → M → List ℕ)
    (is_h : IsCodec headers header_bytes) (is : IsCodec codec bytes) (t : Header I) where
  -- A reply to a header, as a reader with the local `t` gets it: none, or one that starts with a header of the same call.
  abbrev pub Answers : Header I → Outcome F M I W → Type 0
  Answers header out =
      (out.size ≡ 0)
      ⊎ ((h : Header I) × (rest : List ℕ) × (unpack_delimited headers out.reply t tt
            ≡ (true, h, rest))
          × (h.seqn ≡ header.seqn)
          × (h.which_callset ≡ header.which_callset)
          × (out.size ≡ length out.reply))

  -- A reply that is a header and anything behind it.
  starts-Answers :
      (header h : Header I) (part : List ℕ) (out : Outcome F M I W)
      → out.reply ≡ header_bytes tt h ++ part
      → out.size ≡ length out.reply
      → h.seqn ≡ header.seqn
      → h.which_callset ≡ header.which_callset
      → Answers header out
  starts-Answers header h part out e n s c = inr (
    h,
    part,
    (ap (λ r. unpack_delimited headers r t tt) e ∙ unpacked headers header_bytes is_h tt h t part),
    s,
    c,
    n,
  )

  alone-Answers :
      (rpc : ProtoRpc F M I W) (max : ℕ) (header h : Header I) (w : W)
      → length (header_bytes tt h) ≤ max
      → h.seqn ≡ header.seqn
      → h.which_callset ≡ header.which_callset
      → Answers header
          (reply_alone headers codec max_info rpc (record { written = []; max_size = max }) h w)
  alone-Answers rpc max header h w room s c =
      let o : Ostream = record { written = []; max_size = max } in
      let e = packed headers header_bytes is_h o h tt (omega arith) in
      starts-Answers header h [] (reply_alone headers codec max_info rpc o h w)
        (ap (λ r. r.1.written) e ∙ sym (append-nil (header_bytes tt h)))
        (ap (λ r. r.0) e ∙ sym (ap (λ r. length r.1.written) e)) s c

  run_handler-Answers :
      (rpc : ProtoRpc F M I W) (max : ℕ) (header : Header I) (fields : F) (handler : Handler M W)
      (w : W)
      → ((status : Status) → length (header_bytes tt (answer header status)) ≤ max)
      → Answers header (
          run_handler headers codec max_info rpc
            (record { written = []; max_size = max })
            header
            fields
            handler
            w)
  unfolding run_handler
  run_handler-Answers rpc max header fields handler w room = elim (Bool-cases header.no_reply) [
    | inl quiet ↦ rw quiet (inl refl)
    | inr loud ↦
        let o : Ostream = record { written = []; max_size = max } in
        let (reply_frame, status, w') =
          handler rpc.callset_call_buf rpc.callset_reply_buf success w in
        let h : Header I = answer header status in
        let e = packed headers header_bytes is_h o h tt (omega (arith, room status)) in
        let (part, e2) =
          packed_part codec bytes is (pack_delimited headers o h tt).1 reply_frame fields in
        let (size2, ostream2) =
          pack_delimited codec (pack_delimited headers o h tt).1 reply_frame fields in
        let out : Outcome F M I W = record {
          size = length ostream2.written;
          reply = ostream2.written;
          rpc = record rpc { callset_reply_buf = reply_frame };
          after = w';
        } in
        rw loud
          (starts-Answers header h part out (e2 ∙ ap (λ r. r.1.written ++ part) e) refl refl refl)
  ]

  call-Answers :
      (rpc : ProtoRpc F M I W) (max : ℕ) (header : Header I) (istream : List ℕ) (w : W)
      → ((status : Status) → length (header_bytes tt (answer header status)) ≤ max)
      → Answers header (
          call headers codec max_info rpc
            (record { written = []; max_size = max })
            header
            istream
            w)
  call-Answers rpc max header istream w room =
      let o : Ostream = record { written = []; max_size = max } in
      elim (Option-cases (callset_lookup header.which_callset rpc.callsets)) [
        | inl unknown ↦
            subst (Answers header)
              (sym (call_unknown headers codec max_info rpc o header w istream unknown))
              (refused rpc bad_resolver_lookup)
        | inr ((resolver, fields), known) ↦
            known_callset resolver fields known
              (unpack_delimited codec istream rpc.callset_call_buf fields) refl
      ]
    where
      o : Ostream
      o = record { written = []; max_size = max }

      refused :
          (rpc' : ProtoRpc F M I W) (status : Status)
          → Answers header (refuse headers codec max_info rpc' o header status w)
      refused rpc' status =
          let h : Header I = answer header status in
          alone-Answers rpc' max header h w (room status) refl refl

      after : M → ProtoRpc F M I W
      after frame = called headers codec max_info rpc o header w frame

      resolved :
          (resolver : M → Option (Handler M W) × ℕ) (fields : F) (frame : M) (rest : List ℕ)
          → callset_lookup header.which_callset rpc.callsets ≡ some (resolver, fields)
          → unpack_delimited codec istream rpc.callset_call_buf fields ≡ (true, frame, rest)
          → Answers header (call headers codec max_info rpc o header istream w)
      resolved resolver fields frame rest known read = elim (Option-cases (resolver frame).0) [
        | inl e ↦
            subst (Answers header)
              (sym (
                call_no_handler headers codec max_info rpc o header w istream resolver fields frame
                  rest known read e))
              (refused (after frame) bad_handler_lookup)
        | inr (handler, e) ↦
            subst (Answers header)
              (sym (
                call_handled headers codec max_info rpc o header w istream resolver fields frame
                  rest known handler read e))
              (run_handler-Answers (after frame) max header fields handler w room)
      ]

      known_callset :
          (resolver : M → Option (Handler M W) × ℕ) (fields : F)
          → callset_lookup header.which_callset rpc.callsets ≡ some (resolver, fields)
          → (read : Bool × M × List ℕ)
          → unpack_delimited codec istream rpc.callset_call_buf fields ≡ read
          → Answers header (call headers codec max_info rpc o header istream w)
      known_callset resolver fields known (false, frame, rest) read =
          subst (Answers header)
            (sym (
              call_unreadable headers codec max_info rpc o header w istream resolver fields frame
                rest known read))
            (refused (after frame) bad_callset_unpack)
      known_callset resolver fields known (true, frame, rest) read =
          resolved resolver fields frame rest known read

  -- Where the buffer has room for the header of the reply, a request whose header can be read has no reply, or
  -- a reply that starts with a header of the same sequence number and callset: on every branch,
  -- whatever follows the header of the request, and also if the reply of a handler does not fit.
  pub exec-Answers :
      (rpc : ProtoRpc F M I W) (local header : Header I) (rcvd_buf rest : List ℕ) (max : ℕ) (w : W)
      → ((status : Status) → length (header_bytes tt (answer header status)) ≤ max)
      → length (header_bytes tt (query_reply headers codec max_info rpc header)) ≤ max
      → unpack_delimited headers rcvd_buf local tt ≡ (true, header, rest)
      → Answers header (exec headers codec max_info rpc local rcvd_buf max w)
  unfolding query
  exec-Answers rpc local header rcvd_buf rest max w room room_q read =
      subst (Answers header)
        (sym (exec_read headers codec max_info rpc local header rcvd_buf rest max w read))
        (either header.callset_query refl)
    where
      o : Ostream
      o = record { written = []; max_size = max }

      either :
          (b : Bool)
          → header.callset_query ≡ b
          → Answers header (elim b [
            | true ↦ query headers codec max_info rpc o header w
            | false ↦ call headers codec max_info rpc o header rest w
          ])
      either true e =
          unfold query in
          (alone-Answers rpc max header (query_reply headers codec max_info rpc header) w room_q
            (unfold query_reply in refl) (unfold query_reply in refl))
      either false e = call-Answers rpc max header rest w room
