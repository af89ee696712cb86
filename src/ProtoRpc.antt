-- ===== src/ProtoRpc.antt =====
-- modules/ProtoRpc: calls of procedures by messages. The codec of PbGeneric is a parameter, once
-- for headers and once for callsets, whose messages have the generated type `M` and the fields
-- `F`; `I` is what else the generated CallsetInfo holds. A handler changes the state `W` of the
-- rest of the program.
pub mod Replies
pub mod Calls
pub mod Refusals
pub mod Tests
use zephyr_common.Common.{
  ℕ, zero, suc, ◌+◌, Bool, true, false, Option, none, some, List, [], ◌∷◌, ◌==◌, if◌then◌else◌,
  length,
}
use zephyr_common.PbGeneric.{Ostream, Codec, pack_delimited, unpack_delimited}

-- `StatusEnum`; a handler may give other values.
pub data Status : Type 0 where
  success bad_resolver_lookup bad_callset_unpack bad_handler_lookup handler_error : Status
  other : ℕ → Status

pub record CallsetInfo (I : Type 0) : Type 0 where
  pub id : ℕ
  pub rest : I

pub record Header (I : Type 0) : Type 0 where
  pub seqn : ℕ
  pub no_reply : Bool
  pub callset_query : Bool
  pub which_callset : ℕ
  pub has_num_callsets : Bool
  pub num_callsets : ℕ
  pub callset_info : List (CallsetInfo I)
  pub status : Status

-- After `memset(&reply_header, 0, ...)`.
abbrev pub zeroed : {I : Type 0} → Header I
zeroed = record {
  seqn = 0;
  no_reply = false;
  callset_query = false;
  which_callset = 0;
  has_num_callsets = false;
  num_callsets = 0;
  callset_info = [];
  status = success;
}

-- The header of a reply to a call.
abbrev pub answer : {I : Type 0} → Header I → Status → Header I
answer header status = record zeroed {
  seqn = header.seqn;
  which_callset = header.which_callset;
  status = status;
}

-- The reply frame, the status and the state after a call.
abbrev pub Handler : Type 0 → Type 0 → Type 0
Handler M W = M → M → Status → W → M × Status × W

pub record CallsetEntry (F M I W : Type 0) : Type 0 where
  pub id : ℕ
  pub resolver : M → Option (Handler M W) × ℕ
  pub fields : F
  pub info : CallsetInfo I

pub record ProtoRpc (F M I W : Type 0) : Type 0 where
  pub callset_call_buf : M
  pub callset_reply_buf : M
  pub callsets : List (CallsetEntry F M I W)

module _ {F M I W : Type 0} where
  unfoldable pub callset_lookup :
      ℕ → List (CallsetEntry F M I W) → Option ((M → Option (Handler M W) × ℕ) × F)
  callset_lookup which_callset [] = none
  callset_lookup which_callset (entry ∷ callsets) = elim (entry.id == which_callset) [
    | true ↦ some (entry.resolver, entry.fields)
    | false ↦ callset_lookup which_callset callsets
  ]

  -- With room for `max_info` entries.
  unfoldable pub gather_callset_info : ℕ → List (CallsetEntry F M I W) → List (CallsetInfo I)
  gather_callset_info max_info [] = []
  gather_callset_info zero (entry ∷ callsets) = []
  gather_callset_info (suc max_info) (entry ∷ callsets) =
      record entry.info { id = entry.id } ∷ gather_callset_info max_info callsets

-- What is left of a call: `reply_encoded_size`, the bytes written to `reply_buf`, the buffers, and
-- the state.
pub record Outcome (F M I W : Type 0) : Type 0 where
  pub size : ℕ
  pub reply : List ℕ
  pub rpc : ProtoRpc F M I W
  pub after : W

module _ {F M I W : Type 0} (headers : Codec (Unit {0}) (Header I)) (codec : Codec F M)
    (max_info : ℕ) where
  -- A reply of a header alone.
  abbrev pub reply_alone : ProtoRpc F M I W → Ostream → Header I → W → Outcome F M I W
  reply_alone rpc ostream header w =
      let (size, ostream') = pack_delimited headers ostream header tt in
      record { size = size; reply = ostream'.written; rpc = rpc; after = w }

  abbrev pub refuse : ProtoRpc F M I W → Ostream → Header I → Status → W → Outcome F M I W
  refuse rpc ostream header status w = reply_alone rpc ostream (answer header status) w

  abbrev pub silent : ProtoRpc F M I W → Ostream → W → Outcome F M I W
  silent rpc ostream w = record { size = 0; reply = ostream.written; rpc = rpc; after = w }

  -- The part behind a handler that was found.
  unfoldable pub run_handler :
      ProtoRpc F M I W → Ostream → Header I → F → Handler M W → W → Outcome F M I W
  unfolding pack_delimited
  run_handler rpc ostream header fields handler w =
      let (reply_frame, status, w') =
        handler rpc.callset_call_buf rpc.callset_reply_buf success w in
      let rpc' = record rpc { callset_reply_buf = reply_frame } in
      if header.no_reply
      then silent rpc' ostream w'
      else (let (size, ostream1) = pack_delimited headers ostream (answer header status) tt in
          let (size2, ostream2) = pack_delimited codec ostream1 reply_frame fields in
          record {
            size = length ostream2.written;
            reply = ostream2.written;
            rpc = rpc';
            after = w';
          })

  unfoldable pub query_reply : ProtoRpc F M I W → Header I → Header I
  unfolding gather_callset_info
  query_reply rpc header = record zeroed {
    has_num_callsets = true;
    num_callsets = length rpc.callsets;
    callset_info = gather_callset_info max_info rpc.callsets;
    seqn = header.seqn;
    which_callset = header.which_callset;
  }

  unfoldable pub query : ProtoRpc F M I W → Ostream → Header I → W → Outcome F M I W
  unfolding pack_delimited query_reply
  query rpc ostream header w = reply_alone rpc ostream (query_reply rpc header) w

  -- The part behind a header that was read and is no query; `istream` is what follows it.
  unfoldable pub call : ProtoRpc F M I W → Ostream → Header I → List ℕ → W → Outcome F M I W
  unfolding pack_delimited unpack_delimited callset_lookup run_handler
  call rpc ostream header istream w = elim (callset_lookup header.which_callset rpc.callsets) [
    | none ↦ refuse rpc ostream header bad_resolver_lookup w
    | some (resolver, fields) ↦
        let (status, frame, rest) = unpack_delimited codec istream rpc.callset_call_buf fields in
        let rpc' = record rpc { callset_call_buf = frame } in
        elim status [
          | false ↦ refuse rpc' ostream header bad_callset_unpack w
          | true ↦
              let (handler, which_msg) = resolver frame in
              elim handler [
                | none ↦ refuse rpc' ostream header bad_handler_lookup w
                | some handler ↦ run_handler rpc' ostream header fields handler w
              ]
        ]
  ]

  -- `header` is the local as it is found, which the decoder fills in.
  unfoldable pub exec : ProtoRpc F M I W → Header I → List ℕ → ℕ → W → Outcome F M I W
  unfolding pack_delimited unpack_delimited query call
  exec rpc header rcvd_buf reply_buf_max_size w =
      let ostream : Ostream = record { written = []; max_size = reply_buf_max_size } in
      let (status, header', istream) = unpack_delimited headers rcvd_buf header tt in
      elim status [
        | false ↦ silent rpc ostream w
        | true ↦ elim (header'.callset_query) [
          | true ↦ query rpc ostream header' w
          | false ↦ call rpc ostream header' istream w
        ]
      ]
