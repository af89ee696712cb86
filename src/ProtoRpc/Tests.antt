-- ===== src/ProtoRpc/Tests.antt =====
-- Theorems about calls at a small codec and a callset with one handler.
use zephyr_common.Common.{
  ℕ, zero, suc, ◌+◌, ◌*◌, ◌≡◌, refl, sym, ap, Bool, true, false, Bool-cases, inl, inr, Option, none,
  some, List, [], ◌∷◌, ◌++◌, leb, if◌then◌else◌, arith, length, append-nil,
}
use zephyr_common.PbGeneric.{Codec, unpack_delimited}
use zephyr_common.ProtoRpc.{
  Status, success, bad_resolver_lookup, bad_callset_unpack, bad_handler_lookup, handler_error,
  other, CallsetInfo, Header, zeroed, answer, ProtoRpc, Handler, callset_lookup,
  gather_callset_info, query_reply, exec,
}
use zephyr_common.ProtoRpc.Replies.{IsCodec, Answers, exec-Answers}
use zephyr_common.ProtoRpc.Calls.{exec-run}
use zephyr_common.ProtoRpc.Refusals.{Fails, Refuses, exec-Refuses}

-- A codec that writes all the bytes or none.
module _ {F M : Type 0} (bytes : F → M → List ℕ) (decode : F → List ℕ → M → Bool × M × List ℕ) where
  abbrev of_bytes : Codec F M
  of_bytes = record {
    encode = λ fields m s.
        if leb (length s.written + length (bytes fields m)) s.max_size
        then (true, record s { written = s.written ++ bytes fields m })
        else (false, s);
    decode = decode;
  }

  of_bytes-IsCodec :
      ((fields : F) (m t : M) (rest : List ℕ)
        → decode fields (bytes fields m ++ rest) t ≡ (true, m, rest))
      → IsCodec of_bytes bytes
  of_bytes-IsCodec reads = record {
    fits = λ fields m s h.
        let e : leb (length s.written + length (bytes fields m)) s.max_size ≡ true = ground arith in
        rw e;
    extends = λ fields m s.
        elim (Bool-cases (leb (length s.written + length (bytes fields m)) s.max_size)) [
          | inl e ↦ (bytes fields m, rw e)
          | inr e ↦ ([], rw e (sym (append-nil s.written)))
        ];
    reads = reads;
  }

abbrev bit : Bool → ℕ
bit true = 1
bit false = 0

abbrev of_bit : ℕ → Bool
of_bit zero = false
of_bit (suc n) = true

abbrev code : Status → ℕ
code success = 0
code bad_resolver_lookup = 1
code bad_callset_unpack = 2
code bad_handler_lookup = 3
code handler_error = 4
code (other n) = suc (suc (suc (suc (suc n))))

abbrev of_code : ℕ → Status
of_code zero = success
of_code (suc zero) = bad_resolver_lookup
of_code (suc (suc zero)) = bad_callset_unpack
of_code (suc (suc (suc zero))) = bad_handler_lookup
of_code (suc (suc (suc (suc zero)))) = handler_error
of_code (suc (suc (suc (suc (suc n))))) = other n

abbrev Info : Type 0
Info = CallsetInfo (Unit {0})

abbrev ids : List Info → List ℕ
ids [] = 0 ∷ []
ids (i ∷ infos) = 1 ∷ i.id ∷ ids infos

abbrev with_info : Info → List Info × List ℕ → List Info × List ℕ
with_info i (infos, rest) = (i ∷ infos, rest)

abbrev of_ids : ℕ → List ℕ → List Info × List ℕ
of_ids zero xs = ([], xs)
of_ids (suc n) [] = ([], [])
of_ids (suc n) (zero ∷ rest) = ([], rest)
of_ids (suc n) (suc m ∷ []) = ([], [])
of_ids (suc n) (suc m ∷ i ∷ rest) = with_info (record { id = i; rest = tt }) (of_ids n rest)

abbrev pub header_bytes : Unit {0} → Header (Unit {0}) → List ℕ
header_bytes u h =
    h.seqn
    ∷ bit h.no_reply
    ∷ bit h.callset_query
    ∷ h.which_callset
    ∷ bit h.has_num_callsets
    ∷ h.num_callsets
    ∷ code h.status
    ∷ length h.callset_info
    ∷ ids h.callset_info

abbrev read_header : Unit {0} → List ℕ → Header (Unit {0}) → Bool × Header (Unit {0}) × List ℕ
read_header u (seqn ∷ n ∷ q ∷ c ∷ h ∷ num ∷ status ∷ k ∷ xs) t =
    let (infos, rest) = of_ids (suc k) xs in
    (
      true,
      record {
        seqn = seqn;
        no_reply = of_bit n;
        callset_query = of_bit q;
        which_callset = c;
        has_num_callsets = of_bit h;
        num_callsets = num;
        callset_info = infos;
        status = of_code status;
      },
      rest,
    )
read_header u xs t = (false, t, [])

of_bit-bit : (b : Bool) → of_bit (bit b) ≡ b
of_bit-bit true = refl
of_bit-bit false = refl

of_code-code : (s : Status) → of_code (code s) ≡ s
of_code-code success = refl
of_code-code bad_resolver_lookup = refl
of_code-code bad_callset_unpack = refl
of_code-code bad_handler_lookup = refl
of_code-code handler_error = refl
of_code-code (other n) = refl

of_ids-ids :
    (infos : List Info) (rest : List ℕ)
    → of_ids (suc (length infos)) (ids infos ++ rest) ≡ (infos, rest)
of_ids-ids [] rest = refl
of_ids-ids (i ∷ infos) rest = ap (with_info i) (of_ids-ids infos rest)

read_header-header_bytes :
    (u : Unit {0}) (h t : Header (Unit {0})) (rest : List ℕ)
    → read_header u (header_bytes u h ++ rest) t ≡ (true, h, rest)
read_header-header_bytes u h t rest = rw (
  of_bit-bit h.no_reply,
  of_bit-bit h.callset_query,
  of_bit-bit h.has_num_callsets,
  of_code-code h.status,
  of_ids-ids h.callset_info rest,
)

abbrev pub headers : Codec (Unit {0}) (Header (Unit {0}))
headers = of_bytes header_bytes read_header

headers-IsCodec : IsCodec headers header_bytes
headers-IsCodec = of_bytes-IsCodec header_bytes read_header read_header-header_bytes

-- Messages are numbers.
abbrev word_bytes : ℕ → ℕ → List ℕ
word_bytes fields m = m ∷ []

abbrev read_word : ℕ → List ℕ → ℕ → Bool × ℕ × List ℕ
read_word fields [] t = (false, t, [])
read_word fields (m ∷ rest) t = (true, m, rest)

unfoldable pub words : Codec ℕ ℕ
words = of_bytes word_bytes read_word

words-IsCodec : IsCodec words word_bytes
unfolding words
words-IsCodec = of_bytes-IsCodec word_bytes read_word (λ fields m t rest. refl)

-- Doubles the message and counts the calls.
abbrev double : Handler ℕ ℕ
double frame reply status w = (2 * frame, success, w + 1)

abbrev resolver : ℕ → Option (Handler ℕ ℕ) × ℕ
resolver zero = (none, 0)
resolver (suc n) = (some double, suc n)

abbrev service : ProtoRpc ℕ ℕ (Unit {0}) ℕ
service = record {
  callset_call_buf = 0;
  callset_reply_buf = 0;
  callsets =
      record { id = 7; resolver = resolver; fields = 5; info = record { id = 0; rest = tt } } ∷ [];
}

abbrev pub request : ℕ → Header (Unit {0})
request callset = record zeroed { seqn = 42; which_callset = callset }

abbrev quiet : Header (Unit {0})
quiet = record (request 7) { no_reply = true }

quiet-Fails :
    Fails headers words 3 header_bytes headers-IsCodec zeroed service quiet
      (0 ∷ [])
      bad_handler_lookup
unfolding callset_lookup unpack_delimited words
quiet-Fails = inr (resolver, 5, 0, [], refl, inr (refl, refl, refl))

exec-run_example :
    exec headers words 3 service zeroed
      (header_bytes tt (request 7) ++ (word_bytes 5 21 ++ []))
      20
      0
    ≡ record {
      size = 10;
      reply = header_bytes tt (answer (request 7) success) ++ 42 ∷ [];
      rpc = record service { callset_call_buf = 21; callset_reply_buf = 42 };
      after = 1;
    }
unfolding callset_lookup
exec-run_example =
    exec-run headers words 3 header_bytes word_bytes headers-IsCodec words-IsCodec service zeroed
      (request 7) 21 5 [] resolver double 42 success 0 1 20 refl refl refl refl refl (omega arith)

-- The request wants no reply, and the callset has no handler for the message 0.
exec-Refuses_example :
    Refuses headers words 3 header_bytes headers-IsCodec zeroed service quiet bad_handler_lookup 0
      (exec headers words 3 service zeroed (header_bytes tt quiet ++ 0 ∷ []) 20 0)
exec-Refuses_example =
    exec-Refuses headers words 3 header_bytes headers-IsCodec zeroed service zeroed quiet
      (header_bytes tt quiet ++ 0 ∷ []) (0 ∷ []) bad_handler_lookup 20 0
      (unfold unpack_delimited in refl) refl quiet-Fails (omega arith)

-- The reply frame does not fit behind the header.
exec-Answers_example :
    Answers headers words 3 header_bytes word_bytes headers-IsCodec words-IsCodec zeroed
      (request 7)
      (exec headers words 3 service zeroed (header_bytes tt (request 7) ++ 21 ∷ []) 11 0)
unfolding query_reply gather_callset_info
exec-Answers_example =
    exec-Answers headers words 3 header_bytes word_bytes headers-IsCodec words-IsCodec zeroed
      service zeroed (request 7) (header_bytes tt (request 7) ++ 21 ∷ []) (21 ∷ []) 11 0
      (λ status. omega arith) (omega arith) (unfold unpack_delimited in refl)
