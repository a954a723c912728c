-- ===== src/Traffic/Dns/Exchange.antt =====
-- A request to the fake DNS server of src/traffic/shared/dns and the response to it, as a client reads it.
use any_mirror.Common.{
  length, nat_eq, pair_eq, list_eq, option_eq, Result, ok, err, ip_eq, ℕ, suc, ◌+◌, ◌≤◌, ◌<◌, ◌≡◌,
  refl, ap, ◌∙◌, Option, none, some, List, [], ◌∷◌, map, arith,
}
use any_mirror.FakeIp.Range.{Ipv4Net, Ipv6Net}
use any_mirror.FakeIp.Store.{IsValid}
use any_mirror.Traffic.Bytes.{Bytes}
use any_mirror.Traffic.Dns.{
  Record, no_error, is_response, Query, Message, FakeDnsState, DnsError, serialize_failed, Hickory,
  ◌and_then◌, or_error, new_query, from_message, build_fake_answers,
}
use any_mirror.Traffic.Dns.Promise.{IsReply, build_fake_answers-IsReply}
use any_mirror.Traffic.Dns.Response.{
  from_answers, build_response_message, to_message_bytes, fake_bytes, build_fake_response,
}

-- What is written can be read back.
abbrev pub IsCodec : Hickory → Type 0
IsCodec hickory =
    (m : Message) (bytes : Bytes) → hickory.to_vec m ≡ some bytes → hickory.from_vec bytes ≡ some m

-- A response to a request that carries given answers.
pub record IsResponse (request response : Message) (answers : List Record) : Type 0 where
  pub same_id : response.id ≡ request.id
  pub same_queries : response.queries ≡ request.queries
  pub same_op : response.op_code ≡ request.op_code
  pub a_response : response.message_type ≡ is_response
  pub succeeded : response.response_code ≡ no_error
  pub carried : response.answers ≡ answers

-- The bytes of a fake response, read by the client.
pub record IsFakeResponse (hickory : Hickory) (r4 : Ipv4Net) (r6 : Ipv6Net)
    (before after : FakeDnsState) (first later : ℕ) (request : Message) (response_bytes : Bytes)
    : Type 0 where
  pub response : Message
  pub answers : List Record
  pub read_back : hickory.from_vec response_bytes ≡ some response
  pub responds : IsResponse request response answers
  pub replied : IsReply hickory r4 r6 before after first later (from_message request) (some answers)

fake_bytes-some :
    (hickory : Hickory) (request : Message) (reply : Option (List Record)) (bytes : Bytes)
    → fake_bytes hickory request reply ≡ ok (some bytes)
    → (answers : List Record) × (reply ≡ some answers)
      × (hickory.to_vec (record (build_response_message request) { answers = answers })
          ≡ some bytes)
unfolding to_message_bytes from_answers
fake_bytes-some hickory request none bytes h = absurd (ground arith)
fake_bytes-some hickory request (some answers) bytes h = (
  answers,
  refl,
  written (hickory.to_vec (record (build_response_message request) { answers = answers })) h,
)
  where
    written :
        (o : Option Bytes)
        → (or_error serialize_failed o and_then λ b. ok (some b)) ≡ ok (some bytes)
        → o ≡ some bytes
    written none e = absurd (ground arith)
    written (some b) e = ground arith

and_then_ok :
    {A B : Type 0} (r : Result DnsError A) (f : A → Result DnsError B) (b : B)
    → (r and_then f) ≡ ok b
    → (a : A) × (r ≡ ok a) × (f a ≡ ok b)
and_then_ok (ok a) f b h = (a, refl, h)
and_then_ok (err e) f b h = absurd (ground arith)

length-from_message : (request : Message) → length (from_message request) ≡ length request.queries
unfolding from_message
length-from_message request =
    length-map (λ (query : Query). new_query query.name query.query_type) request.queries
  where
    length-map : {A B : Type 0} (f : A → B) (xs : List A) → length (map f xs) ≡ length xs
    length-map f [] = refl
    length-map f (x ∷ xs) = ap suc (length-map f xs)

build_response_message-IsResponse :
    (request : Message) (answers : List Record)
    → IsResponse request (record (build_response_message request) { answers = answers }) answers
unfolding build_response_message
build_response_message-IsResponse request answers = record {
  same_id = refl;
  same_queries = refl;
  same_op = refl;
  a_response = refl;
  succeeded = refl;
  carried = refl;
}

-- With a valid store, a clock that does not run backwards, and messages that can be read back as they were
-- written, a client that gets bytes in response reads a response to its own request: the same number,
-- operation and queries, without an error, and the answers that the queries are to have.
pub build_fake_response-IsFakeResponse :
    (hickory : Hickory) (r4 : Ipv4Net) (r6 : Ipv6Net) (clock : ℕ → ℕ) (state : FakeDnsState)
    (later : ℕ) (request_bytes response_bytes : Bytes) (request : Message)
    → IsCodec hickory
    → IsValid r4 r6 state.fake_ip_store
    → ((k l : ℕ) → k ≤ l → clock k ≤ clock l)
    → clock 0 ≤ later
    → ((k : ℕ) → k < length request.queries → clock k ≤ later)
    → later < clock 0 + state.options.record_ttl
    → hickory.from_vec request_bytes ≡ some request
    → (build_fake_response hickory clock state request_bytes).1 ≡ ok (some response_bytes)
    → IsFakeResponse hickory r4 r6 state
        (build_fake_response hickory clock state request_bytes).0
        (clock 0)
        later
        request
        response_bytes
unfolding build_fake_response
build_fake_response-IsFakeResponse hickory r4 r6 clock state later request_bytes response_bytes
      request codec v ordered here past soon parsed h =
    let queries = from_message request in
    let (reply, made, wrote) =
      and_then_ok (build_fake_answers hickory clock state queries).1 (fake_bytes hickory request)
        (some response_bytes) (ground (arith, h, parsed)) in
    let (answers, is, to) = fake_bytes-some hickory request reply response_bytes wrote in
    let response : Message = record (build_response_message request) { answers = answers } in
    rw (parsed, build_fake_response)
      (record {
        response = response;
        answers = answers;
        read_back = codec response response_bytes to;
        responds = build_response_message-IsResponse request answers;
        replied =
            build_fake_answers-IsReply hickory r4 r6 clock state queries later (some answers) v
              ordered here (λ k lt. past k (omega (arith, length-from_message request))) soon
              (made ∙ ap ok is);
      })
