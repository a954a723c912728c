-- ===== src/Traffic/Dns/Response.antt =====
-- src/traffic/shared/dns/resolution.rs, and the parts of src/traffic/shared/dns/mod.rs that turn a
-- request into a response. What the sockets do with it is not modelled.
use any_mirror.Common.{
  if◌then◌else◌, nat_eq, pair_eq, list_eq, option_eq, Result, ok, err, ip_eq, ℕ, Bool, true, false,
  not, Option, none, some, List, [], ◌∷◌, ◌++◌, map,
}
use any_mirror.Traffic.Bytes.{Bytes}
use any_mirror.Traffic.Dns.{
  Record, DnsLookupQuery, ResponseCode, no_error, nx_domain, serv_fail, MessageType, is_response,
  Query, Message, FakeDnsState, DnsResolution, ResolveError, DnsError, invalid_packet,
  invalid_query_name, serialize_failed, Hickory, ◌and_then◌, or_error, new_query, from_message,
  build_fake_answers,
}

abbrev pub is_no_error : ResponseCode → Bool
is_no_error no_error = true
is_no_error nx_domain = false
is_no_error serv_fail = false

unfoldable pub from_answers : List Record → DnsResolution
from_answers answers = record { response_code = no_error; answers = answers }

unfoldable pub from_error : ResponseCode → DnsResolution
from_error response_code = record { response_code = response_code; answers = [] }

unfoldable pub build_response_message : Message → Message
build_response_message request = record {
  id = request.id;
  message_type = is_response;
  op_code = request.op_code;
  recursion_desired = request.recursion_desired;
  recursion_available = true;
  response_code = no_error;
  queries = request.queries;
  answers = [];
}

unfoldable pub map_resolve_error_to_response_code : ResolveError → ResponseCode
map_resolve_error_to_response_code error =
    if error.is_nx_domain
    then nx_domain
    else (if error.is_no_records_found then no_error else serv_fail)

-- The header of a request or of a response.
pub record Header : Type 0 where
  pub id : ℕ
  pub message_type : MessageType
  pub op_code : ℕ
  pub authoritative : Bool
  pub truncated : Bool
  pub recursion_desired : Bool
  pub recursion_available : Bool
  pub authentic_data : Bool
  pub checking_disabled : Bool
  pub response_code : ResponseCode
  pub counts : ℕ × ℕ × ℕ × ℕ

unfoldable pub build_response_header : Header → ResponseCode → Header
build_response_header request_header response_code = record request_header {
  message_type = is_response;
  recursion_available = true;
  response_code = response_code;
}

-- What the response handler is to send: `error_msg` has the header of the request, and the others
-- have that of the response.
pub data Sent : Type 0 where
  error_msg : Header → ResponseCode → Sent
  no_records : Header → Sent
  records : Header → List Record → Sent

unfoldable pub response_of : Header → DnsResolution → Sent
unfolding build_response_header
response_of request_header resolution =
    if not (is_no_error resolution.response_code)
    then error_msg request_header resolution.response_code
    else elim resolution.answers [
      | [] ↦ no_records (build_response_header request_header no_error)
      | answer ∷ answers ↦
          records (build_response_header request_header no_error) (answer ∷ answers)
    ]

-- `hand` is the response handler, which gives nothing if it fails, and `into` the conversion of a
-- header to a `ResponseInfo`.
unfoldable pub send_hickory_response :
    {ResponseInfo : Type 0}
    → (Sent → Option ResponseInfo)
    → (Header → ResponseInfo)
    → Header
    → DnsResolution
    → Sent × ResponseInfo
unfolding response_of
send_hickory_response hand into request_header resolution = (
  response_of request_header resolution,
  elim (hand (response_of request_header resolution)) [
    | some info ↦ info
    | none ↦ into (build_response_header request_header serv_fail)
  ],
)

module _ (hickory : Hickory) where
  unfoldable pub build_error_message_bytes : Message → ResponseCode → Result DnsError Bytes
  unfolding build_response_message
  build_error_message_bytes request response_code =
      or_error serialize_failed
        (hickory.to_vec (record (build_response_message request) { response_code = response_code }))

  unfoldable pub to_message_bytes : DnsResolution → Message → Result DnsError Bytes
  unfolding build_response_message build_error_message_bytes
  to_message_bytes resolution request =
      if not (is_no_error resolution.response_code)
      then build_error_message_bytes request resolution.response_code
      else or_error serialize_failed (
          hickory.to_vec (record (build_response_message request) { answers = resolution.answers }))

  -- `None` where no query is answered.
  abbrev pub fake_bytes : Message → Option (List Record) → Result DnsError (Option Bytes)
  fake_bytes request none = ok none
  fake_bytes request (some answers) =
      to_message_bytes (from_answers answers) request and_then λ bytes. ok (some bytes)

  unfoldable pub build_fake_response :
      (ℕ → ℕ) → FakeDnsState → Bytes → FakeDnsState × Result DnsError (Option Bytes)
  unfolding to_message_bytes from_answers
  build_fake_response clock state request_bytes = elim (hickory.from_vec request_bytes) [
    | none ↦ (state, err invalid_packet)
    | some request ↦
        let (state', result) = build_fake_answers hickory clock state (from_message request) in
        (state', result and_then fake_bytes request)
  ]

  -- The loop over the queries that no fake answer serves.
  unfoldable pub lookup_loop : List Record → List DnsLookupQuery → Result DnsError DnsResolution
  unfolding from_answers from_error map_resolve_error_to_response_code
  lookup_loop answers [] = ok (from_answers answers)
  lookup_loop answers (query ∷ queries) = elim (hickory.name_from_ascii query.name) [
    | none ↦ err invalid_query_name
    | some query_name ↦ elim (hickory.lookup query_name query.record_type) [
      | ok found ↦ lookup_loop (answers ++ found) queries
      | err error ↦ ok (from_error (map_resolve_error_to_response_code error))
    ]
  ]

  abbrev pub or_lookup : List DnsLookupQuery → Option (List Record) → Result DnsError DnsResolution
  or_lookup queries none = lookup_loop [] queries
  or_lookup queries (some fake_answers) = ok (from_answers fake_answers)

  unfoldable pub resolve_queries :
      (ℕ → ℕ) → FakeDnsState → List DnsLookupQuery → FakeDnsState × Result DnsError DnsResolution
  unfolding lookup_loop
  resolve_queries clock state queries =
      let (state', result) = build_fake_answers hickory clock state queries in
      (state', result and_then or_lookup queries)

  unfoldable pub resolve_request :
      (ℕ → ℕ) → FakeDnsState → Bytes → FakeDnsState × Result DnsError Bytes
  unfolding resolve_queries to_message_bytes
  resolve_request clock state request_bytes = elim (hickory.from_vec request_bytes) [
    | none ↦ (state, err invalid_packet)
    | some request ↦
        let (state', result) = resolve_queries clock state (from_message request) in
        (state', result and_then λ resolution. to_message_bytes resolution request)
  ]

  abbrev pub or_serv_fail : Result DnsError DnsResolution → DnsResolution
  or_serv_fail (ok resolution) = resolution
  or_serv_fail (err error) = from_error serv_fail

  -- `FakeDnsHandler::handle_request`, for the lower-case queries that the server parsed.
  unfoldable pub handle_request :
      {ResponseInfo : Type 0}
      → (Sent → Option ResponseInfo)
      → (Header → ResponseInfo)
      → (ℕ → ℕ)
      → FakeDnsState
      → Header
      → List Query
      → FakeDnsState × Sent × ResponseInfo
  unfolding resolve_queries send_hickory_response from_error
  handle_request hand into clock state request_header queries =
      let (state', result) =
        resolve_queries clock state
          (map (λ (query : Query). new_query query.name query.query_type) queries) in
      let (sent, info) = send_hickory_response hand into request_header (or_serv_fail result) in
      (state', sent, info)
