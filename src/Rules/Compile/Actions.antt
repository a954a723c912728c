-- ===== src/Rules/Compile/Actions.antt =====
-- src/rules/compile.rs: the actions of the rules and what they need.
use any_mirror.Rules.Compile.{
  CompileError, bad_url, empty_plugin_name, bad_status, empty_message, bad_header, length_header,
  type_header, empty_content_type, body_count, bad_json, empty_file, no_file, not_regular_file,
  bad_base64, host_and_ip, dns_and_ip, system_with_server, server_missing, expect_failed, Parsers,
  ◌>>=◌, ensure, ok_or, each_option, non_empty, bool_count,
}
use any_mirror.Common.{
  leb, is_some, ◌==◌, nat_eq, pair_eq, list_eq, option_eq, Result, ok, err, ip_eq, ℕ, ◌+◌, Bool,
  not, ◌&&◌, Option, none, some, List, [], ◌∷◌,
}
use any_mirror.HashMap.{HashMap}
use any_mirror.Text.{Text, codes, is_empty, trim}
use any_mirror.Rules.Model.{
  DnsMode, system, udp, dot, doh, DnsPlan, UpstreamPlan, RespondBodySource, inline, file, HeaderMap,
  RespondRuleAction, RuleAction, mirror, direct, respond, plugin, reject,
}
use any_mirror.Rules.Schema.{
  DnsPlanSchema, UpstreamPlanSchema, RespondBodySchema, RuleActionSchema, mirror_to, go_direct,
  respond_with, call_plugin, reject_with,
}

abbrev pub check_server : DnsMode → Option Text → Result CompileError (Unit {0})
check_server system server = ensure (not (is_some server)) system_with_server
check_server udp server = ensure (is_some server) server_missing
check_server dot server = ensure (is_some server) server_missing
check_server doh server = ensure (is_some server) server_missing

unfoldable pub dns_plan_try_from : DnsPlanSchema → Result CompileError DnsPlan
dns_plan_try_from v = do
  checked ← check_server v.mode (non_empty v.server)
  ok (record { mode = v.mode; server = non_empty v.server })

-- `UpstreamPlan::validate`
unfoldable pub validate : UpstreamPlan → Result CompileError (Unit {0})
validate plan = do
  one ← ensure (not (is_some plan.connect_host && is_some plan.connect_ip)) host_and_ip
  ensure (not (is_some plan.connect_ip && is_some plan.dns)) dns_and_ip

-- The defaults of the optional fields.
abbrev pub unwrap_or : {A : Type 0} → A → Option A → A
unwrap_or a none = a
unwrap_or a (some b) = b

-- `(100..=599).contains(&status)`
abbrev pub is_status : ℕ → Bool
is_status status = leb 100 status && leb status 599

pub record CompiledRespondBody : Type 0 where
  pub source : RespondBodySource
  pub default_content_type : Option Text

abbrev pub inline_body : List ℕ → Text → CompiledRespondBody
inline_body bytes content_type = record {
  source = inline bytes;
  default_content_type = some content_type;
}

module _ {Json : Type 0} (parsers : Parsers Json) where
  unfoldable pub upstream_try_from : UpstreamPlanSchema → Result CompileError UpstreamPlan
  unfolding dns_plan_try_from validate
  upstream_try_from v = do
    url ← ok_or bad_url (parsers.parse_url v.url)
    dns ← each_option dns_plan_try_from v.dns
    let plan : UpstreamPlan = record {
      url = url;
      sni = non_empty v.sni;
      host = non_empty v.host;
      connect_host = non_empty v.connect_host;
      connect_ip = v.connect_ip;
      dns = dns;
    }
    valid ← validate plan
    ok plan

  unfoldable pub choose_body :
      Option Text
      → Option Json
      → Option Text
      → Option Text
      → Result CompileError CompiledRespondBody
  choose_body (some text) json path encoded =
      ok (inline_body (parsers.bytes text) (codes "text/plain; charset=utf-8"))
  choose_body none (some json) path encoded = do
    serialized ← ok_or bad_json (parsers.json_bytes json)
    ok (inline_body serialized (codes "application/json"))
  choose_body none none (some path) encoded = do
    filled ← ensure (not (is_empty (trim path))) empty_file
    regular ← ok_or no_file (parsers.is_file (trim path))
    checked ← ensure regular not_regular_file
    ok (record {
      source = file (trim path);
      default_content_type = parsers.content_type_of (trim path);
    })
  choose_body none none none (some encoded) = do
    decoded ← ok_or bad_base64 (parsers.decode_base64 encoded)
    ok (inline_body decoded (codes "application/octet-stream"))
  choose_body none none none none = err expect_failed

  unfoldable pub compile_respond_body :
      Option (RespondBodySchema Json) → Result CompileError CompiledRespondBody
  unfolding choose_body
  compile_respond_body none = ok (record { source = inline []; default_content_type = none })
  compile_respond_body (some body) = do
    let sources =
        bool_count (is_some body.text)
        + bool_count (is_some body.json)
        + bool_count (is_some body.base64)
        + bool_count (is_some body.file)
    one ← ensure (sources == 1) body_count
    choose_body body.text body.json body.file body.base64

  -- The loop over the headers.
  unfoldable pub compile_headers : HashMap Text Text → HeaderMap → Result CompileError HeaderMap
  compile_headers [] compiled = ok compiled
  compile_headers ((name, value) ∷ headers) compiled = do
    header ← ok_or bad_header (parsers.header_name name)
    no_length ← ensure (not (header == codes "content-length")) length_header
    no_type ← ensure (not (header == codes "content-type")) type_header
    bytes ← ok_or bad_header (parsers.header_value value)
    compile_headers headers (parsers.header_insert header bytes compiled)

  abbrev pub with_content_type :
      Option Text → Option Text → HeaderMap → Result CompileError HeaderMap
  with_content_type (some given) default_type headers = do
    filled ← ensure (not (is_empty (trim given))) empty_content_type
    bytes ← ok_or bad_header (parsers.header_value (trim given))
    ok (parsers.header_insert (codes "content-type") bytes headers)
  with_content_type none (some default_type) headers =
      ok (parsers.header_insert (codes "content-type") (parsers.static_value default_type) headers)
  with_content_type none none headers = ok headers

  unfoldable pub compile_respond_action :
      Option ℕ
      → HashMap Text Text
      → Option Text
      → Option (RespondBodySchema Json)
      → Result CompileError RespondRuleAction
  unfolding compile_headers compile_respond_body
  compile_respond_action status headers content_type body = do
    valid ← ensure (is_status (unwrap_or 200 status)) bad_status
    compiled ← compile_headers headers []
    compiled_body ← compile_respond_body body
    all ← with_content_type content_type compiled_body.default_content_type compiled
    ok (record { status = unwrap_or 200 status; headers = all; body = compiled_body.source })

  unfoldable pub action_try_from : RuleActionSchema Json → Result CompileError RuleAction
  unfolding upstream_try_from compile_respond_action
  action_try_from (mirror_to upstream) = do plan ← upstream_try_from upstream; ok (mirror plan)
  action_try_from go_direct = ok direct
  action_try_from (respond_with status headers content_type body) = do
    action ← compile_respond_action status (unwrap_or [] headers) content_type body
    ok (respond action)
  action_try_from (call_plugin name) = do
    filled ← ensure (not (is_empty (trim name))) empty_plugin_name
    ok (plugin name)
  action_try_from (reject_with status message) = do
    let text = trim (unwrap_or (codes "request rejected by rule") message)
    valid ← ensure (is_status (unwrap_or 403 status)) bad_status
    filled ← ensure (not (is_empty text)) empty_message
    ok (reject (record { status = unwrap_or 403 status; message = text }))
