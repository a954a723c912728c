-- ===== src/Config/Backend.antt =====
-- src/config.rs: the options of the backend and of the observability.
use any_mirror.Rules.Compile.{◌>>=◌, ensure, ok_or, each}
use any_mirror.Common.{
  ltb, leb, if◌then◌else◌, ◌==◌, nat_eq, pair_eq, list_eq, option_eq, Result, ok, err, ip_eq, ℕ,
  ◌+◌, ◌-◌, ◌*◌, Bool, not, ◌&&◌, ◌||◌, Option, none, some, List, [], ◌∷◌,
}
use any_mirror.Text.{Text, codes, is_empty, strip_prefix, trim}
use any_mirror.Traffic.Dns.{FakeDnsOptions}
use any_mirror.Config.{
  SocketAddr, ConfigError, bad_listen, bad_kind, bad_layer, bad_stack, bad_platform_dns,
  bad_fake_range, empty_hijack, bad_hijack, empty_tun_name, zero_mtu, empty_service_name,
  empty_endpoint, Filled, RawTunBackendOptions, RawFakeDnsOptions, RawBackendOptions,
  RawTelemetryOptions, RawObservabilityOptions, System,
}

pub data TransparentBackendKind : Type 0 where
  win_divert tun : TransparentBackendKind

pub data WinDivertLayerConfig : Type 0 where
  network network_forward : WinDivertLayerConfig

pub data TunStack : Type 0 where
  system_stack smoltcp : TunStack

pub data TunPlatformDnsMode : Type 0 where
  auto manual : TunPlatformDnsMode

pub data TunDnsHijackTransport : Type 0 where
  over_udp over_tcp : TunDnsHijackTransport

pub data TunDnsHijackTarget : Type 0 where
  any : ℕ → TunDnsHijackTarget
  exact_addr : SocketAddr → TunDnsHijackTarget

pub record TunDnsHijackSpec : Type 0 where
  pub transport : TunDnsHijackTransport
  pub target : TunDnsHijackTarget

pub record WinDivertBackendOptions : Type 0 where
  pub layer : WinDivertLayerConfig

pub record TunBackendOptions : Type 0 where
  pub name : Text
  pub mtu : ℕ
  pub stack : TunStack
  pub platform_dns : TunPlatformDnsMode
  pub dns_hijack : List TunDnsHijackSpec

pub record BackendOptions : Type 0 where
  pub kind : TransparentBackendKind
  pub dns : FakeDnsOptions
  pub windivert : WinDivertBackendOptions
  pub tun : TunBackendOptions

pub record TelemetryOptions : Type 0 where
  pub service_name : Text
  pub otlp_endpoint : Text

pub record ObservabilityOptions : Type 0 where
  pub enabled : Bool
  pub telemetry : TelemetryOptions

-- `value.trim().is_empty()`
abbrev pub is_blank : Text → Bool
is_blank value = is_empty (trim value)

unfoldable pub parse_windivert_layer : Text → Result ConfigError WinDivertLayerConfig
parse_windivert_layer value =
    if value == codes "network"
    then ok network
    else if value == codes "network-forward" || value == codes "network_forward"
    then ok network_forward
    else err bad_layer

unfoldable pub parse_backend_kind : Text → Result ConfigError TransparentBackendKind
parse_backend_kind value =
    if value == codes "windivert"
    then ok win_divert
    else if value == codes "tun" || value == codes "tun-rs" || value == codes "tun_rs"
    then ok tun
    else err bad_kind

unfoldable pub parse_tun_stack : Text → Result ConfigError TunStack
parse_tun_stack value =
    if value == codes "system"
    then ok system_stack
    else if value == codes "smoltcp"
    then ok smoltcp
    else err bad_stack

unfoldable pub parse_tun_platform_dns : Text → Result ConfigError TunPlatformDnsMode
parse_tun_platform_dns value =
    if value == codes "auto"
    then ok auto
    else if value == codes "manual"
    then ok manual
    else err bad_platform_dns

-- `parse::<u16>()`: a plus sign may stand before the digits, and a number that leaves the width is
-- an error.
unfoldable pub parse_digits : ℕ → Text → Option ℕ
parse_digits value [] = some value
parse_digits value (c ∷ cs) =
    let rest = parse_digits (value * 10 + (c - b'0')) cs in
    if leb b'0' c && leb c b'9' && ltb (value * 10 + (c - b'0')) 65536 then rest else none

unfoldable pub parse_u16 : Text → Option ℕ
unfolding parse_digits
parse_u16 [] = none
parse_u16 (c ∷ cs) =
    if c == b'+' then if is_empty cs then none else parse_digits 0 cs else parse_digits 0 (c ∷ cs)

unfoldable pub hijack_transport : Text → TunDnsHijackTransport × Text
unfolding strip_prefix
hijack_transport normalized = elim (strip_prefix normalized (codes "tcp://")) [
  | some rest ↦ (over_tcp, rest)
  | none ↦ elim (strip_prefix normalized (codes "udp://")) [
    | some rest ↦ (over_udp, rest)
    | none ↦ (over_udp, normalized)
  ]
]

module _ {Json Yaml : Type 0} (system : System Json Yaml) where
  unfoldable pub parse_tun_dns_hijack_target : Text → Result ConfigError TunDnsHijackTarget
  unfolding strip_prefix parse_u16
  parse_tun_dns_hijack_target value = elim (strip_prefix value (codes "any:")) [
    | some port ↦ ok_or bad_hijack (parse_u16 port) >>= (λ port. ok (any port))
    | none ↦ ok_or bad_hijack (system.parse_addr value) >>= (λ addr. ok (exact_addr addr))
  ]

  unfoldable pub parse_tun_dns_hijack_spec : Text → Result ConfigError TunDnsHijackSpec
  unfolding trim hijack_transport parse_tun_dns_hijack_target
  parse_tun_dns_hijack_spec value = do
    not_empty ← ensure (not (is_blank value)) empty_hijack
    let parts = hijack_transport (trim value)
    target ← parse_tun_dns_hijack_target parts.1
    ok (record { transport = parts.0; target = target })

  unfoldable pub fake_dns_try_from : RawFakeDnsOptions Filled → Result ConfigError FakeDnsOptions
  fake_dns_try_from value = do
    listen_addr ← ok_or bad_listen (system.parse_addr value.listen)
    fake_ipv4_range ← ok_or bad_fake_range (system.parse_ipv4_net value.fake_ipv4_range)
    fake_ipv6_range ← ok_or bad_fake_range (system.parse_ipv6_net value.fake_ipv6_range)
    ok (record {
      listen_addr = listen_addr;
      fake_ipv4_range = fake_ipv4_range;
      fake_ipv6_range = fake_ipv6_range;
      record_ttl = value.record_ttl_secs;
    })

  unfoldable pub tun_try_from : RawTunBackendOptions Filled → Result ConfigError TunBackendOptions
  unfolding trim parse_tun_stack parse_tun_platform_dns parse_tun_dns_hijack_spec
  tun_try_from value = do
    has_text ← ensure (not (is_blank value.name)) empty_tun_name
    positive ← ensure (not (value.mtu == 0)) zero_mtu
    stack ← parse_tun_stack value.stack
    platform_dns ← parse_tun_platform_dns value.platform_dns
    dns_hijack ← each parse_tun_dns_hijack_spec value.dns_hijack
    ok (record {
      name = value.name;
      mtu = value.mtu;
      stack = stack;
      platform_dns = platform_dns;
      dns_hijack = dns_hijack;
    })

  unfoldable pub backend_try_from : RawBackendOptions Filled → Result ConfigError BackendOptions
  unfolding parse_backend_kind parse_windivert_layer fake_dns_try_from tun_try_from
  backend_try_from value = do
    kind ← parse_backend_kind value.kind
    dns ← fake_dns_try_from value.dns
    layer ← parse_windivert_layer value.windivert.layer
    tun_options ← tun_try_from value.tun
    ok (record { kind = kind; dns = dns; windivert = record { layer = layer }; tun = tun_options })

unfoldable pub telemetry_try_from : RawTelemetryOptions Filled → Result ConfigError TelemetryOptions
unfolding trim
telemetry_try_from value = do
  has_text ← ensure (not (is_blank value.service_name)) empty_service_name
  reachable ← ensure (not (is_blank value.otlp_endpoint)) empty_endpoint
  ok (record { service_name = value.service_name; otlp_endpoint = value.otlp_endpoint })

unfoldable pub observability_try_from :
    RawObservabilityOptions Filled → Result ConfigError ObservabilityOptions
unfolding telemetry_try_from
observability_try_from value = do
  telemetry ← telemetry_try_from value.telemetry
  ok (record { enabled = value.enable; telemetry = telemetry })
