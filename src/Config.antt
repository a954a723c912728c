-- ===== src/Config.antt =====
-- src/config.rs: what a configuration file holds, and what its loading asks of the system.
pub mod Raw
pub mod Backend
pub mod Plugins
pub mod Load
pub mod Path
pub mod Checks
pub mod Valid
pub mod Documents
pub mod Names
pub mod Hijack
mod Tests
use any_mirror.Common.{IpAddr, ℕ, Bool, Option, List}
use any_mirror.Text.{Text}
use any_mirror.FakeIp.Range.{Ipv4Net, Ipv6Net}
use any_mirror.Rules.Schema.{RuleMatcherSchema, RuleSchema}
use any_mirror.Rules.Compile.{CompileError}

abbrev pub SocketAddr : Type 0
SocketAddr = IpAddr × ℕ

pub data ConfigError : Type 0 where
  file_unreadable bad_yaml bad_listen no_rules : ConfigError
  bad_rules : CompileError → ConfigError
  bad_kind bad_layer bad_stack bad_platform_dns bad_fake_range : ConfigError
  empty_hijack bad_hijack empty_tun_name zero_mtu empty_service_name empty_endpoint : ConfigError
  zero_workers duplicate_plugin empty_plugin empty_root bad_engine bad_config : ConfigError
  empty_body_file unknown_alias : ConfigError

-- A record of the file has `Option` around the fields that have a default, and `Filled` after the
-- defaults are put in.
abbrev pub Filled : Type 0 → Type 0
Filled A = A

pub record RawWinDivertBackendOptions (Field : Type 0 → Type 0) : Type 0 where
  pub layer : Field Text

pub record RawTunBackendOptions (Field : Type 0 → Type 0) : Type 0 where
  pub name : Field Text
  pub mtu : Field ℕ
  pub stack : Field Text
  pub platform_dns : Field Text
  pub dns_hijack : Field (List Text)

pub record RawFakeDnsOptions (Field : Type 0 → Type 0) : Type 0 where
  pub listen : Field Text
  pub fake_ipv4_range : Field Text
  pub fake_ipv6_range : Field Text
  pub record_ttl_secs : Field ℕ

pub record RawBackendOptions (Field : Type 0 → Type 0) : Type 0 where
  pub kind : Field Text
  pub dns : Field (RawFakeDnsOptions Field)
  pub windivert : Field (RawWinDivertBackendOptions Field)
  pub tun : Field (RawTunBackendOptions Field)

pub record RawTelemetryOptions (Field : Type 0 → Type 0) : Type 0 where
  pub service_name : Field Text
  pub otlp_endpoint : Field Text

pub record RawObservabilityOptions (Field : Type 0 → Type 0) : Type 0 where
  pub enable : Field Bool
  pub telemetry : Field (RawTelemetryOptions Field)

pub record RawPluginStagePermissions (Field : Type 0 → Type 0) : Type 0 where
  pub body : Field Bool

pub record RawPluginPermissions (Field : Type 0 → Type 0) : Type 0 where
  pub on_request : Field (RawPluginStagePermissions Field)
  pub on_response : Field (RawPluginStagePermissions Field)

pub record RawPluginDefinition (Yaml : Type 0) (Field : Type 0 → Type 0) : Type 0 where
  pub name : Text
  pub engine : Field Text
  pub enabled : Field Bool
  pub root : Option Text
  pub matcher : Option RuleMatcherSchema
  pub permissions : Field (RawPluginPermissions Field)
  pub config : Field Yaml

pub record RawPluginRuntimeOptions (Yaml : Type 0) (Field : Type 0 → Type 0) : Type 0 where
  pub enabled : Field Bool
  pub workers : Field ℕ
  pub includes : Field (List (RawPluginDefinition Yaml Field))

pub record RawConfig (Json Yaml : Type 0) (Field : Type 0 → Type 0) : Type 0 where
  pub listen : Field Text
  pub tls_port : Option ℕ
  pub backend : Field (RawBackendOptions Field)
  pub observability : Field (RawObservabilityOptions Field)
  pub plugins : Field (RawPluginRuntimeOptions Yaml Field)
  pub includes : Field (List (RuleSchema Json))

-- The build and the machine, the files, `serde_yaml` and `serde_json`, the parsers of addresses and
-- of networks, and the paths of the platform.
pub record System (Json Yaml : Type 0) : Type 0 where
  pub is_windows : Bool
  pub package_name : Text
  pub parallelism : Option ℕ
  pub read_to_string : Text → Option Text
  pub is_file : Text → Bool
  pub from_str : Text → Option (RawConfig Json Yaml Option)
  pub null : Yaml
  pub to_value : Yaml → Option Json
  pub parse_addr : Text → Option SocketAddr
  pub parse_ipv4_net : Text → Option Ipv4Net
  pub parse_ipv6_net : Text → Option Ipv6Net
  pub parent : Text → Option Text
  pub file_name : Text → Option Text
  pub is_absolute : Text → Bool
  pub components : Text → ℕ
  pub join : Text → Text → Text
