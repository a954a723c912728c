-- ===== src/Config/Raw.antt =====
-- src/config.rs: the defaults of what a configuration file leaves out.
use any_mirror.Rules.Compile.Actions.{unwrap_or}
use any_mirror.Common.{
  if◌then◌else◌, nat_eq, pair_eq, list_eq, option_eq, ip_eq, ℕ, true, false, Option, none, some,
  List, [], ◌∷◌, map,
}
use any_mirror.Text.{Text, codes}
use any_mirror.Config.{
  Filled, RawWinDivertBackendOptions, RawTunBackendOptions, RawFakeDnsOptions, RawBackendOptions,
  RawTelemetryOptions, RawObservabilityOptions, RawPluginStagePermissions, RawPluginPermissions,
  RawPluginDefinition, RawPluginRuntimeOptions, RawConfig, System,
}

abbrev pub default_listen_addr : Text
default_listen_addr = codes "127.0.0.1:8787"

abbrev pub default_plugin_engine : Text
default_plugin_engine = codes "quickjs"

abbrev pub default_telemetry_otlp_endpoint : Text
default_telemetry_otlp_endpoint = codes "http://127.0.0.1:4317"

abbrev pub default_backend_dns_listen_addr : Text
default_backend_dns_listen_addr = codes "127.0.0.1:15353"

abbrev pub default_windivert_layer : Text
default_windivert_layer = codes "network"

abbrev pub default_tun_name : Text
default_tun_name = codes "anymirror-tun"

abbrev pub default_tun_mtu : ℕ
default_tun_mtu = 1500

abbrev pub default_tun_stack : Text
default_tun_stack = codes "smoltcp"

abbrev pub default_tun_dns_hijack : List Text
default_tun_dns_hijack = codes "any:53" ∷ codes "tcp://any:53" ∷ []

abbrev pub default_fake_ipv4_range : Text
default_fake_ipv4_range = codes "198.18.0.0/16"

abbrev pub default_fake_ipv6_range : Text
default_fake_ipv6_range = codes "fd00:198:18::/48"

abbrev pub default_fake_ip_record_ttl_secs : ℕ
default_fake_ip_record_ttl_secs = 60

abbrev pub no_windivert : RawWinDivertBackendOptions Filled
no_windivert = record { layer = default_windivert_layer }

abbrev pub no_fake_dns : RawFakeDnsOptions Filled
no_fake_dns = record {
  listen = default_backend_dns_listen_addr;
  fake_ipv4_range = default_fake_ipv4_range;
  fake_ipv6_range = default_fake_ipv6_range;
  record_ttl_secs = default_fake_ip_record_ttl_secs;
}

abbrev pub no_permissions : RawPluginPermissions Filled
no_permissions = record {
  on_request = record { body = false };
  on_response = record { body = false };
}

unfoldable pub fill_windivert :
    RawWinDivertBackendOptions Option → RawWinDivertBackendOptions Filled
fill_windivert raw = record { layer = unwrap_or default_windivert_layer raw.layer }

unfoldable pub fill_fake_dns : RawFakeDnsOptions Option → RawFakeDnsOptions Filled
fill_fake_dns raw = record {
  listen = unwrap_or default_backend_dns_listen_addr raw.listen;
  fake_ipv4_range = unwrap_or default_fake_ipv4_range raw.fake_ipv4_range;
  fake_ipv6_range = unwrap_or default_fake_ipv6_range raw.fake_ipv6_range;
  record_ttl_secs = unwrap_or default_fake_ip_record_ttl_secs raw.record_ttl_secs;
}

abbrev pub fill_or : {Given Full : Type 0} → Full → (Given → Full) → Option Given → Full
fill_or default fill none = default
fill_or default fill (some given) = fill given

unfoldable pub fill_stage : RawPluginStagePermissions Option → RawPluginStagePermissions Filled
fill_stage raw = record { body = unwrap_or false raw.body }

unfoldable pub fill_permissions : RawPluginPermissions Option → RawPluginPermissions Filled
unfolding fill_stage
fill_permissions raw = record {
  on_request = fill_or no_permissions.on_request fill_stage raw.on_request;
  on_response = fill_or no_permissions.on_response fill_stage raw.on_response;
}

module _ {Json Yaml : Type 0} (system : System Json Yaml) where
  abbrev pub default_backend_kind : Text
  default_backend_kind = if system.is_windows then codes "windivert" else codes "tun"

  abbrev pub default_tun_platform_dns : Text
  default_tun_platform_dns = if system.is_windows then codes "auto" else codes "manual"

  abbrev pub default_plugin_workers : ℕ
  default_plugin_workers = unwrap_or 1 system.parallelism

  abbrev pub default_telemetry_service_name : Text
  default_telemetry_service_name = system.package_name

  abbrev pub no_tun : RawTunBackendOptions Filled
  no_tun = record {
    name = default_tun_name;
    mtu = default_tun_mtu;
    stack = default_tun_stack;
    platform_dns = default_tun_platform_dns;
    dns_hijack = default_tun_dns_hijack;
  }

  -- `RawBackendOptions::default()` is derived: the kind is the empty text.
  abbrev pub no_backend : RawBackendOptions Filled
  no_backend = record { kind = []; dns = no_fake_dns; windivert = no_windivert; tun = no_tun }

  abbrev pub no_telemetry : RawTelemetryOptions Filled
  no_telemetry = record {
    service_name = default_telemetry_service_name;
    otlp_endpoint = default_telemetry_otlp_endpoint;
  }

  abbrev pub no_observability : RawObservabilityOptions Filled
  no_observability = record { enable = false; telemetry = no_telemetry }

  abbrev pub no_plugins : RawPluginRuntimeOptions Yaml Filled
  no_plugins = record { enabled = false; workers = default_plugin_workers; includes = [] }

  unfoldable pub fill_tun : RawTunBackendOptions Option → RawTunBackendOptions Filled
  fill_tun raw = record {
    name = unwrap_or default_tun_name raw.name;
    mtu = unwrap_or default_tun_mtu raw.mtu;
    stack = unwrap_or default_tun_stack raw.stack;
    platform_dns = unwrap_or default_tun_platform_dns raw.platform_dns;
    dns_hijack = unwrap_or default_tun_dns_hijack raw.dns_hijack;
  }

  unfoldable pub fill_backend : RawBackendOptions Option → RawBackendOptions Filled
  unfolding fill_fake_dns fill_windivert fill_tun
  fill_backend raw = record {
    kind = unwrap_or default_backend_kind raw.kind;
    dns = fill_or no_fake_dns fill_fake_dns raw.dns;
    windivert = fill_or no_windivert fill_windivert raw.windivert;
    tun = fill_or no_tun fill_tun raw.tun;
  }

  unfoldable pub fill_telemetry : RawTelemetryOptions Option → RawTelemetryOptions Filled
  fill_telemetry raw = record {
    service_name = unwrap_or default_telemetry_service_name raw.service_name;
    otlp_endpoint = unwrap_or default_telemetry_otlp_endpoint raw.otlp_endpoint;
  }

  unfoldable pub fill_observability :
      RawObservabilityOptions Option → RawObservabilityOptions Filled
  unfolding fill_telemetry
  fill_observability raw = record {
    enable = unwrap_or false raw.enable;
    telemetry = fill_or no_telemetry fill_telemetry raw.telemetry;
  }

  unfoldable pub fill_plugin : RawPluginDefinition Yaml Option → RawPluginDefinition Yaml Filled
  unfolding fill_permissions
  fill_plugin raw = record {
    name = raw.name;
    engine = unwrap_or default_plugin_engine raw.engine;
    enabled = unwrap_or true raw.enabled;
    root = raw.root;
    matcher = raw.matcher;
    permissions = fill_or no_permissions fill_permissions raw.permissions;
    config = unwrap_or system.null raw.config;
  }

  unfoldable pub fill_plugins :
      RawPluginRuntimeOptions Yaml Option → RawPluginRuntimeOptions Yaml Filled
  unfolding fill_plugin
  fill_plugins raw = record {
    enabled = unwrap_or false raw.enabled;
    workers = unwrap_or default_plugin_workers raw.workers;
    includes = map fill_plugin (unwrap_or [] raw.includes);
  }

  unfoldable pub fill_config : RawConfig Json Yaml Option → RawConfig Json Yaml Filled
  unfolding fill_backend fill_observability fill_plugins
  fill_config raw = record {
    listen = unwrap_or default_listen_addr raw.listen;
    tls_port = raw.tls_port;
    backend = fill_or no_backend fill_backend raw.backend;
    observability = fill_or no_observability fill_observability raw.observability;
    plugins = fill_or no_plugins fill_plugins raw.plugins;
    includes = unwrap_or [] raw.includes;
  }
