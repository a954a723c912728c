-- ===== src/Config/Tests.antt =====
-- A configuration in the manner of the tests of src/config.rs, loaded, and instances of the theorems.
use any_mirror.Common.{
  ◌==◌, nat_eq, pair_eq, list_eq, option_eq, ok, v4, ip_eq, ℕ, ◌≡◌, refl, sym, subst, ◌≢◌, true,
  false, Option, none, some, [], ◌∷◌, ◌++◌,
}
use any_mirror.Text.{codes, starts_with}
use any_mirror.Rules.Compile.{Parsers}
use any_mirror.Rules.Schema.{RuleMatcherSchema}
use any_mirror.Rules.Compile.Sets.{rule_try_from}
use mathlib.Core.List.{Memᴰ}
use any_mirror.Rules.Model.{kind_exact, medium, exact_url, plugin, Rule}
use any_mirror.Rules.Resolve.{new_rule_set}
use any_mirror.Config.{
  Filled, RawBackendOptions, RawPluginDefinition, RawPluginRuntimeOptions, RawConfig, System,
}
use any_mirror.Config.Raw.{no_permissions, fill_config}
use any_mirror.Config.Backend.{
  tun, network, smoltcp, manual, over_udp, over_tcp, any, parse_tun_dns_hijack_spec,
}
use any_mirror.Config.Plugins.{quick_js, plugin_rule}
use any_mirror.Config.Load.{AppConfig, load_config}
use any_mirror.Config.Path.{resolve_config_path}
use any_mirror.Config.Valid.{IsValidConfig, load_config-IsValidConfig}
use any_mirror.Config.Documents.{load_config-plugin_rule, load_config-no_backend}
use any_mirror.Config.Names.{IsResolved, resolve_config_path-IsResolved}
use any_mirror.Config.Hijack.{port_or_error, parse_tun_dns_hijack_spec-any}

abbrev parsers : Parsers ℕ
parsers = record {
  parse_url = λ t. some (record {
    scheme = codes "https";
    host_str = some (codes "api");
    port_or_known_default = some 443;
    path = b'/' ∷ t;
    query = none;
    fragment = none;
  });
  parse_net = λ t. none;
  header_name = λ t. some t;
  header_value = λ t. some t;
  header_insert = λ n b h. (n, b) ∷ h;
  static_value = λ t. t;
  bytes = λ t. t;
  json_bytes = λ j. some (j ∷ []);
  decode_base64 = λ t. some t;
  is_file = λ t. some true;
  content_type_of = λ t. none;
}

abbrev exact_matcher : RuleMatcherSchema
exact_matcher = record {
  exact = some (codes "u");
  prefix = none;
  host = none;
  hosts = none;
  host_suffix = none;
  ip = none;
  ip_cidr = none;
  scheme = none;
  port = none;
  path_prefix = none;
}

-- A plugin that gives its name and its matcher only.
abbrev script : RawPluginDefinition ℕ Option
script = record {
  name = codes "p";
  engine = none;
  enabled = none;
  root = none;
  matcher = some exact_matcher;
  permissions = none;
  config = none;
}

abbrev plugins : RawPluginRuntimeOptions ℕ Option
plugins = record { enabled = none; workers = some 2; includes = some (script ∷ []) }

abbrev document : Option (RawBackendOptions Option) → RawConfig ℕ ℕ Option
document backend = record {
  listen = none;
  tls_port = none;
  backend = backend;
  observability = none;
  plugins = some plugins;
  includes = none;
}

-- A section `backend` that holds nothing.
abbrev empty_backend : RawBackendOptions Option
empty_backend = record { kind = none; dns = none; windivert = none; tun = none }

-- A system whose files hold one document; `work.yaml` is one of them.
abbrev system_with : RawConfig ℕ ℕ Option → System ℕ ℕ
system_with held = record {
  is_windows = false;
  package_name = codes "anymirror";
  parallelism = none;
  read_to_string = λ path. some path;
  is_file = λ path. path == codes "work.yaml";
  from_str = λ text. some held;
  null = 0;
  to_value = λ yaml. some yaml;
  parse_addr = λ text. some (v4 0x7f000001, 8787);
  parse_ipv4_net = λ text. some (record { network = 0xc6120000; broadcast = 0xc612ffff });
  parse_ipv6_net = λ text. some (record { network = 0; prefix_len = 48 });
  parent = λ path. none;
  file_name = λ path. some path;
  is_absolute = λ path. starts_with path (codes "/");
  components = λ path. 1;
  join = λ base path. base ++ b'/' ∷ path;
}

abbrev system : System ℕ ℕ
system = system_with (document (some empty_backend))

abbrev exact_rule : Rule
exact_rule = record {
  kind = kind_exact;
  matcher = exact_url (record {
    scheme = codes "https";
    host_str = some (codes "api");
    port_or_known_default = some 443;
    path = codes "/u";
    query = none;
    fragment = none;
  });
  action = plugin (codes "p");
  priority = medium;
  spread = false;
}

abbrev config : AppConfig ℕ
config = record {
  listen_addr = (v4 0x7f000001, 8787);
  tls_port = none;
  backend = record {
    kind = tun;
    dns = record {
      listen_addr = (v4 0x7f000001, 8787);
      fake_ipv4_range = record { network = 0xc6120000; broadcast = 0xc612ffff };
      fake_ipv6_range = record { network = 0; prefix_len = 48 };
      record_ttl = 60;
    };
    windivert = record { layer = network };
    tun = record {
      name = codes "anymirror-tun";
      mtu = 1500;
      stack = smoltcp;
      platform_dns = manual;
      dns_hijack =
          record { transport = over_udp; target = any 53 }
          ∷ record { transport = over_tcp; target = any 53 }
          ∷ [];
    };
  };
  observability = record {
    enabled = false;
    telemetry = record {
      service_name = codes "anymirror";
      otlp_endpoint = codes "http://127.0.0.1:4317";
    };
  };
  plugins = record {
    enabled = false;
    workers = 2;
    definitions =
        record {
          name = codes "p";
          engine = quick_js;
          enabled = true;
          root = codes "./plugins/p";
          permissions = record { on_request_body = false; on_response_body = false };
          config = 0;
        }
        ∷ [];
  };
  rules = new_rule_set (exact_rule ∷ []);
}

loads : load_config system parsers (codes "config.yml") ≡ ok config
unfolding load_config starts_with
loads = refl

load_config-IsValidConfig_example : IsValidConfig config
load_config-IsValidConfig_example =
    load_config-IsValidConfig system parsers (codes "config.yml") config loads

abbrev filled : RawPluginDefinition ℕ Filled
filled = record {
  name = codes "p";
  engine = codes "quickjs";
  enabled = true;
  root = none;
  matcher = some exact_matcher;
  permissions = no_permissions;
  config = 0;
}

includes-filled :
    (fill_config system (document (some empty_backend))).plugins.includes ≡ filled ∷ []
unfolding fill_config
includes-filled = refl

load_config-plugin_rule_example :
    (rule : Rule) × Memᴰ rule (exact_rule ∷ [])
    × (rule_try_from parsers (plugin_rule (codes "p") exact_matcher) ≡ ok rule)
    × (rule.action ≡ plugin (codes "p"))
unfolding new_rule_set
load_config-plugin_rule_example =
    load_config-plugin_rule system parsers (codes "config.yml") (codes "config.yml")
      (document (some empty_backend)) refl refl filled exact_matcher config
      (subst (Memᴰ filled) (sym includes-filled) (Memᴰ.head refl)) refl refl loads

load_config-no_backend_example :
    load_config (system_with (document none)) parsers (codes "config.yml") ≢ ok config
load_config-no_backend_example =
    load_config-no_backend (system_with (document none)) parsers (codes "config.yml")
      (codes "config.yml") (document none) refl refl refl config

resolve_config_path-IsResolved_example :
    IsResolved system (codes "work") (resolve_config_path system (codes "work"))
resolve_config_path-IsResolved_example = resolve_config_path-IsResolved system (codes "work")

resolves_alias : resolve_config_path system (codes "work") ≡ ok (codes "work.yaml")
unfolding resolve_config_path
resolves_alias = refl

parse_tun_dns_hijack_spec-any_example :
    (parse_tun_dns_hijack_spec system (codes "tcp://any:65536")
      ≡ port_or_error over_tcp (codes "65536"))
    × (parse_tun_dns_hijack_spec system (codes "udp://any:65536")
        ≡ port_or_error over_udp (codes "65536"))
    × (parse_tun_dns_hijack_spec system (codes "any:65536")
        ≡ port_or_error over_udp (codes "65536"))
parse_tun_dns_hijack_spec-any_example =
    parse_tun_dns_hijack_spec-any system b'6' (codes "5536") refl
