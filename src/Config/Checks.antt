-- ===== src/Config/Checks.antt =====
-- What the checks of src/config.rs leave of the parts of a configuration.
use mathlib.Core.List.{Memᴰ, Nodup, Nodup-cons}
use mathlib.Core.List.Memᴰ
use mathlib.Core.List.Pairwise
use mathlib.Core.Logic.{∥∥₁_elim}
use mathlib.Core.HLevel.{⊥_prop}
use any_mirror.Rules.Compile.{ensure, each}
use any_mirror.Rules.Compile.Fit.{bind_ok, ok_injective}
use any_mirror.Common.{
  ◌==◌, nat_eq, pair_eq, eq_refl, list_eq, option_eq, ok, ip_eq, ℕ, ◌≡◌, refl, sym, subst, ◌≢◌,
  Bool, true, false, not, List, [], ◌∷◌, map, arith,
}
use any_mirror.Text.{Text}
use any_mirror.Rules.Schema.{RuleSchema}
use any_mirror.Config.{
  ConfigError, empty_tun_name, zero_mtu, empty_service_name, empty_endpoint, zero_workers,
  duplicate_plugin, Filled, RawTunBackendOptions, RawBackendOptions, RawObservabilityOptions,
  RawPluginDefinition, RawPluginRuntimeOptions, System,
}
use any_mirror.Config.Backend.{
  TunBackendOptions, BackendOptions, ObservabilityOptions, is_blank, parse_windivert_layer,
  parse_backend_kind, parse_tun_stack, parse_tun_platform_dns, parse_tun_dns_hijack_spec,
  fake_dns_try_from, tun_try_from, backend_try_from, telemetry_try_from, observability_try_from,
}
use any_mirror.Config.Plugins.{
  PluginDefinition, PluginRuntimeOptions, has_name, plugin_from_raw, plugins_loop, plugins_from_raw,
}

-- No name stands among the names before it.
abbrev pub AreFresh : List Text → List Text → Type 0
AreFresh names [] = Unit
AreFresh names (name ∷ rest) = (has_name name names ≡ false) × AreFresh (name ∷ names) rest

abbrev pub names_of : {Json : Type 0} → List (PluginDefinition Json) → List Text
names_of definitions = map (λ definition. definition.name) definitions

pub has_name-new :
    (names xs : List Text) (name : Text)
    → AreFresh names xs
    → Memᴰ name xs
    → has_name name names ≡ false
has_name-new names [] name h m = absurd (Memᴰ.not-nil m)
has_name-new names (x ∷ xs) name h (Memᴰ.head e) = subst (λ n. has_name n names ≡ false) (sym e) h.0
has_name-new names (x ∷ xs) name h (Memᴰ.tail m) =
    ground (arith, has_name-new (x ∷ names) xs name h.1 m)

pub fresh-Nodup : (names xs : List Text) → AreFresh names xs → Nodup xs
fresh-Nodup names [] h = Pairwise.nil
fresh-Nodup names (x ∷ xs) h = Nodup-cons.1 (
  λ m. ∥∥₁_elim m ⊥_prop (λ d. ground (arith, has_name-new (x ∷ names) xs x h.1 d, eq_refl x)),
  fresh-Nodup (x ∷ names) xs h.1,
)

pub ensure_ok : (b : Bool) (e : ConfigError) (u : Unit {0}) → ensure (not b) e ≡ ok u → b ≡ false
ensure_ok true e u h = absurd (ground (arith, h))
ensure_ok false e u h = refl

pub ne_zero : (n : ℕ) → (n == 0) ≡ false → n ≢ 0
ne_zero n h = λ e. ground (arith, h, e)

pub observability-valid :
    (raw : RawObservabilityOptions Filled) (options : ObservabilityOptions)
    → observability_try_from raw ≡ ok options
    → (is_blank options.telemetry.service_name ≡ false)
      × (is_blank options.telemetry.otlp_endpoint ≡ false)
unfolding observability_try_from telemetry_try_from
observability-valid raw options h =
    let (telemetry, a, h1) = bind_ok (telemetry_try_from raw.telemetry) _ options h in
    let (u, b, h2) =
      bind_ok (ensure (not (is_blank raw.telemetry.service_name)) empty_service_name) _ telemetry
        a in
    let (v, c, h3) =
      bind_ok (ensure (not (is_blank raw.telemetry.otlp_endpoint)) empty_endpoint) _ telemetry h2 in
    subst
      (λ o.
        (is_blank o.telemetry.service_name ≡ false) × (is_blank o.telemetry.otlp_endpoint ≡ false))
      (ok_injective h1)
      (subst (λ t. (is_blank t.service_name ≡ false) × (is_blank t.otlp_endpoint ≡ false))
        (ok_injective h3) (ensure_ok _ _ u b, ensure_ok _ _ v c))

module _ {Json Yaml : Type 0} (system : System Json Yaml) where
  pub tun-valid :
      (raw : RawTunBackendOptions Filled) (options : TunBackendOptions)
      → tun_try_from system raw ≡ ok options
      → (is_blank options.name ≡ false) × (options.mtu ≢ 0)
  unfolding tun_try_from
  tun-valid raw options h =
      let (u, a, h1) = bind_ok (ensure (not (is_blank raw.name)) empty_tun_name) _ options h in
      let (v, b, h2) = bind_ok (ensure (not (raw.mtu == 0)) zero_mtu) _ options h1 in
      let (stack, c, h3) = bind_ok (parse_tun_stack raw.stack) _ options h2 in
      let (platform_dns, d, h4) = bind_ok (parse_tun_platform_dns raw.platform_dns) _ options h3 in
      let (dns_hijack, e, h5) =
        bind_ok (each (parse_tun_dns_hijack_spec system) raw.dns_hijack) _ options h4 in
      subst (λ o. (is_blank o.name ≡ false) × (o.mtu ≢ 0)) (ok_injective h5)
        (ensure_ok _ _ u a, ne_zero raw.mtu (ensure_ok _ _ v b))

  pub backend-valid :
      (raw : RawBackendOptions Filled) (options : BackendOptions)
      → backend_try_from system raw ≡ ok options
      → (is_blank options.tun.name ≡ false) × (options.tun.mtu ≢ 0)
  unfolding backend_try_from
  backend-valid raw options h =
      let (kind, a, h1) = bind_ok (parse_backend_kind raw.kind) _ options h in
      let (dns, b, h2) = bind_ok (fake_dns_try_from system raw.dns) _ options h1 in
      let (layer, c, h3) = bind_ok (parse_windivert_layer raw.windivert.layer) _ options h2 in
      let (tun_options, d, h4) = bind_ok (tun_try_from system raw.tun) _ options h3 in
      subst (λ o. (is_blank o.tun.name ≡ false) × (o.tun.mtu ≢ 0)) (ok_injective h4)
        (tun-valid raw.tun tun_options d)

  module _ (base_dir : Text) where
    pub plugins_loop-fresh :
        (names : List Text) (raws : List (RawPluginDefinition Yaml Filled))
        (result : List (PluginDefinition Json) × List (RuleSchema Json))
        → plugins_loop system base_dir names raws ≡ ok result
        → AreFresh names (names_of result.0)
    unfolding plugins_loop
    plugins_loop-fresh names [] result h =
        subst (λ r. AreFresh names (names_of r.0)) (ok_injective h) tt
    plugins_loop-fresh names (raw ∷ raws) result h =
        let (parsed, a, h1) = bind_ok (plugin_from_raw system base_dir raw) _ result h in
        let (u, b, h2) =
          bind_ok (ensure (not (has_name parsed.definition.name names)) duplicate_plugin) _ result
            h1 in
        let (rest, c, h3) =
          bind_ok (plugins_loop system base_dir (parsed.definition.name ∷ names) raws) _ result
            h2 in
        subst (λ r. AreFresh names (names_of r.0)) (ok_injective h3)
          (ensure_ok _ _ u b, plugins_loop-fresh (parsed.definition.name ∷ names) raws rest c)

    pub plugins-valid :
        (raw : RawPluginRuntimeOptions Yaml Filled)
        (result : PluginRuntimeOptions Json × List (RuleSchema Json))
        → plugins_from_raw system base_dir raw ≡ ok result
        → (result.0.workers ≢ 0) × Nodup (names_of result.0.definitions)
    unfolding plugins_from_raw
    plugins-valid raw result h =
        let (u, a, h1) = bind_ok (ensure (not (raw.workers == 0)) zero_workers) _ result h in
        let (parsed, b, h2) = bind_ok (plugins_loop system base_dir [] raw.includes) _ result h1 in
        subst (λ r. (r.0.workers ≢ 0) × Nodup (names_of r.0.definitions)) (ok_injective h2)
          (
            ne_zero raw.workers (ensure_ok _ _ u a),
            fresh-Nodup [] (names_of parsed.0) (plugins_loop-fresh [] raw.includes parsed b),
          )
