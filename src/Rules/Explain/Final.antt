-- ===== src/Rules/Explain/Final.antt =====
-- The final match of an explanation in src/rules/pool/runtime.rs, compared with a resolution.
use any_mirror.Common.{nat_eq, pair_eq, list_eq, option_eq, ip_eq}
use any_mirror.Rules.Url.{Url}
