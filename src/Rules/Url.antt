-- ===== src/Rules/Url.antt =====
-- A parsed URL (`url::Url`), as the rules read it: the results of `scheme`, `host_str`,
-- `port_or_known_default`, `path`, `query` and `fragment`. A path is ASCII, since the parser escapes
-- all else, so its bytes are its code points.
use any_mirror.Common.{ℕ, Option}
use any_mirror.Text.{Text}

pub record Url : Type 0 where
  pub scheme : Text
  pub host_str : Option Text
  pub port_or_known_default : Option ℕ
  pub path : Text
  pub query : Option Text
  pub fragment : Option Text
