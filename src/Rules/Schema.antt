-- ===== src/Rules/Schema.antt =====
-- src/rules/schema.rs: the rules as the configuration spells them.
use any_mirror.Common.{nat_eq, pair_eq, list_eq, option_eq, IpAddr, ip_eq, ℤ, ℕ, Bool, Option, List}
use any_mirror.HashMap.{HashMap}
use any_mirror.Text.{Text}
use any_mirror.Rules.Model.{RulePriority, xlow, low, medium, high, xhigh, DnsMode}

pub data NamedRulePriority : Type 0 where
  named_xlow named_low named_medium named_high named_xhigh : NamedRulePriority

unfoldable pub named_priority : NamedRulePriority → RulePriority
named_priority named_xlow = xlow
named_priority named_low = low
named_priority named_medium = medium
named_priority named_high = high
named_priority named_xhigh = xhigh

pub data RulePrioritySchema : Type 0 where
  named : NamedRulePriority → RulePrioritySchema
  numeric : ℤ → RulePrioritySchema

unfoldable pub into_priority : RulePrioritySchema → RulePriority
unfolding named_priority
into_priority (named value) = named_priority value
into_priority (numeric value) = value

pub record RuleMatcherSchema : Type 0 where
  pub exact : Option Text
  pub prefix : Option Text
  pub host : Option Text
  pub hosts : Option (List Text)
  pub host_suffix : Option Text
  pub ip : Option IpAddr
  pub ip_cidr : Option Text
  pub scheme : Option Text
  pub port : Option ℕ
  pub path_prefix : Option Text

pub record DnsPlanSchema : Type 0 where
  pub mode : DnsMode
  pub server : Option Text

pub record UpstreamPlanSchema : Type 0 where
  pub url : Text
  pub sni : Option Text
  pub host : Option Text
  pub connect_host : Option Text
  pub connect_ip : Option IpAddr
  pub dns : Option DnsPlanSchema

-- `Json` is `serde_json::Value`.
pub record RespondBodySchema (Json : Type 0) : Type 0 where
  pub text : Option Text
  pub json : Option Json
  pub base64 : Option Text
  pub file : Option Text

pub data RuleActionSchema (Json : Type 0) : Type 0 where
  mirror_to : UpstreamPlanSchema → RuleActionSchema Json
  go_direct : RuleActionSchema Json
  respond_with :
      Option ℕ
      → Option (HashMap Text Text)
      → Option Text
      → Option (RespondBodySchema Json)
      → RuleActionSchema Json
  call_plugin : Text → RuleActionSchema Json
  reject_with : Option ℕ → Option Text → RuleActionSchema Json

pub record RuleSchema (Json : Type 0) : Type 0 where
  pub matcher : RuleMatcherSchema
  pub priority : Option RulePrioritySchema
  pub spread : Option Bool
  pub action : RuleActionSchema Json
