-- ===== src/Rules/Model.antt =====
-- src/rules/model.rs: rules, their matchers and their actions.
use any_mirror.Common.{
  nat_eq, pair_eq, list_eq, option_eq, IpAddr, ℤ, pos, negsuc, ℕ, Bool, Option, List,
}
use any_mirror.Text.{Text}
use any_mirror.Rules.Url.{Url}
use any_mirror.Trie.Cidr.{Cidr}

pub data RuleKind : Type 0 where
  kind_exact kind_prefix kind_host kind_hosts kind_host_suffix kind_ip kind_ip_cidr : RuleKind

-- `RulePriority(i32)`
abbrev pub RulePriority : Type 0
RulePriority = ℤ

abbrev pub xlow : RulePriority
xlow = negsuc 199

abbrev pub low : RulePriority
low = negsuc 99

abbrev pub medium : RulePriority
medium = pos 0

abbrev pub high : RulePriority
high = pos 100

abbrev pub xhigh : RulePriority
xhigh = pos 200

-- `ipnet::IpNet`, by the network's address and the length of its prefix.
pub data IpNet : Type 0 where
  net_v4 : Cidr → IpNet
  net_v6 : Cidr → IpNet

pub data HostPattern : Type 0 where
  exact_host : Text → HostPattern
  any_of : List Text → HostPattern
  suffix : Text → HostPattern

pub data IpPattern : Type 0 where
  exact_ip : IpAddr → IpPattern
  cidr : IpNet → IpPattern

pub record HostRuleMatcher : Type 0 where
  pub pattern : HostPattern
  pub scheme : Option Text
  pub port : Option ℕ
  pub path_prefix : Option Text

pub record IpRuleMatcher : Type 0 where
  pub pattern : IpPattern
  pub scheme : Option Text
  pub port : Option ℕ
  pub path_prefix : Option Text

pub data RuleMatcher : Type 0 where
  exact_url : Url → RuleMatcher
  prefix_url : Url → RuleMatcher
  host_matcher : HostRuleMatcher → RuleMatcher
  ip_matcher : IpRuleMatcher → RuleMatcher

pub data DnsMode : Type 0 where
  system udp dot doh : DnsMode

pub record DnsPlan : Type 0 where
  pub mode : DnsMode
  pub server : Option Text

pub record UpstreamPlan : Type 0 where
  pub url : Url
  pub sni : Option Text
  pub host : Option Text
  pub connect_host : Option Text
  pub connect_ip : Option IpAddr
  pub dns : Option DnsPlan

pub record RejectRuleAction : Type 0 where
  pub status : ℕ
  pub message : Text

-- The bytes of the body, or the path of a file.
pub data RespondBodySource : Type 0 where
  inline : List ℕ → RespondBodySource
  file : Text → RespondBodySource

-- `http::HeaderMap`, as the pairs that it lists.
abbrev pub HeaderMap : Type 0
HeaderMap = List (Text × List ℕ)

pub record RespondRuleAction : Type 0 where
  pub status : ℕ
  pub headers : HeaderMap
  pub body : RespondBodySource

pub data RuleAction : Type 0 where
  mirror : UpstreamPlan → RuleAction
  direct : RuleAction
  respond : RespondRuleAction → RuleAction
  plugin : Text → RuleAction
  reject : RejectRuleAction → RuleAction

pub data ResolvedRuleAction : Type 0 where
  to_mirror : UpstreamPlan → ResolvedRuleAction
  to_direct : UpstreamPlan → ResolvedRuleAction
  to_respond : RespondRuleAction → ResolvedRuleAction
  to_plugin : Text → ResolvedRuleAction
  to_reject : RejectRuleAction → ResolvedRuleAction

pub record Rule : Type 0 where
  pub kind : RuleKind
  pub matcher : RuleMatcher
  pub action : RuleAction
  pub priority : RulePriority
  pub spread : Bool
