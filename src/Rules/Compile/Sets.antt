-- ===== src/Rules/Compile/Sets.antt =====
-- src/rules/compile.rs: the rule of a schema and the rule set of a list of them.
use any_mirror.Rules.Compile.{
  CompileError, query_in_prefix, Parsers, ◌>>=◌, ensure, each, matcher_try_from,
}
use any_mirror.Common.{
  if◌then◌else◌, is_some, nat_eq, pair_eq, list_eq, option_eq, Result, ok, ip_eq, Bool, false, not,
  ◌&&◌, Option, none, some, List,
}
use any_mirror.Rules.Url.{Url}
use any_mirror.Rules.Model.{
  RuleKind, kind_exact, kind_prefix, kind_host, kind_hosts, kind_host_suffix, kind_ip, kind_ip_cidr,
  RulePriority, medium, exact_host, any_of, suffix, exact_ip, cidr, RuleMatcher, exact_url,
  prefix_url, host_matcher, ip_matcher, RuleAction, mirror, Rule,
}
use any_mirror.Rules.Schema.{RulePrioritySchema, into_priority, RuleSchema}
use any_mirror.Rules.Resolve.{RuleSet, new_rule_set}
use any_mirror.Rules.Compile.Actions.{unwrap_or, action_try_from}

-- `RuleMatcher::kind`
unfoldable pub kind_of : RuleMatcher → RuleKind
kind_of (exact_url origin) = kind_exact
kind_of (prefix_url origin) = kind_prefix
kind_of (host_matcher m) = elim m.pattern [
  | exact_host h ↦ kind_host
  | any_of hs ↦ kind_hosts
  | suffix s ↦ kind_host_suffix
]
kind_of (ip_matcher m) = elim m.pattern [ exact_ip a ↦ kind_ip | cidr n ↦ kind_ip_cidr ]

abbrev pub no_query : Url → Bool
no_query url = not (is_some url.query)

unfoldable pub validate_matcher_action : RuleMatcher → RuleAction → Result CompileError (Unit {0})
validate_matcher_action (prefix_url origin) (mirror upstream) =
    ensure (no_query origin && no_query upstream.url) query_in_prefix
validate_matcher_action (host_matcher m) (mirror upstream) =
    if is_some m.path_prefix then ensure (no_query upstream.url) query_in_prefix else ok tt
validate_matcher_action (ip_matcher m) (mirror upstream) =
    if is_some m.path_prefix then ensure (no_query upstream.url) query_in_prefix else ok tt
validate_matcher_action matcher action = ok tt

abbrev pub priority_or_medium : Option RulePrioritySchema → RulePriority
priority_or_medium none = medium
priority_or_medium (some p) = into_priority p

module _ {Json : Type 0} (parsers : Parsers Json) where
  unfoldable pub rule_try_from : RuleSchema Json → Result CompileError Rule
  unfolding matcher_try_from action_try_from validate_matcher_action kind_of into_priority
  rule_try_from v = do
    matcher ← matcher_try_from parsers v.matcher
    action ← action_try_from parsers v.action
    valid ← validate_matcher_action matcher action
    ok (record {
      kind = kind_of matcher;
      matcher = matcher;
      action = action;
      priority = priority_or_medium v.priority;
      spread = unwrap_or false v.spread;
    })

  -- `RuleSet::try_from`
  unfoldable pub rule_set_try_from : List (RuleSchema Json) → Result CompileError RuleSet
  unfolding rule_try_from new_rule_set
  rule_set_try_from schemas = do entries ← each rule_try_from schemas; ok (new_rule_set entries)
