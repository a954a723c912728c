-- ===== src/Rules/Live.antt =====
-- src/rules/pool/mod.rs: the rule set that requests read while a reload replaces it, and what a caller
-- reads of a matched rule. `ArcSwap` is a cell that is read and replaced as a whole.
use any_mirror.Common.{
  length, nat_eq, pair_eq, list_eq, option_eq, ip_eq, ℕ, Bool, Option, none, some,
}
use any_mirror.Text.{Text}
use any_mirror.Rules.Model.{
  UpstreamPlan, RejectRuleAction, RespondRuleAction, ResolvedRuleAction, to_mirror, to_direct,
  to_respond, to_plugin, to_reject,
}
use any_mirror.Rules.Runtime.{matches_dns_host}
use any_mirror.Rules.Resolve.{MatchedRule, RuleSet}

pub record LiveRuleSet : Type 0 where
  pub inner : RuleSet

unfoldable pub len_rules : RuleSet → ℕ
len_rules rules = length rules.entries

unfoldable pub new_live : RuleSet → LiveRuleSet
new_live rules = record { inner = rules }

unfoldable pub snapshot : LiveRuleSet → RuleSet
snapshot live = live.inner

-- The cell, and the number of rules.
unfoldable pub replace : LiveRuleSet → RuleSet → LiveRuleSet × ℕ
unfolding len_rules
replace live rules = let rule_count = len_rules rules in (record live { inner = rules }, rule_count)

unfoldable pub live_matches_dns_host : LiveRuleSet → Text → Bool
unfolding snapshot
live_matches_dns_host live host = matches_dns_host (snapshot live).index host

pub data RuleActionKind : Type 0 where
  mirror_action direct_action respond_action plugin_action reject_action : RuleActionKind

-- The methods of `ResolvedRuleAction`.
unfoldable pub kind_of_action : ResolvedRuleAction → RuleActionKind
kind_of_action (to_mirror plan) = mirror_action
kind_of_action (to_direct plan) = direct_action
kind_of_action (to_respond body) = respond_action
kind_of_action (to_plugin id) = plugin_action
kind_of_action (to_reject refusal) = reject_action

unfoldable pub upstream : ResolvedRuleAction → Option UpstreamPlan
upstream (to_mirror plan) = some plan
upstream (to_direct plan) = some plan
upstream (to_respond body) = none
upstream (to_plugin id) = none
upstream (to_reject refusal) = none

unfoldable pub reject_of : ResolvedRuleAction → Option RejectRuleAction
reject_of (to_reject refusal) = some refusal
reject_of (to_mirror plan) = none
reject_of (to_direct plan) = none
reject_of (to_respond body) = none
reject_of (to_plugin id) = none

unfoldable pub respond_of : ResolvedRuleAction → Option RespondRuleAction
respond_of (to_respond body) = some body
respond_of (to_mirror plan) = none
respond_of (to_direct plan) = none
respond_of (to_plugin id) = none
respond_of (to_reject refusal) = none

unfoldable pub plugin_of : ResolvedRuleAction → Option Text
plugin_of (to_plugin id) = some id
plugin_of (to_mirror plan) = none
plugin_of (to_direct plan) = none
plugin_of (to_respond body) = none
plugin_of (to_reject refusal) = none

-- The methods of `MatchedRule`.
unfoldable pub action_kind : MatchedRule → RuleActionKind
unfolding kind_of_action
action_kind found = kind_of_action found.action

unfoldable pub matched_upstream : MatchedRule → Option UpstreamPlan
unfolding upstream
matched_upstream found = upstream found.action

unfoldable pub matched_reject : MatchedRule → Option RejectRuleAction
unfolding reject_of
matched_reject found = reject_of found.action

unfoldable pub matched_respond : MatchedRule → Option RespondRuleAction
unfolding respond_of
matched_respond found = respond_of found.action

unfoldable pub matched_plugin : MatchedRule → Option Text
unfolding plugin_of
matched_plugin found = plugin_of found.action
