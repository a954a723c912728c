-- ===== src/Rules/Explain.antt =====
-- src/rules/pool/runtime.rs and src/rules/pool/mod.rs: the explanation of a resolution.
pub mod Groups
pub mod Final
use any_mirror.Common.{
  if◌then◌else◌, nat_eq, pair_eq, list_eq, option_eq, ip_eq, ℤ, int_beq, ℕ, Bool, true, false,
  Option, none, some, List, [], ◌∷◌, ◌++◌,
}
use any_mirror.Text.{Text, codes}
use any_mirror.Rules.Url.{Url}
use any_mirror.Rules.Model.{
  RuleKind, kind_exact, kind_prefix, kind_host, kind_hosts, kind_host_suffix, kind_ip, kind_ip_cidr,
  RulePriority, xlow, low, medium, high, xhigh, RuleAction, mirror, direct, respond, plugin, reject,
  ResolvedRuleAction, to_mirror, to_direct, to_respond, to_plugin, to_reject, Rule,
}
use any_mirror.Rules.Compiled.{origin_eq, exact_url_eq}
use any_mirror.Rules.Runtime.{
  Crates, LookupContext, Mismatch, RuleMatchExplain, matched, mismatch, explain_with_lookup,
  lookup_from_url, collect_candidate_indices, resolve_action,
}
use any_mirror.Rules.Order.{Candidate, sort, dedup}
use any_mirror.Rules.Resolve.{rules_at, new_priority, RuleSet}

unfoldable pub semantic_name : RulePriority → Option Text
semantic_name p =
    if int_beq p xlow
    then some (codes "xlow")
    else (if int_beq p low
        then some (codes "low")
        else (if int_beq p medium
            then some (codes "medium")
            else (if int_beq p high
                then some (codes "high")
                else (if int_beq p xhigh then some (codes "xhigh") else none))))

pub record RuleExplainPriority : Type 0 where
  pub value : ℤ
  pub semantic : Option Text

unfoldable pub explain_priority : RulePriority → RuleExplainPriority
unfolding semantic_name
explain_priority p = record { value = p; semantic = semantic_name p }

unfoldable pub rule_matcher_kind_name : RuleKind → Text
rule_matcher_kind_name kind_exact = codes "exact"
rule_matcher_kind_name kind_prefix = codes "prefix"
rule_matcher_kind_name kind_host = codes "host"
rule_matcher_kind_name kind_hosts = codes "hosts"
rule_matcher_kind_name kind_host_suffix = codes "host-suffix"
rule_matcher_kind_name kind_ip = codes "ip"
rule_matcher_kind_name kind_ip_cidr = codes "ip-cidr"

unfoldable pub rule_action_kind_name : RuleAction → Text
rule_action_kind_name (mirror _) = codes "mirror"
rule_action_kind_name direct = codes "direct"
rule_action_kind_name (respond _) = codes "respond"
rule_action_kind_name (plugin _) = codes "plugin"
rule_action_kind_name (reject _) = codes "reject"

unfoldable pub resolved_action_kind_name : ResolvedRuleAction → Text
resolved_action_kind_name (to_mirror _) = codes "mirror"
resolved_action_kind_name (to_direct _) = codes "direct"
resolved_action_kind_name (to_respond _) = codes "respond"
resolved_action_kind_name (to_plugin _) = codes "plugin"
resolved_action_kind_name (to_reject _) = codes "reject"

-- `action.upstream().map(|upstream| upstream.url)`; its text is left to the reader of the trace.
unfoldable pub upstream_url : ResolvedRuleAction → Option Url
upstream_url (to_mirror upstream) = some upstream.url
upstream_url (to_direct upstream) = some upstream.url
upstream_url (to_respond _) = none
upstream_url (to_plugin _) = none
upstream_url (to_reject _) = none

pub record RuleExplainCandidate : Type 0 where
  pub rule_index : ℕ
  pub matcher_kind : Text
  pub action_kind : Text
  pub priority : RuleExplainPriority
  pub spread : Bool
  pub is_match : Option Bool
  pub mismatch_reason : Option Mismatch

pub record RuleExplainWinner : Type 0 where
  pub rule_index : ℕ
  pub matcher_kind : Text
  pub action_kind : Text
  pub priority : RuleExplainPriority
  pub spread : Bool
  pub upstream : Option Url

pub data RuleExplainPropagation : Type 0 where
  no_match continue_below stop_here : RuleExplainPropagation

pub record RuleExplainPriorityGroup : Type 0 where
  pub priority : RuleExplainPriority
  pub candidates : List RuleExplainCandidate
  pub winner : Option RuleExplainWinner
  pub propagation : RuleExplainPropagation

pub record RuleExplainTrace : Type 0 where
  pub priority_groups : List RuleExplainPriorityGroup
  pub final_match : Option RuleExplainWinner

-- The variables of the loop of `explain_candidates`.
pub record ExplainState : Type 0 where
  pub priority_groups : List RuleExplainPriorityGroup
  pub current_priority : Option RulePriority
  pub current_candidates : List RuleExplainCandidate
  pub current_winner : Option RuleExplainWinner
  pub final_winner : Option RuleExplainWinner

abbrev pub propagation_of : Option RuleExplainWinner → RuleExplainPropagation
propagation_of none = no_match
propagation_of (some winner) = if winner.spread then continue_below else stop_here

abbrev pub promote : Option RuleExplainWinner → Option RuleExplainWinner → Option RuleExplainWinner
promote none final_winner = final_winner
promote (some winner) final_winner = some winner

unfoldable pub finalize_explain_group : ExplainState → ExplainState
unfolding explain_priority
finalize_explain_group s = elim (s.current_priority) [
  | none ↦ s
  | some priority ↦ record {
    priority_groups =
        s.priority_groups
        ++ record {
          priority = explain_priority priority;
          candidates = s.current_candidates;
          winner = s.current_winner;
          propagation = propagation_of s.current_winner;
        }
          ∷ [];
    current_priority = none;
    current_candidates = [];
    current_winner = none;
    final_winner = promote s.current_winner s.final_winner;
  }
]

abbrev pub push_candidate : RuleExplainCandidate → ExplainState → ExplainState
push_candidate c s = record s { current_candidates = s.current_candidates ++ c ∷ [] }

-- What the loop does once the group of a rule is open.
abbrev pub candidate_of : ℕ → Rule → Text → Option Bool → Option Mismatch → RuleExplainCandidate
candidate_of index rule action_kind is_match reason = record {
  rule_index = index;
  matcher_kind = rule_matcher_kind_name rule.kind;
  action_kind = action_kind;
  priority = explain_priority rule.priority;
  spread = rule.spread;
  is_match = is_match;
  mismatch_reason = reason;
}

abbrev pub winner_of : ℕ → Rule → ResolvedRuleAction → RuleExplainWinner
winner_of index rule action = record {
  rule_index = index;
  matcher_kind = rule_matcher_kind_name rule.kind;
  action_kind = resolved_action_kind_name action;
  priority = explain_priority rule.priority;
  spread = rule.spread;
  upstream = upstream_url action;
}

module _ (crates : Crates) (original : Url) (lookup : LookupContext) where
  unfoldable pub try_candidate : ℕ → Rule → RuleMatchExplain → ExplainState → ExplainState
  unfolding resolve_action rule_matcher_kind_name rule_action_kind_name resolved_action_kind_name
      upstream_url explain_priority
  try_candidate index rule (matched path_suffix) s =
      let action = resolve_action crates rule.action original path_suffix in
      record (push_candidate
        (candidate_of index rule (resolved_action_kind_name action) (some true) none) s) {
          current_winner = some (winner_of index rule action);
        }
  try_candidate index rule (mismatch reason) s =
      push_candidate
        (candidate_of index rule (rule_action_kind_name rule.action) (some false) (some reason)) s

  unfoldable pub visit_candidate : ℕ → Rule → ExplainState → ExplainState
  unfolding try_candidate explain_with_lookup
  visit_candidate index rule s = elim (s.current_winner) [
    | some winner ↦
        push_candidate (candidate_of index rule (rule_action_kind_name rule.action) none none) s
    | none ↦ try_candidate index rule (explain_with_lookup crates rule.matcher original lookup) s
  ]

  unfoldable pub enter_group : Rule → ExplainState → ExplainState
  unfolding finalize_explain_group
  enter_group rule s =
      if new_priority s.current_priority rule.priority
      then record (finalize_explain_group s) { current_priority = some rule.priority }
      else s

  unfoldable pub explain_loop : List Candidate → ExplainState → ExplainState
  unfolding visit_candidate enter_group
  explain_loop [] s = s
  explain_loop ((index, rule) ∷ rest) s =
      explain_loop rest (visit_candidate index rule (enter_group rule s))

  unfoldable pub explain_candidates : List Candidate → RuleExplainTrace
  unfolding explain_loop
  explain_candidates candidates =
      let s = finalize_explain_group (
        explain_loop candidates (record {
          priority_groups = [];
          current_priority = none;
          current_candidates = [];
          current_winner = none;
          final_winner = none;
        })) in
      record { priority_groups = s.priority_groups; final_match = s.final_winner }

abbrev pub explain_offered :
    Crates → Url → LookupContext → Option (List Candidate) → Option RuleExplainTrace
explain_offered crates original lookup none = none
explain_offered crates original lookup (some candidates) =
    some (explain_candidates crates original lookup (dedup (sort candidates)))

-- `RuleSet::explain`; nothing if an index is out of range, where the source panics.
unfoldable pub explain : Crates → RuleSet → Url → Option RuleExplainTrace
unfolding lookup_from_url collect_candidate_indices rules_at sort dedup explain_candidates
explain crates rules original =
    let lookup = lookup_from_url crates original in
    explain_offered crates original lookup
      (rules_at rules.entries (collect_candidate_indices rules.index original lookup))
