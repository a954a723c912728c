-- ===== src/Rules/Resolve.antt =====
-- src/rules/pool/runtime.rs: the resolution of a request by a compiled index.
pub mod Matches
pub mod Linear
use any_mirror.Common.{
  if◌then◌else◌, get_elem?, ◌>>=◌, nat_eq, pair_eq, list_eq, option_eq, ip_eq, int_beq, ℕ, Bool,
  true, not, Option, none, some, List, [], ◌∷◌,
}
use any_mirror.Rules.Url.{Url}
use any_mirror.Rules.Model.{RulePriority, ResolvedRuleAction, Rule}
use any_mirror.Rules.Compiled.{origin_eq, exact_url_eq, CompiledRuleIndex, compile}
use any_mirror.Rules.Runtime.{
  Crates, LookupContext, lookup_from_url, collect_candidate_indices, resolve_with_lookup,
}
use any_mirror.Rules.Order.{Candidate, sort, dedup}

pub record MatchedRule : Type 0 where
  pub action : ResolvedRuleAction
  pub rule : Rule

-- `entries[index]` for each index; nothing if one of them is out of range, where the source panics:
-- sorting reads the rule of each of several indices, and the loop that of a single one.
unfoldable pub rules_at : List Rule → List ℕ → Option (List Candidate)
rules_at entries [] = some []
rules_at entries (index ∷ indices) = do
  rule ← get_elem? entries index
  rest ← rules_at entries indices
  some ((index, rule) ∷ rest)

-- `active_priority != Some(rule.priority)`
abbrev pub new_priority : Option RulePriority → RulePriority → Bool
new_priority none p = true
new_priority (some active) p = not (int_beq active p)

module _ (crates : Crates) (original : Url) (lookup : LookupContext) where
  -- `rule.resolve_with_lookup(..)` with the rule
  unfoldable pub attempt : Rule → Option MatchedRule
  unfolding resolve_with_lookup
  attempt rule = elim (resolve_with_lookup crates rule original lookup) [
    | none ↦ none
    | some action ↦ some (record { action = action; rule = rule })
  ]

  -- The loop of `resolve_candidates`: the matches so far, the priority of the group and its match.
  unfoldable pub resolve_loop :
      Option MatchedRule
      → Option RulePriority
      → Option MatchedRule
      → List Candidate
      → Option MatchedRule
  unfolding attempt
  resolve_loop propagated active none [] = propagated
  resolve_loop propagated active (some found) [] = some found
  resolve_loop propagated active none ((index, rule) ∷ rest) =
      resolve_loop propagated (some rule.priority) (attempt rule) rest
  resolve_loop propagated active (some found) ((index, rule) ∷ rest) =
      let within = resolve_loop propagated active (some found) rest in
      let onward = resolve_loop (some found) (some rule.priority) (attempt rule) rest in
      if not (new_priority active rule.priority)
      then within
      else if not found.rule.spread
      then some found
      else onward

  abbrev pub resolve_candidates : List Candidate → Option MatchedRule
  resolve_candidates candidates = resolve_loop none none none candidates

-- The sorting, the removal of duplicates and the loop; the outer option is the panic of an index out
-- of range.
abbrev pub resolve_offered :
    Crates → Url → LookupContext → Option (List Candidate) → Option (Option MatchedRule)
resolve_offered crates original lookup none = none
resolve_offered crates original lookup (some candidates) =
    some (resolve_candidates crates original lookup (dedup (sort candidates)))

-- `CompiledRuleIndex::resolve`
unfoldable pub resolve_index :
    Crates → CompiledRuleIndex → List Rule → Url → Option (Option MatchedRule)
unfolding lookup_from_url collect_candidate_indices rules_at sort dedup resolve_loop
resolve_index crates c entries original =
    let lookup = lookup_from_url crates original in
    resolve_offered crates original lookup
      (rules_at entries (collect_candidate_indices c original lookup))

pub record RuleSet : Type 0 where
  pub entries : List Rule
  pub index : CompiledRuleIndex

unfoldable pub new_rule_set : List Rule → RuleSet
unfolding compile
new_rule_set entries = record { entries = entries; index = compile entries }

unfoldable pub resolve : Crates → RuleSet → Url → Option (Option MatchedRule)
unfolding resolve_index
resolve crates rules original = resolve_index crates rules.index rules.entries original
