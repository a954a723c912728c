-- ===== src/Rules/Explain/Groups.antt =====
-- The groups of an explanation in src/rules/pool/runtime.rs, as a resolution goes through them.
use any_mirror.Common.{
  Bool-cases, Option-cases, nat_eq, pair_eq, list_eq, option_eq, ip_eq, int_beq, int_beq_iff, ℕ,
  ◌≡◌, refl, inl, inr, true, false, Option, none, some, List, [], ◌∷◌, arith,
}
use any_mirror.Text.{Text}
use any_mirror.Rules.Url.{Url}
use any_mirror.Rules.Model.{RulePriority, ResolvedRuleAction, Rule}
use any_mirror.Rules.Runtime.{
  Crates, LookupContext, RuleMatchExplain, matched, mismatch, explain_with_lookup,
  resolve_with_lookup,
}
use any_mirror.Rules.Order.{Candidate}
use any_mirror.Rules.Resolve.{MatchedRule, attempt, resolve_loop}
use any_mirror.Rules.Explain.{
  RuleExplainPriority, explain_priority, rule_matcher_kind_name, resolved_action_kind_name,
  upstream_url, RuleExplainWinner, ExplainState, finalize_explain_group, visit_candidate,
  enter_group, explain_loop,
}

-- What an explanation says of a match: the kinds of the matcher and of the action, the priority and
-- the upstream URL.
abbrev pub Summary : Type 0
Summary = Text × Text × RuleExplainPriority × Option Url

abbrev pub winner_summary : RuleExplainWinner → Summary
winner_summary w = (w.matcher_kind, w.action_kind, w.priority, w.upstream)

abbrev pub match_summary : MatchedRule → Summary
match_summary m = (
  rule_matcher_kind_name m.rule.kind,
  resolved_action_kind_name m.action,
  explain_priority m.rule.priority,
  upstream_url m.action,
)

abbrev pub summary_of : {A : Type 0} → (A → Summary) → Option A → Option Summary
summary_of f none = none
summary_of f (some x) = some (f x)

-- The same rules, with `spread` set.
abbrev pub spread_on : List Candidate → List Candidate
spread_on [] = []
spread_on ((index, rule) ∷ cs) = (index, record rule { spread = true }) ∷ spread_on cs

-- A match of the group has `spread` set, and there is a group.
abbrev pub Spreads : Option MatchedRule → Option RulePriority → Type 0
Spreads none active = Unit
Spreads (some m) none = ⊥
Spreads (some m) (some p) = m.rule.spread ≡ true

abbrev pub on : Rule → Rule
on rule = record rule { spread = true }

pub no_summary : (o : Option RuleExplainWinner) → summary_of winner_summary o ≡ none → o ≡ none
no_summary none h = refl
no_summary (some w) h = absurd (ground (arith, h))

module _ (crates : Crates) (original : Url) (lookup : LookupContext) where
  abbrev pub after_loop : List Candidate → ExplainState → Option Summary
  after_loop cs s =
      summary_of winner_summary
        (finalize_explain_group (explain_loop crates original lookup cs s)).final_winner

  abbrev pub resolved_from :
      Option MatchedRule
      → Option RulePriority
      → Option MatchedRule
      → List Candidate
      → Option Summary
  resolved_from propagated active found cs =
      summary_of match_summary
        (resolve_loop crates original lookup propagated active found (spread_on cs))

  -- The matches so far of a state, as those of the resolution.
  pub record Follows (s : ExplainState) (propagated : Option MatchedRule)
      (active : Option RulePriority) (found : Option MatchedRule) : Type 0 where
    pub same_priority : s.current_priority ≡ active
    pub same_winner : summary_of winner_summary s.current_winner ≡ summary_of match_summary found
    pub same_final : summary_of winner_summary s.final_winner ≡ summary_of match_summary propagated

  pub attempt-on :
      (index : ℕ) (rule : Rule) (s : ExplainState) (propagated : Option MatchedRule)
      → s.current_winner ≡ none
      → s.current_priority ≡ some rule.priority
      → summary_of winner_summary s.final_winner ≡ summary_of match_summary propagated
      → Follows
          (visit_candidate crates original lookup index rule s)
          propagated
          (some rule.priority)
          (attempt crates original lookup (on rule))
  unfolding visit_candidate attempt
  attempt-on index rule s propagated h k l =
      cases (explain_with_lookup crates rule.matcher original lookup) refl
    where
      cases :
          (e : RuleMatchExplain)
          → explain_with_lookup crates rule.matcher original lookup ≡ e
          → Follows
              (visit_candidate crates original lookup index rule s)
              propagated
              (some rule.priority)
              (attempt crates original lookup (on rule))
      cases (matched rest) e = record {
        same_priority = ground (arith, h, e, k);
        same_winner = ground (arith, h, e);
        same_final = ground (arith, h, e, l);
      }
      cases (mismatch reason) e = record {
        same_priority = ground (arith, h, e, k);
        same_winner = ground (arith, h, e);
        same_final = ground (arith, h, e, l);
      }

  pub attempt-Spreads :
      (rule : Rule) → Spreads (attempt crates original lookup (on rule)) (some rule.priority)
  unfolding attempt
  attempt-Spreads rule = cases (resolve_with_lookup crates (on rule) original lookup) refl
    where
      cases :
          (o : Option ResolvedRuleAction)
          → resolve_with_lookup crates (on rule) original lookup ≡ o
          → Spreads (attempt crates original lookup (on rule)) (some rule.priority)
      cases none e = rw (attempt, Spreads, e) tt
      cases (some action) e = rw (attempt, Spreads, e) refl

  -- The state in which a candidate of a new group is tried.
  abbrev pub Open : ExplainState → Option MatchedRule → RulePriority → Type 0
  Open s propagated p =
      (s.current_winner ≡ none)
      × (s.current_priority ≡ some p)
      × (summary_of winner_summary s.final_winner ≡ summary_of match_summary propagated)

  pub Open-unmatched :
      (rule : Rule) (s : ExplainState) (propagated : Option MatchedRule)
      (active : Option RulePriority)
      → Follows s propagated active none
      → Open (enter_group crates original lookup rule s) propagated rule.priority
  unfolding enter_group
  Open-unmatched rule s propagated none f =
      let empty = no_summary s.current_winner f.same_winner in
      (
        ground (arith, f.same_priority, empty),
        ground (arith, f.same_priority),
        ground (arith, f.same_priority, f.same_final),
      )
  Open-unmatched rule s propagated (some p) f =
      let empty = no_summary s.current_winner f.same_winner in
      elim (Bool-cases (int_beq p rule.priority)) [
        | inl same ↦ (
          ground (arith, f.same_priority, empty, same),
          ground (arith, f.same_priority, same, int_beq_iff p rule.priority),
          ground (arith, f.same_priority, same, f.same_final),
        )
        | inr new ↦ (
          ground (arith, f.same_priority, new),
          ground (arith, f.same_priority, new),
          ground (arith, f.same_priority, new, empty, f.same_final),
        )
      ]

  pub Open-matched :
      (rule : Rule) (s : ExplainState) (propagated : Option MatchedRule) (p : RulePriority)
      (m : MatchedRule)
      → int_beq p rule.priority ≡ false
      → Follows s propagated (some p) (some m)
      → Open (enter_group crates original lookup rule s) (some m) rule.priority
  unfolding enter_group
  Open-matched rule s propagated p m new f = elim (Option-cases s.current_winner) [
    | inl empty ↦ absurd (ground (arith, f.same_winner, empty))
    | inr (w, held) ↦ (
      ground (arith, f.same_priority, new),
      ground (arith, f.same_priority, new),
      ground (arith, f.same_priority, new, held, f.same_winner),
    )
  ]

  pub skip-Follows :
      (index : ℕ) (rule : Rule) (s : ExplainState) (propagated : Option MatchedRule)
      (p : RulePriority) (m : MatchedRule)
      → int_beq p rule.priority ≡ true
      → Follows s propagated (some p) (some m)
      → Follows
          (visit_candidate crates original lookup index rule
            (enter_group crates original lookup rule s))
          propagated
          (some p)
          (some m)
  unfolding visit_candidate enter_group
  skip-Follows index rule s propagated p m same f = elim (Option-cases s.current_winner) [
    | inl empty ↦ absurd (ground (arith, f.same_winner, empty))
    | inr (w, held) ↦ record {
      same_priority = ground (arith, f.same_priority, same, held);
      same_winner = ground (arith, f.same_priority, same, held, f.same_winner);
      same_final = ground (arith, f.same_priority, same, held, f.same_final);
    }
  ]
