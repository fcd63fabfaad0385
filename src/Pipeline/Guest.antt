-- ===== src/Pipeline/Guest.antt =====
-- core/stateless/stateless.go: `Evaluate`, the evaluator of the WASM guest, and the sidecar's stages
-- of the same checks.
use angie_guardian.Prelude.{
  ◌≢◌, Bool, true, false, ◌||◌, not, Option, none, some, List, [], ◌∷◌, map, Bytes, if◌then◌else◌,
}
use angie_guardian.Prelude.Float.{Float}
use angie_guardian.Attack.State.{State}
use angie_guardian.Pipeline.State.{
  Action, allow, deny, Event, EventType, rule_match, instant_block, Why, by_waf, honeypot_hit,
  Decision, Outcome, no_opinion, failed, decided, RuleAction, rule_allow, rule_challenge, rule_deny,
  rule_block, rule_other, Rule, Memo, Domain, Services, match_path_list,
}
use angie_guardian.Pipeline.Stages.{
  verdict_of, check_denylist, honeypot_detail, allowlist_stage, denylist_stage, honeypot_stage,
  waf_rules_stage,
}
use angie_guardian.Pipeline.Engine.{Stage, fresh_memo, default_decision}

module _ {fl : Float} (dom : Domain fl) (posture : State) (sv : Services fl) where
  abbrev has_entries : List Bytes → Bool
  has_entries [] = false
  has_entries (p ∷ ps) = true

  -- `CheckHoneypot`
  unfoldable pub check_honeypot : Outcome
  unfolding match_path_list
  check_honeypot =
      if not dom.honeypot_enabled || not (has_entries dom.honeypot_paths)
      then no_opinion
      else if match_path_list dom.honeypot_paths sv.normalized_path
      then verdict_of deny honeypot_hit
          (record { type = instant_block; detail = honeypot_detail dom posture sv } ∷ [])
      else no_opinion

  -- The verdict of `evalRules` on a rule that matched: a challenge degrades to a denial.
  unfoldable pub guest_rule : RuleAction → Bytes → Outcome
  guest_rule rule_allow id = verdict_of allow (by_waf id) []
  guest_rule rule_challenge id =
      verdict_of deny (by_waf id) (record { type = rule_match; detail = id } ∷ [])
  guest_rule rule_deny id =
      verdict_of deny (by_waf id) (record { type = rule_match; detail = id } ∷ [])
  guest_rule rule_block id =
      verdict_of deny (by_waf id) (record { type = instant_block; detail = id } ∷ [])
  guest_rule rule_other id =
      verdict_of deny (by_waf id) (record { type = rule_match; detail = id } ∷ [])

  unfoldable pub eval_rules : Bool → Outcome
  unfolding guest_rule
  eval_rules exempt =
      if not dom.rules_enabled || not sv.has_rules
      then no_opinion
      else elim (sv.match_rule exempt) [
        | none ↦ no_opinion
        | some rule ↦ guest_rule rule.action rule.id
      ]

  abbrev or_else : Outcome → Decision → Decision
  or_else no_opinion next = next
  or_else failed next = next
  or_else (decided d) next = d

  abbrev is_allowlisted : Bool
  is_allowlisted = elim sv.allowlist_match [ none ↦ false | some x ↦ true ]

  -- `Evaluate`: the decision; the exemption beside it is the allowlist's answer.
  unfoldable pub evaluate : Decision
  unfolding check_honeypot eval_rules check_denylist
  evaluate =
      or_else (check_denylist dom posture sv)
        (or_else check_honeypot (or_else (eval_rules is_allowlisted) default_decision))

  -- The sidecar's stages of the same checks, in its order.
  abbrev pub sidecar_stages : List Stage
  sidecar_stages =
      allowlist_stage dom posture sv
      ∷ denylist_stage dom posture sv
      ∷ honeypot_stage dom posture sv
      ∷ waf_rules_stage dom posture sv
      ∷ []

  -- The action, the reason and the types of the events.
  abbrev pub verdict : Decision → Action × Why × List EventType
  verdict d = (d.action, d.reason, map (λ (e : Event). e.type) d.events)

  abbrev memo : Memo
  memo = (allowlist_stage dom posture sv fresh_memo).1

  -- What an outcome decides, without the details of its events.
  abbrev shown : Outcome → Option (Action × Why × List EventType)
  shown no_opinion = none
  shown failed = none
  shown (decided d) = some (verdict d)

  -- The rule that the requests of this exemption match has an action that the loader accepts.
  abbrev pub IsSupported : Option Rule → Type 0
  IsSupported none = Unit
  IsSupported (some rule) = rule.action ≢ rule_other
