-- ===== src/Pipeline/Final.antt =====
-- The verdict of core/engine.go on a request that a WAF rule denies, and on a client that cannot
-- solve a challenge.
use mathlib.Core.Path.{subst}
use angie_guardian.Prelude.{
  ◌≡◌, refl, sym, ap, ◌∙◌, Bool, true, false, not, ◌&&◌, ◌||◌, arith, List, [], ◌∷◌, All, Option,
  none, some, Bytes, if◌then◌else◌,
}
use angie_guardian.Prelude.Float.{Float}
use angie_guardian.Prelude.Int.{pos}
use angie_guardian.Attack.State.{State}
use angie_guardian.Pipeline.State.{
  Action, allow, challenge, deny, refuse, Decision, Outcome, no_opinion, failed, decided, Rule,
  rule_allow, rule_challenge, rule_deny, rule_block, rule_other, RuleAction, Memo, Domain, Services,
}
use angie_guardian.Pipeline.Stages.{
  pow_exempt, apply_rule, on_match, classify_bot, allowlist_stage, header_stage, denylist_stage,
  check_denylist, verified_bot_stage, intel_deny_stage, geo_denies, behaviour_block_stage,
  honeypot_stage, waf_rules_stage, pow_token_stage, intel_challenge_stage, anomaly_stage,
  pow_challenge_stage, header_pow_exempt, pow_token, token_min_bits, eff_bits, feed_challenges,
  geo_challenges, on_score, score_verdict, scale_difficulty,
}
use angie_guardian.Pipeline.Engine.{
  is_challenge, guards, run_stages, refuse_if, evaluate_request, engine_evaluate, fresh_memo, Stage,
}
use angie_guardian.Pipeline.Run.{Decides, Keeps, Settles, run-Settles}

abbrev is_deny : Action → Bool
is_deny deny = true
is_deny allow = false
is_deny challenge = false
is_deny refuse = false

abbrev pub Denies : Decision → Type 0
Denies d = d.action ≡ deny

-- A stage that decides nothing but a denial.
abbrev strict : Outcome → Bool
strict no_opinion = true
strict failed = true
strict (decided d) = is_deny d.action

is_deny→≡ : (a : Action) → is_deny a ≡ true → a ≡ deny
is_deny→≡ a h = ground arith

strict-Decides : (o : Outcome) → strict o ≡ true → Decides Denies o
strict-Decides no_opinion e = tt
strict-Decides failed e = tt
strict-Decides (decided d) e = is_deny→≡ d.action e

-- The action of a rule that denies.
abbrev pub rule_denies_action : RuleAction → Bool
rule_denies_action rule_deny = true
rule_denies_action rule_block = true
rule_denies_action rule_allow = false
rule_denies_action rule_challenge = false
rule_denies_action rule_other = false

-- A rule that denies has matched.
abbrev pub match_denies : Option Rule → Bool
match_denies none = false
match_denies (some rule) = rule_denies_action rule.action

Anything : Memo → Type 0
Anything m = Unit

module _ {fl : Float} (dom : Domain fl) (posture : State) (sv : Services fl) where
  denylist_strict : (m : Memo) → strict (denylist_stage dom posture sv m).0 ≡ true
  unfolding denylist_stage check_denylist
  denylist_strict m = ground arith

  bot_strict : (m : Memo) → strict (verified_bot_stage dom posture sv m).0 ≡ true
  unfolding verified_bot_stage classify_bot
  bot_strict m = ground arith

  intel_strict : (m : Memo) → strict (intel_deny_stage dom posture sv m).0 ≡ true
  unfolding intel_deny_stage geo_denies
  intel_strict m = ground arith

  block_strict : (m : Memo) → strict (behaviour_block_stage dom posture sv m).0 ≡ true
  unfolding behaviour_block_stage
  block_strict m = ground arith

  honeypot_strict : (m : Memo) → strict (honeypot_stage dom posture sv m).0 ≡ true
  unfolding honeypot_stage
  honeypot_strict m = ground arith

  before : List Stage
  before =
      allowlist_stage dom posture sv
      ∷ header_stage dom posture sv
      ∷ denylist_stage dom posture sv
      ∷ verified_bot_stage dom posture sv
      ∷ intel_deny_stage dom posture sv
      ∷ behaviour_block_stage dom posture sv
      ∷ honeypot_stage dom posture sv
      ∷ []

  later : List Stage
  later =
      pow_token_stage dom posture sv
      ∷ intel_challenge_stage dom posture sv
      ∷ anomaly_stage dom posture sv
      ∷ pow_challenge_stage dom posture sv
      ∷ []

  before_strict : All (Keeps Anything Denies) before
  unfolding Anything before allowlist_stage header_stage
  before_strict = (
    λ m i. (tt, tt),
    (
      λ m i. (tt, tt),
      (
        λ m i. (strict-Decides _ (denylist_strict m), tt),
        (
          λ m i. (strict-Decides _ (bot_strict m), tt),
          (
            λ m i. (strict-Decides _ (intel_strict m), tt),
            (
              λ m i. (strict-Decides _ (block_strict m), tt),
              (λ m i. (strict-Decides _ (honeypot_strict m), tt), tt),
            ),
          ),
        ),
      ),
    ),
  )

  rule_settles :
      (a : RuleAction) (id : Bytes) (m : Memo)
      → rule_denies_action a ≡ true
      → (d : Decision) × ((apply_rule dom posture sv a id m).0 ≡ decided d) × Denies d
  unfolding apply_rule
  rule_settles rule_allow id m h = cc
  rule_settles rule_challenge id m h = cc
  rule_settles rule_deny id m h = (_, refl, refl)
  rule_settles rule_block id m h = (_, refl, refl)
  rule_settles rule_other id m h = cc

  match_settles :
      (r : Option Rule) (m : Memo)
      → match_denies r ≡ true
      → (d : Decision) × ((on_match dom posture sv r m).0 ≡ decided d) × Denies d
  unfolding on_match
  match_settles none m h = cc
  match_settles (some rule) m h = rule_settles rule.action rule.id m h

  waf-Settles :
      dom.rules_enabled && sv.has_rules ≡ true
      → ((exempt : Bool) → match_denies (sv.match_rule exempt) ≡ true)
      → Settles Anything Denies (waf_rules_stage dom posture sv)
  unfolding waf_rules_stage
  waf-Settles h k m i =
      let off : not dom.rules_enabled || not sv.has_rules ≡ false = ground arith in
      rw (waf_rules_stage, off)
        (match_settles (sv.match_rule (pow_exempt dom posture sv m).0)
          (pow_exempt dom posture sv m).1 (k (pow_exempt dom posture sv m).0))

  refuse-Denies : (d : Decision) → Denies d → Denies (refuse_if dom posture sv d)
  unfolding refuse_if
  refuse-Denies d h = ground (arith, ap is_challenge h)

  -- On a domain with rules enabled, where the rule that the rule set answers with, for a request that is
  -- exempt from proof of work and for one that is not, has the action deny or block, an open engine
  -- denies the request: whatever token it carries, whatever exempts it, whatever the posture and the
  -- earlier stages' answers and errors are. A closed engine allows it.
  pub waf_deny_final :
      dom.rules_enabled && sv.has_rules ≡ true
      → ((exempt : Bool) → match_denies (sv.match_rule exempt) ≡ true)
      → (running : Bool)
      → (engine_evaluate dom posture sv running).0.action ≡ (if running then deny else allow)
  unfolding engine_evaluate evaluate_request Anything before later
  waf_deny_final h k true = refuse-Denies (run_stages (guards dom posture sv) fresh_memo).0 (
      run-Settles Anything Denies before later (waf_rules_stage dom posture sv) fresh_memo
        before_strict (waf-Settles h k) tt)
  waf_deny_final h k false = refl

verdict_lem :
    {fl : Float} (dom : Domain fl) (posture : State) (sv : Services fl)
    → (evaluate_request dom posture sv).0
      ≡ refuse_if dom posture sv (run_stages (guards dom posture sv) fresh_memo).0
unfolding evaluate_request
verdict_lem dom posture sv = refl

module _ {fl : Float} (dom : Domain fl) (posture : State) (sv : Services fl) where
  -- The same request, from a client that is classified as able to complete a challenge or as not.
  abbrev pub client : Bool → Services fl
  client unable = record sv { unchallengeable_client = unable }

  -- No stage reads how the client is classified.
  same_guards : guards dom posture (client false) ≡ guards dom posture (client true)
  unfolding allowlist_stage header_stage denylist_stage verified_bot_stage intel_deny_stage
      behaviour_block_stage honeypot_stage waf_rules_stage pow_token_stage intel_challenge_stage
      anomaly_stage pow_challenge_stage pow_exempt header_pow_exempt check_denylist classify_bot
      geo_denies on_match apply_rule pow_token token_min_bits feed_challenges geo_challenges
      eff_bits on_score score_verdict scale_difficulty
  same_guards = refl

  refuse_able : (d : Decision) → refuse_if dom posture (client false) d ≡ d
  unfolding refuse_if
  refuse_able d = ground arith

  -- What a decision becomes for a client that cannot complete a challenge.
  abbrev pub Unsent : Decision → Decision → Type 0
  Unsent able unable =
      (is_challenge able.action ≡ true
        → (unable.action ≡ refuse) × (unable.difficulty ≡ pos 0) × (unable.events ≡ []))
      × (is_challenge able.action ≡ false → unable ≡ able)

  refuse_if-Unsent :
      dom.refuses_unchallengeable ≡ true
      → (d : Decision) → Unsent d (refuse_if dom posture (client true) d)
  unfolding refuse_if
  refuse_if-Unsent h d = (λ y. rw (refuse_if, y, h) (refl, refl, refl), λ n. rw (refuse_if, n) refl)

  abbrev bare : Bool → Decision
  bare unable = (run_stages (guards dom posture (client unable)) fresh_memo).0

  same_bare : bare false ≡ bare true
  same_bare = ap (λ stages. (run_stages stages fresh_memo).0) same_guards

  -- On a domain that refuses clients that cannot complete a challenge, such a client is refused, with
  -- no challenge and no events in the verdict, exactly where a client that can complete one would be
  -- challenged, and gets the same verdict as that client everywhere else, from every stage.
  pub unchallengeable_refused :
      dom.refuses_unchallengeable ≡ true
      → Unsent
          (evaluate_request dom posture (client false)).0
          (evaluate_request dom posture (client true)).0
  unchallengeable_refused h =
      let able = verdict_lem dom posture (client false) ∙ refuse_able (bare false) in
      let unable =
        verdict_lem dom posture (client true)
        ∙ ap (refuse_if dom posture (client true)) (sym same_bare) in
      subst (λ x. Unsent x (evaluate_request dom posture (client true)).0) (sym able)
        (subst (λ x. Unsent (bare false) x) (sym unable) (refuse_if-Unsent h (bare false)))
