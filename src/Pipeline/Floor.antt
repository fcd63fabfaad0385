-- ===== src/Pipeline/Floor.antt =====
-- The difficulty of the challenges that core/pipeline.go issues, against that of its token check.
use angie_guardian.Prelude.{
  ◌≡◌, Bool, true, false, not, ◌&&◌, ◌||◌, inl, inr, arith, Bool-cases, All, Option, none, some,
  if◌then◌else◌, Bytes,
}
use angie_guardian.Prelude.Int.{ℤ, pos, ◌+ℤ◌, ◌≤ℤ◌, min_ℤ, max_ℤ, +ℤ_parts}
use angie_guardian.Prelude.Float.{Float}
use angie_guardian.Attack.State.{State}
use angie_guardian.Attack.Machine.{cap_of}
use angie_guardian.Attack.Bits.{effective_bits-base, effective_bits-window}
use angie_guardian.Pipeline.State.{
  Decision, Outcome, no_opinion, failed, decided, Rule, rule_allow, rule_challenge, rule_deny,
  rule_block, rule_other, RuleAction, GeoAction, geo_none, geo_deny, geo_challenge, Memo, Domain,
  Services, is_valid,
}
use angie_guardian.Pipeline.Stages.{
  eff_bits, token_min_bits, pow_token, pow_exempt, scale_difficulty, apply_rule, on_match,
  geo_challenges, feed_challenges, score_verdict, on_score, allowlist_stage, header_stage,
  denylist_stage, check_denylist, verified_bot_stage, classify_bot, intel_deny_stage, geo_denies,
  behaviour_block_stage, honeypot_stage, waf_rules_stage, pow_token_stage, intel_challenge_stage,
  anomaly_stage, pow_challenge_stage,
}
use angie_guardian.Pipeline.Engine.{
  is_challenge, guards, run_stages, refuse_if, evaluate_request, fresh_memo,
}
use angie_guardian.Pipeline.Run.{Decides, Keeps, run-Keeps}

Anything : Memo → Type 0
Anything m = Unit

-- A challenge has at least this many bits.
abbrev pub Floor : ℤ → Decision → Type 0
Floor b d = is_challenge d.action ≡ true → b ≤ℤ d.difficulty

below_min : (b x y : ℤ) → b ≤ℤ x → b ≤ℤ y → b ≤ℤ min_ℤ x y
below_min b x y h k = ground arith

min_step : (b x y : ℤ) → b ≤ℤ x → b ≤ℤ y → b ≤ℤ min_ℤ (x +ℤ pos 4) y
min_step b x y h k = below_min b (x +ℤ pos 4) y (omega (arith, +ℤ_parts x (pos 4))) k

clamp : (b y x : ℤ) → b ≤ℤ x → b ≤ℤ y → (z : ℤ) → b ≤ℤ min_ℤ (max_ℤ z x) y
clamp b y x h k z = ground arith

abbrev pub asks : Outcome → Bool
asks no_opinion = false
asks failed = false
asks (decided d) = is_challenge d.action

quiet :
    (P : Decision → Type 0)
    → ((d : Decision) → is_challenge d.action ≡ false → P d)
    → (o : Outcome) → asks o ≡ false
    → Decides P o
quiet P h no_opinion e = tt
quiet P h failed e = tt
quiet P h (decided d) e = h d e

if-Decides :
    (P : Decision → Type 0) (c : Bool) (x y : Outcome)
    → Decides P x
    → Decides P y
    → Decides P (if c then x else y)
if-Decides P true x y h k = h
if-Decides P false x y h k = k

either :
    (P : Decision → Type 0) (c : Bool) (x y : Outcome × Memo)
    → Decides P x.0
    → Decides P y.0
    → Decides P (if c then x else y).0
either P true x y h k = h
either P false x y h k = k

-- The stages that only deny, allow or classify.
module _ {fl : Float} (dom : Domain fl) (posture : State) (sv : Services fl) (m : Memo) where
  pub denylist_asks : asks (denylist_stage dom posture sv m).0 ≡ false
  unfolding denylist_stage check_denylist
  denylist_asks = ground arith

  pub bot_asks : asks (verified_bot_stage dom posture sv m).0 ≡ false
  unfolding verified_bot_stage classify_bot
  bot_asks = ground arith

  pub intel_asks : asks (intel_deny_stage dom posture sv m).0 ≡ false
  unfolding intel_deny_stage geo_denies
  intel_asks = ground arith

  pub block_asks : asks (behaviour_block_stage dom posture sv m).0 ≡ false
  unfolding behaviour_block_stage
  block_asks = ground arith

  pub honeypot_asks : asks (honeypot_stage dom posture sv m).0 ≡ false
  unfolding honeypot_stage
  honeypot_asks = ground arith

  pub token_asks : asks (pow_token_stage dom posture sv m).0 ≡ false
  unfolding pow_token_stage
  token_asks = ground arith

-- The stages that ask for work ask for at least b bits, when the window in force starts at b or above.
module _ {fl : Float} (dom : Domain fl) (posture : State) (sv : Services fl) (b : ℤ)
    (low : b ≤ℤ (eff_bits dom posture sv).0) (high : b ≤ℤ (eff_bits dom posture sv).1) where
  step_floor : b ≤ℤ min_ℤ ((eff_bits dom posture sv).0 +ℤ pos 4) (eff_bits dom posture sv).1
  step_floor = min_step b (eff_bits dom posture sv).0 (eff_bits dom posture sv).1 low high

  rule_floor :
      (a : RuleAction) (id : Bytes) (m : Memo)
      → Decides (Floor b) (apply_rule dom posture sv a id m).0
  unfolding apply_rule
  rule_floor rule_allow id m = λ e. cc
  rule_floor rule_challenge id m =
      either (Floor b) (sv.has_pow && dom.pow_enabled) _ _
        (if-Decides (Floor b) (is_valid (pow_token dom posture sv m).0) _ _ (λ e. cc)
          (λ e. step_floor))
        (λ e. cc)
  rule_floor rule_deny id m = λ e. cc
  rule_floor rule_block id m = λ e. cc
  rule_floor rule_other id m = tt

  match_floor : (r : Option Rule) (m : Memo) → Decides (Floor b) (on_match dom posture sv r m).0
  unfolding on_match
  match_floor none m = tt
  match_floor (some r) m = rule_floor r.action r.id m

  waf_floor : (m : Memo) → Decides (Floor b) (waf_rules_stage dom posture sv m).0
  unfolding waf_rules_stage
  waf_floor m =
      either (Floor b) (not dom.rules_enabled || not sv.has_rules) _ _ tt (
        match_floor (sv.match_rule (pow_exempt dom posture sv m).0) (pow_exempt dom posture sv m).1)

  geo_floor : (g : GeoAction) → Decides (Floor b) (geo_challenges dom posture sv g)
  unfolding geo_challenges
  geo_floor geo_challenge = if-Decides (Floor b) dom.geo_enabled _ _ (λ e. low) tt
  geo_floor geo_deny = tt
  geo_floor geo_none = tt

  feed_floor : (f : Option Bytes) → Decides (Floor b) (feed_challenges dom posture sv f)
  unfolding feed_challenges
  feed_floor none = geo_floor sv.geo_action
  feed_floor (some f) =
      if-Decides (Floor b) dom.reputation_enabled _ _ (λ e. step_floor) (geo_floor sv.geo_action)

  intel_floor : (m : Memo) → Decides (Floor b) (intel_challenge_stage dom posture sv m).0
  unfolding intel_challenge_stage
  intel_floor m =
      either (Floor b) (not sv.has_intel || (not sv.has_pow || not dom.pow_enabled)) _ _ tt (
        if-Decides (Floor b) ((pow_exempt dom posture sv m).0 || not sv.addr_parses) _ _ tt
          (feed_floor sv.feed_challenge))

  scaled_floor :
      (x y : fl.F)
      → b
        ≤ℤ scale_difficulty dom posture sv
            (eff_bits dom posture sv).0
            (eff_bits dom posture sv).1
            x
            y
  unfolding scale_difficulty
  scaled_floor x y = elim (Bool-cases (fl.le (fl.of_nat 1) y)) [
    | inl t ↦ rw (scale_difficulty, t) low
    | inr n ↦
        rw (scale_difficulty, n)
          (clamp b (eff_bits dom posture sv).1 (eff_bits dom posture sv).0 low high (
            (eff_bits dom posture sv).0
            +ℤ sv.scaled_bits (eff_bits dom posture sv).0 (eff_bits dom posture sv).1 x y))
  ]

  score_floor : (x : Option fl.F) (m : Memo) → Decides (Floor b) (on_score dom posture sv x m).0
  unfolding on_score score_verdict
  score_floor none m = tt
  score_floor (some x) m = either (Floor b) dom.observe_only _ _ tt (
      either (Floor b) (fl.le dom.deny_at x) _ _ (λ e. cc)
        (either (Floor b) (fl.le dom.challenge_at x && (sv.has_pow && dom.pow_enabled)) _ _
          (if-Decides (Floor b) (pow_exempt dom posture sv m).0 _ _ tt
            (λ e. scaled_floor x dom.challenge_at))
          tt))

  anomaly_floor : (m : Memo) → Decides (Floor b) (anomaly_stage dom posture sv m).0
  unfolding anomaly_stage
  anomaly_floor m =
      either (Floor b) (not dom.anomaly_enabled || not sv.has_models) _ _ tt
        (score_floor sv.score m)

  pow_floor : (m : Memo) → Decides (Floor b) (pow_challenge_stage dom posture sv m).0
  unfolding pow_challenge_stage
  pow_floor m = either (Floor b) (not sv.has_pow || not dom.pow_enabled) _ _ tt (
      either (Floor b) (pow_exempt dom posture sv m).0 _ _ tt (
        either (Floor b) (dom.suspicion_mode && (dom.anomaly_enabled && not posture.force_always)) _
          _ tt (λ e. low)))

  calm : (d : Decision) → is_challenge d.action ≡ false → Floor b d
  calm d h e = cc

  floors : All (Keeps Anything (Floor b)) (guards dom posture sv)
  unfolding Anything allowlist_stage header_stage
  floors = (
    λ m i. (tt, tt),
    (
      λ m i. (tt, tt),
      (
        λ m i. (quiet (Floor b) calm _ (denylist_asks dom posture sv m), tt),
        (
          λ m i. (quiet (Floor b) calm _ (bot_asks dom posture sv m), tt),
          (
            λ m i. (quiet (Floor b) calm _ (intel_asks dom posture sv m), tt),
            (
              λ m i. (quiet (Floor b) calm _ (block_asks dom posture sv m), tt),
              (
                λ m i. (quiet (Floor b) calm _ (honeypot_asks dom posture sv m), tt),
                (
                  λ m i. (waf_floor m, tt),
                  (
                    λ m i. (quiet (Floor b) calm _ (token_asks dom posture sv m), tt),
                    (
                      λ m i. (intel_floor m, tt),
                      (λ m i. (anomaly_floor m, tt), (λ m i. (pow_floor m, tt), tt)),
                    ),
                  ),
                ),
              ),
            ),
          ),
        ),
      ),
    ),
  )

  verdict_floor : Floor b (run_stages (guards dom posture sv) fresh_memo).0
  unfolding Anything
  verdict_floor =
      run-Keeps Anything (Floor b) (guards dom posture sv) fresh_memo floors (λ e. cc) tt

  refuse_floor : (d : Decision) → Floor b d → Floor b (refuse_if dom posture sv d)
  unfolding refuse_if
  refuse_floor d h =
      elim (Bool-cases
        (is_challenge d.action && (sv.unchallengeable_client && dom.refuses_unchallengeable))) [
          | inl y ↦ rw (refuse_if, y) (λ e. cc)
          | inr n ↦ rw (refuse_if, n) h
        ]

trans_le : (a b c : ℤ) → a ≤ℤ b → b ≤ℤ c → a ≤ℤ c
trans_le a b c h k = omega arith

min_bits_le :
    {fl : Float} (dom : Domain fl) (posture : State) (sv : Services fl)
    → pos 0 ≤ℤ dom.base_bits
    → token_min_bits dom posture sv ≤ℤ dom.base_bits
unfolding token_min_bits
min_bits_le dom posture sv h = ground arith

-- Whenever the verdict on a request is a challenge, by whichever stage and in whatever posture, its
-- difficulty is at least the minimum that the token check demands of this request's scope: a solved
-- challenge is never rejected as too easy. The domain's window must be in order and not negative,
-- and the posture's raise not negative.
pub challenge_accepted :
    {fl : Float} (dom : Domain fl) (posture : State) (sv : Services fl)
    → pos 0 ≤ℤ dom.base_bits
    → dom.base_bits ≤ℤ dom.max_bits
    → pos 0 ≤ℤ posture.extra_bits
    → is_challenge (evaluate_request dom posture sv).0.action ≡ true
    → token_min_bits dom posture sv ≤ℤ (evaluate_request dom posture sv).0.difficulty
unfolding evaluate_request eff_bits
challenge_accepted dom posture sv h w e c =
    let ceiling = cap_of posture dom.max_bits in
    let low = effective_bits-base posture dom.base_bits dom.max_bits ceiling in
    let high =
      trans_le dom.base_bits dom.max_bits (eff_bits dom posture sv).1 w
        (effective_bits-window posture dom.base_bits dom.max_bits ceiling e w).0 in
    trans_le (token_min_bits dom posture sv) dom.base_bits
      (evaluate_request dom posture sv).0.difficulty (min_bits_le dom posture sv h)
      (refuse_floor dom posture sv dom.base_bits low high
        (run_stages (guards dom posture sv) fresh_memo).0
        (verdict_floor dom posture sv dom.base_bits low high) c)
