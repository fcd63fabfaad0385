-- ===== src/Pipeline/Stages.antt =====
-- core/pipeline.go: the stages. A stage takes the request's memo and returns what it decides and the
-- memo; the domain, the posture and the services are those of the request.
use angie_guardian.Prelude.{
  Bool, true, false, ◌&&◌, ◌||◌, not, Option, none, some, List, [], ◌∷◌, ◌++◌, Bytes, if◌then◌else◌,
  ◌=ℕ◌,
}
use angie_guardian.Prelude.Int.{ℤ, pos, ◌+ℤ◌, min_ℤ, max_ℤ}
use angie_guardian.Prelude.Float.{Float}
use angie_guardian.Store.{ok, err, block_reason}
use angie_guardian.Attack.State.{State}
use angie_guardian.Attack.Machine.{cap_of, effective_bits}
use angie_guardian.Pipeline.State.{
  Action, allow, challenge, deny, rule_match, instant_block, bot_spoof, anomaly_event, static_deny,
  Event, Verdict, unchecked, valid, absent, invalid, expired, binding, under_difficulty, Why,
  pow_token_ok, anomaly_deny, anomaly_challenge, no_token, token_invalid, token_expired,
  token_binding, token_under_diff, denylist_ip, denylist_ua, denylist_path, honeypot_hit, by_spoof,
  by_block, by_reputation, by_waf, by_geo, Outcome, no_opinion, failed, decided, RuleAction,
  rule_allow, rule_challenge, rule_deny, rule_block, rule_other, Rule, confirmed, unconfirmed,
  bot_error, GeoAction, geo_none, geo_deny, geo_challenge, TokenCheck, check_ok, check_binding,
  check_under_difficulty, check_expired, check_invalid, check_other, not_exempt, header_exemption,
  allowlisted, verified_bot, Memo, Domain, Services, is_exempt, is_valid, is_unchecked,
  match_path_list,
}

-- `&Decision{Action: a, Reason: r, Events: es}`
abbrev pub verdict_of : Action → Why → List Event → Outcome
verdict_of a r es = decided (record { action = a; difficulty = pos 0; reason = r; events = es })

abbrev pub challenge_with : ℤ → Why → List Event → Outcome
challenge_with bits r es =
    decided (record { action = challenge; difficulty = bits; reason = r; events = es })

unfoldable pub token_reason : Verdict → Why
token_reason invalid = token_invalid
token_reason expired = token_expired
token_reason binding = token_binding
token_reason under_difficulty = token_under_diff
token_reason absent = no_token
token_reason unchecked = no_token
token_reason valid = no_token

unfoldable pub classify_token : TokenCheck → Verdict
classify_token check_ok = valid
classify_token check_binding = binding
classify_token check_under_difficulty = under_difficulty
classify_token check_expired = expired
classify_token check_invalid = invalid
classify_token check_other = invalid

module _ {fl : Float} (dom : Domain fl) (posture : State) (sv : Services fl) where
  unfoldable pub token_min_bits : ℤ
  token_min_bits = if dom.argon2id then pos 0 else dom.base_bits

  unfoldable pub eff_bits : ℤ × ℤ
  unfolding effective_bits
  eff_bits = effective_bits posture dom.base_bits dom.max_bits (cap_of posture dom.max_bits)

  unfoldable pub header_pow_exempt : Memo → Bool × Memo
  header_pow_exempt m =
      if not (m.header_exempt =ℕ 0)
      then (m.header_exempt =ℕ 2, m)
      else if not dom.pow_enabled || (not dom.has_header_exemptions || not sv.has_header_cache)
      then (false, record m { header_exempt = 1 })
      else if sv.header_match
      then (true, record m { header_exempt = 2; exemption = header_exemption })
      else (false, record m { header_exempt = 1 })

  unfoldable pub pow_exempt : Memo → Bool × Memo
  unfolding header_pow_exempt
  pow_exempt m = if is_exempt m.exemption then (true, m) else header_pow_exempt m

  -- `powToken`, with its memo.
  unfoldable pub pow_token : Memo → Verdict × Memo
  unfolding classify_token token_min_bits
  pow_token m =
      if not (is_unchecked m.token)
      then (m.token, m)
      else if not sv.has_pow || not dom.pow_enabled
      then (absent, record m { token = absent })
      else if not sv.has_cookie
      then (absent, record m { token = absent })
      else (let v = classify_token (sv.verify_token token_min_bits) in (v, record m { token = v }))

  unfoldable pub allowlist_stage : Memo → Outcome × Memo
  allowlist_stage m = (
    no_opinion,
    record m { exemption = elim sv.allowlist_match [ none ↦ not_exempt | some x ↦ allowlisted x ] },
  )

  unfoldable pub header_stage : Memo → Outcome × Memo
  unfolding pow_exempt
  header_stage m = (no_opinion, (pow_exempt m).1)

  -- `staticDenyEvents`
  abbrev pub static_deny_events : List Event
  static_deny_events =
      record {
        type = static_deny;
        detail =
            b's' ∷ b't' ∷ b'a' ∷ b't' ∷ b'i' ∷ b'c' ∷ 32 ∷ b'd' ∷ b'e' ∷ b'n' ∷ b'y' ∷ b'l' ∷ b'i'
            ∷ b's' ∷ b't' ∷ 32 ∷ b'h' ∷ b'i' ∷ b't' ∷ [];
      }
      ∷ []

  -- `CheckDenylist`
  unfoldable pub check_denylist : Outcome
  check_denylist =
      if sv.addr_parses && sv.deny_ip
      then verdict_of deny denylist_ip static_deny_events
      else if sv.deny_ua
      then verdict_of deny denylist_ua static_deny_events
      else if sv.deny_path
      then verdict_of deny denylist_path static_deny_events
      else no_opinion

  unfoldable pub denylist_stage : Memo → Outcome × Memo
  unfolding check_denylist
  denylist_stage m = (if not sv.addr_parses then failed else check_denylist, m)

  -- `classifyBotIdentity`, as whether the claim is a spoof.
  unfoldable pub classify_bot : Bytes → Memo → Bool × Memo
  classify_bot name m = elim sv.bot_status [
    | confirmed ↦
        if sv.bot_domain
        then (
          false,
          elim m.exemption [
            | not_exempt ↦ record m { exemption = verified_bot name }
            | header_exemption ↦ record m { exemption = verified_bot name }
            | allowlisted x ↦ m
            | verified_bot x ↦ m
          ],
        )
        else (true, m)
    | unconfirmed ↦ (true, m)
    | bot_error ↦ (false, m)
  ]

  unfoldable pub verified_bot_stage : Memo → Outcome × Memo
  unfolding classify_bot
  verified_bot_stage m = elim sv.bot_match [
    | none ↦ (no_opinion, m)
    | some name ↦
        if not sv.has_bots
        then (no_opinion, m)
        else (let (spoof, m') = classify_bot name m in
            (
              if spoof && not dom.spoof_continues
                  then verdict_of deny (by_spoof name)
                      (record { type = bot_spoof; detail = name } ∷ [])
                  else no_opinion,
              m',
            ))
  ]

  -- What a hit teaches the enforcement mirror (`Learn`) is the mirror's, and is left out.
  unfoldable pub behaviour_block_stage : Memo → Outcome × Memo
  unfolding block_reason
  behaviour_block_stage m = (
    elim sv.mirror_lookup [
      | some reason ↦ verdict_of deny (by_block reason) []
      | none ↦ if not sv.read_through && sv.addr_parses then no_opinion else (elim sv.block_lookup [
        | err e ↦ failed
        | ok none ↦ no_opinion
        | ok (some value) ↦ verdict_of deny (by_block (block_reason value)) []
      ])
    ],
    m,
  )

  unfoldable pub geo_denies : Outcome
  geo_denies =
      if dom.geo_enabled
      then (elim sv.geo_action [
        | geo_deny ↦ verdict_of deny (by_geo sv.geo_reason) []
        | geo_challenge ↦ no_opinion
        | geo_none ↦ no_opinion
      ])
      else no_opinion

  unfoldable pub intel_deny_stage : Memo → Outcome × Memo
  unfolding geo_denies
  intel_deny_stage m = (
    if not sv.has_intel || not sv.addr_parses then no_opinion else (elim sv.feed_deny [
      | none ↦ geo_denies
      | some feed ↦
          if dom.reputation_enabled then verdict_of deny (by_reputation feed) [] else geo_denies
    ]),
    m,
  )

  -- "honeypot:path"
  abbrev pub honeypot_detail : Bytes
  honeypot_detail =
      b'h' ∷ b'o' ∷ b'n' ∷ b'e' ∷ b'y' ∷ b'p' ∷ b'o' ∷ b't' ∷ b':' ∷ b'p' ∷ b'a' ∷ b't' ∷ b'h' ∷ []

  unfoldable pub honeypot_stage : Memo → Outcome × Memo
  unfolding match_path_list
  honeypot_stage m = (
    if dom.honeypot_enabled && match_path_list dom.honeypot_paths sv.normalized_path
        then verdict_of deny honeypot_hit
            (record { type = instant_block; detail = honeypot_detail } ∷ [])
        else no_opinion,
    m,
  )

  -- One full step over the floor, under the ceiling.
  abbrev pub step_bits : ℤ
  step_bits = min_ℤ (eff_bits.0 +ℤ pos 4) eff_bits.1

  -- "waf:"
  abbrev pub waf_prefix : Bytes
  waf_prefix = b'w' ∷ b'a' ∷ b'f' ∷ b':' ∷ []

  abbrev pub rule_denies : Bytes → Outcome
  rule_denies id = verdict_of deny (by_waf id) (record { type = rule_match; detail = id } ∷ [])

  -- The verdict on a rule that matched: its action and its id.
  unfoldable pub apply_rule : RuleAction → Bytes → Memo → Outcome × Memo
  unfolding pow_token eff_bits
  apply_rule rule_allow id m = (verdict_of allow (by_waf id) [], m)
  apply_rule rule_challenge id m =
      if sv.has_pow && dom.pow_enabled
      then (let (v, m') = pow_token m in
          (
            if is_valid v
                then verdict_of allow pow_token_ok []
                else challenge_with step_bits (by_waf id)
                    (record { type = rule_match; detail = id } ∷ []),
            m',
          ))
      else (rule_denies id, m)
  apply_rule rule_deny id m = (rule_denies id, m)
  apply_rule rule_block id m = (
    verdict_of deny (by_waf id) (record { type = instant_block; detail = waf_prefix ++ id } ∷ []),
    m,
  )
  apply_rule rule_other id m = (failed, m)

  unfoldable pub on_match : Option Rule → Memo → Outcome × Memo
  unfolding apply_rule
  on_match none m = (no_opinion, m)
  on_match (some rule) m = apply_rule rule.action rule.id m

  unfoldable pub waf_rules_stage : Memo → Outcome × Memo
  unfolding pow_exempt on_match
  waf_rules_stage m =
      if not dom.rules_enabled || not sv.has_rules
      then (no_opinion, m)
      else (let (exempt, m') = pow_exempt m in on_match (sv.match_rule exempt) m')

  unfoldable pub pow_token_stage : Memo → Outcome × Memo
  unfolding pow_exempt pow_token
  pow_token_stage m =
      let (exempt, m') = pow_exempt m in
      if exempt
      then (no_opinion, m')
      else (let (v, m'') = pow_token m' in
          (if is_valid v then verdict_of allow pow_token_ok [] else no_opinion, m''))

  unfoldable pub geo_challenges : GeoAction → Outcome
  unfolding eff_bits
  geo_challenges geo_challenge =
      if dom.geo_enabled then challenge_with eff_bits.0 (by_geo sv.geo_reason) [] else no_opinion
  geo_challenges geo_deny = no_opinion
  geo_challenges geo_none = no_opinion

  unfoldable pub feed_challenges : Option Bytes → Outcome
  unfolding geo_challenges eff_bits
  feed_challenges none = geo_challenges sv.geo_action
  feed_challenges (some feed) =
      if dom.reputation_enabled
      then challenge_with step_bits (by_reputation feed) []
      else geo_challenges sv.geo_action

  unfoldable pub intel_challenge_stage : Memo → Outcome × Memo
  unfolding pow_exempt feed_challenges
  intel_challenge_stage m =
      if not sv.has_intel || (not sv.has_pow || not dom.pow_enabled)
      then (no_opinion, m)
      else (let (exempt, m') = pow_exempt m in
          (
            if exempt || not sv.addr_parses then no_opinion else feed_challenges sv.feed_challenge,
            m',
          ))

  unfoldable pub scale_difficulty : ℤ → ℤ → fl.F → fl.F → ℤ
  unfolding ◌+ℤ◌
  scale_difficulty base ceiling score at =
      if fl.le (fl.of_nat 1) at
      then base
      else min_ℤ (max_ℤ (base +ℤ sv.scaled_bits base ceiling score at) base) ceiling

  unfoldable pub score_verdict : fl.F → Memo → Outcome × Memo
  unfolding pow_exempt scale_difficulty eff_bits
  score_verdict score m =
      let events = record { type = anomaly_event; detail = sv.score_detail } ∷ [] in
      if fl.le dom.deny_at score
      then (verdict_of deny anomaly_deny events, m)
      else if fl.le dom.challenge_at score && (sv.has_pow && dom.pow_enabled)
      then (let (exempt, m') = pow_exempt m in
          (
            if exempt
                then no_opinion
                else challenge_with (scale_difficulty eff_bits.0 eff_bits.1 score dom.challenge_at)
                    anomaly_challenge events,
            m',
          ))
      else (no_opinion, m)

  unfoldable pub on_score : Option fl.F → Memo → Outcome × Memo
  unfolding score_verdict
  on_score none m = (no_opinion, m)
  on_score (some score) m = if dom.observe_only then (no_opinion, m) else score_verdict score m

  unfoldable pub anomaly_stage : Memo → Outcome × Memo
  unfolding on_score
  anomaly_stage m =
      if not dom.anomaly_enabled || not sv.has_models then (no_opinion, m) else on_score sv.score m

  unfoldable pub pow_challenge_stage : Memo → Outcome × Memo
  unfolding pow_exempt pow_token eff_bits token_reason
  pow_challenge_stage m =
      if not sv.has_pow || not dom.pow_enabled
      then (no_opinion, m)
      else (let (exempt, m') = pow_exempt m in
          if exempt
          then (no_opinion, m')
          else if dom.suspicion_mode && (dom.anomaly_enabled && not posture.force_always)
          then (no_opinion, m')
          else (let (v, m'') = pow_token m' in
              (challenge_with eff_bits.0 (token_reason v) [], m'')))
