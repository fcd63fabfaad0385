-- ===== src/Pipeline/Engine.antt =====
-- core/engine.go: the run of the stages, the refusal, and the events that feed the scoreboard.
use angie_guardian.Prelude.{
  ℕ, suc, Bool, true, false, ◌&&◌, Option, none, some, List, [], ◌∷◌, Bytes, if◌then◌else◌,
}
use angie_guardian.Prelude.Int.{ℤ, pos, max_ℤ}
use angie_guardian.Prelude.Int64.{is_positive}
use angie_guardian.Prelude.Float.{Float}
use angie_guardian.Store.{ok, err, Decimal}
use angie_guardian.Memory.State.{ShardedMemory}
use angie_guardian.Scoreboard.{Netip, Scoreboard, block, record_event}
use angie_guardian.Attack.State.{State, level_eq, attack}
use angie_guardian.Pipeline.State.{
  Action, allow, challenge, deny, refuse, EventType, rule_match, instant_block, bot_spoof,
  anomaly_event, static_deny, Event, unchecked, Why, by_default, engine_closed, pow_token_ok,
  unchallengeable, anomaly_deny, anomaly_challenge, no_token, token_invalid, token_expired,
  token_binding, token_under_diff, denylist_ip, denylist_ua, denylist_path, honeypot_hit, by_spoof,
  by_block, by_reputation, by_waf, by_geo, Decision, Outcome, no_opinion, failed, decided,
  Exemption, not_exempt, Memo, Domain, Services,
}
use angie_guardian.Pipeline.Stages.{
  allowlist_stage, header_stage, denylist_stage, verified_bot_stage, intel_deny_stage,
  behaviour_block_stage, honeypot_stage, waf_rules_stage, pow_token_stage, intel_challenge_stage,
  anomaly_stage, pow_challenge_stage,
}

-- `reasonCategory(reason) == "pow"`
abbrev pub is_pow_reason : Why → Bool
is_pow_reason pow_token_ok = true
is_pow_reason unchallengeable = true
is_pow_reason no_token = true
is_pow_reason token_invalid = true
is_pow_reason token_expired = true
is_pow_reason token_binding = true
is_pow_reason token_under_diff = true
is_pow_reason by_default = false
is_pow_reason engine_closed = false
is_pow_reason anomaly_deny = false
is_pow_reason anomaly_challenge = false
is_pow_reason denylist_ip = false
is_pow_reason denylist_ua = false
is_pow_reason denylist_path = false
is_pow_reason honeypot_hit = false
is_pow_reason (by_spoof x) = false
is_pow_reason (by_block x) = false
is_pow_reason (by_reputation x) = false
is_pow_reason (by_waf x) = false
is_pow_reason (by_geo x) = false

abbrev pub is_challenge : Action → Bool
is_challenge challenge = true
is_challenge allow = false
is_challenge deny = false
is_challenge refuse = false

abbrev pub event_name : EventType → Bytes
event_name rule_match = b'r' ∷ b'u' ∷ b'l' ∷ b'e' ∷ b'_' ∷ b'm' ∷ b'a' ∷ b't' ∷ b'c' ∷ b'h' ∷ []
event_name instant_block =
    b'i' ∷ b'n' ∷ b's' ∷ b't' ∷ b'a' ∷ b'n' ∷ b't' ∷ b'_' ∷ b'b' ∷ b'l' ∷ b'o' ∷ b'c' ∷ b'k' ∷ []
event_name bot_spoof = b'b' ∷ b'o' ∷ b't' ∷ b'_' ∷ b's' ∷ b'p' ∷ b'o' ∷ b'o' ∷ b'f' ∷ []
event_name static_deny = b'd' ∷ b'e' ∷ b'n' ∷ b'y' ∷ []
event_name anomaly_event = b'a' ∷ b'n' ∷ b'o' ∷ b'm' ∷ b'a' ∷ b'l' ∷ b'y' ∷ []

abbrev pub Stage : Type 0
Stage = Memo → Outcome × Memo

abbrev pub fresh_memo : Memo
fresh_memo = record { token = unchecked; header_exempt = 0; exemption = not_exempt }

abbrev pub default_decision : Decision
default_decision = record { action = allow; difficulty = pos 0; reason = by_default; events = [] }

-- The loop of `Evaluate`: an error is passed over, the first decision is final.
unfoldable pub run_stages : List Stage → Memo → Decision × Memo
run_stages [] m = (default_decision, m)
run_stages (stage ∷ stages) m =
    let (o, m') = stage m in
    elim o [
      | no_opinion ↦ run_stages stages m'
      | failed ↦ run_stages stages m'
      | decided d ↦ (d, m')
    ]

module _ {fl : Float} (dom : Domain fl) (posture : State) (sv : Services fl) where
  -- The stages that run before the token stage, and those from it on.
  abbrev pub guards : List Stage
  guards =
      allowlist_stage dom posture sv
      ∷ header_stage dom posture sv
      ∷ denylist_stage dom posture sv
      ∷ verified_bot_stage dom posture sv
      ∷ intel_deny_stage dom posture sv
      ∷ behaviour_block_stage dom posture sv
      ∷ honeypot_stage dom posture sv
      ∷ waf_rules_stage dom posture sv
      ∷ pow_token_stage dom posture sv
      ∷ intel_challenge_stage dom posture sv
      ∷ anomaly_stage dom posture sv
      ∷ pow_challenge_stage dom posture sv
      ∷ []

  -- A challenge that the client cannot complete is a refusal.
  unfoldable pub refuse_if : Decision → Decision
  refuse_if d =
      if is_challenge d.action && (sv.unchallengeable_client && dom.refuses_unchallengeable)
      then record {
        action = refuse;
        difficulty = pos 0;
        reason = if is_pow_reason d.reason then unchallengeable else d.reason;
        events = [];
      }
      else d

  -- The verdict of `Evaluate` on the engine's snapshot, and the exemption it reports.
  unfoldable pub evaluate_request : Decision × Exemption
  unfolding run_stages refuse_if
  evaluate_request = let (d, m) = run_stages guards fresh_memo in (refuse_if d, m.exemption)

  -- `Evaluate` of an engine that is open or closed: a closed one has no snapshot, and allows.
  unfoldable pub engine_evaluate : Bool → Decision × Exemption
  unfolding evaluate_request
  engine_evaluate running =
      if running
      then evaluate_request
      else (record default_decision { reason = engine_closed }, not_exempt)

-- `waf.ip_behaviour`: its switch, the block times, and a rate for each scored event type.
pub record Behaviour : Type 0 where
  pub enabled : Bool
  pub block_ttl : ℤ
  pub max_block_ttl : ℤ
  pub rate : EventType → Option (ℤ × ℤ)

-- The threshold under a factor: `scaled` is int(float64(count) * factor), none for a factor
-- outside (0, 1).
abbrev pub limit_of : Option (ℤ → ℤ) → ℤ → ℤ
limit_of none count = count
limit_of (some scaled) count = max_ℤ (pos 1) (scaled count)

-- `scoreboardFactor`
abbrev pub factor_of : State → Option (ℤ → ℤ) → Option (ℤ → ℤ)
factor_of posture configured = if level_eq posture.level attack then configured else none

module _ (n : Netip) (board : Scoreboard) (now : ℕ) (dec : Decimal) (ip : Bytes)
    (random : ℕ → Bytes) where
  -- One event; whether it placed a block.
  unfoldable pub score_event :
      Behaviour → Option (ℤ → ℤ) → ShardedMemory → ℕ → Event → ShardedMemory × Bool
  unfolding block record_event
  score_event ib factor s i ev =
      let counted : ShardedMemory × Bool = elim (ib.rate ev.type) [
        | none ↦ (s, false)
        | some (count, per) ↦
            if is_positive count
            then (let (s', blocked, r) =
                  record_event n board now dec s ip (event_name ev.type) (limit_of factor count) per
                    ib.block_ttl ib.max_block_ttl (random i) in
                (s', blocked))
            else (s, false)
      ] in
      elim ev.type [
        | instant_block ↦
            let (s', r) =
              block n board now dec s ip ev.detail (random i) ib.block_ttl ib.max_block_ttl in
            (s', elim r [ ok told ↦ true | err e ↦ false ])
        | rule_match ↦ counted
        | bot_spoof ↦ counted
        | anomaly_event ↦ counted
        | static_deny ↦ counted
      ]

  unfoldable pub record_events :
      Behaviour → Option (ℤ → ℤ) → ShardedMemory → ℕ → List Event → ShardedMemory
  unfolding score_event
  record_events ib factor s i [] = s
  record_events ib factor s i (ev ∷ events) =
      let rest = record_events ib factor (score_event ib factor s i ev).0 (suc i) events in
      if ib.enabled then rest else s

  -- `Evaluate` with the events of the deciding stage, which are scored before a refusal replaces the
  -- decision; the posture is the one that the request loaded.
  unfoldable pub evaluate_and_record :
      {fl : Float}
      → Domain fl
      → State
      → Services fl
      → Behaviour
      → Option (ℤ → ℤ)
      → ShardedMemory
      → (Decision × Exemption) × ShardedMemory
  unfolding run_stages refuse_if record_events
  evaluate_and_record dom posture sv ib configured s =
      let (d, m) = run_stages (guards dom posture sv) fresh_memo in
      (
        (refuse_if dom posture sv d, m.exemption),
        record_events ib (factor_of posture configured) s 0 d.events,
      )

  -- `ReportEvent`: an event that a transport saw.
  unfoldable pub report_event :
      State → Behaviour → Option (ℤ → ℤ) → ShardedMemory → Event → ShardedMemory
  unfolding record_events
  report_event posture ib configured s ev =
      record_events ib (factor_of posture configured) s 0 (ev ∷ [])
