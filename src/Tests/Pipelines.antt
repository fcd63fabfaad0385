-- ===== src/Tests/Pipelines.antt =====
-- Runs of core/pipeline.go and core/engine.go.
use angie_guardian.Prelude.{◌≡◌, refl, arith, true, false, none, some, [], ◌∷◌, if◌then◌else◌}
use angie_guardian.Prelude.Int.{pos, ◌≤ℤ◌}
use angie_guardian.Store.{ok}
use angie_guardian.Pipeline.State.{
  allow, deny, unconfirmed, geo_none, rule_block, rule_challenge, RuleAction, check_ok,
  check_expired, Domain, Services,
}
use angie_guardian.Pipeline.Stages.{
  token_min_bits, allowlist_stage, header_stage, denylist_stage, verified_bot_stage,
  intel_deny_stage, behaviour_block_stage, honeypot_stage, waf_rules_stage,
}
use angie_guardian.Pipeline.Engine.{is_challenge, evaluate_request, engine_evaluate}
use angie_guardian.Pipeline.Floor.{challenge_accepted}
use angie_guardian.Pipeline.Final.{waf_deny_final, Unsent, client, unchallengeable_refused}
use angie_guardian.Tests.Attacks.{numbers, alert}

abbrev pub site : Domain numbers
site = record {
  pow_enabled = true;
  argon2id = false;
  base_bits = pos 16;
  max_bits = pos 24;
  suspicion_mode = false;
  has_header_exemptions = false;
  refuses_unchallengeable = true;
  spoof_continues = false;
  reputation_enabled = false;
  geo_enabled = false;
  honeypot_enabled = true;
  honeypot_paths = (47 ∷ 120 ∷ 47 ∷ []) ∷ [];
  rules_enabled = true;
  anomaly_enabled = false;
  observe_only = false;
  deny_at = 9;
  challenge_at = 5;
}

-- A client on the allowlist with a valid token, whose request matches a rule of the given action.
abbrev pub visit : RuleAction → Services numbers
visit a = record {
  allowlist_match = some (97 ∷ []);
  addr_parses = true;
  deny_ip = false;
  deny_ua = false;
  deny_path = false;
  normalized_path = 47 ∷ [];
  has_bots = false;
  bot_match = none;
  bot_status = unconfirmed;
  bot_domain = false;
  mirror_lookup = none;
  read_through = true;
  block_lookup = ok none;
  has_intel = false;
  feed_deny = none;
  feed_challenge = none;
  geo_action = geo_none;
  geo_reason = [];
  has_rules = true;
  match_rule = λ exempt. some (record { id = 115 ∷ []; action = a });
  has_pow = true;
  has_header_cache = false;
  header_match = false;
  has_cookie = true;
  verify_token = λ bits. check_ok;
  has_models = false;
  score = none;
  score_detail = [];
  scaled_bits = λ base ceiling x at. pos 0;
  unchallengeable_client = true;
}

-- An ordinary client whose token has expired.
abbrev newcomer : Services numbers
newcomer = record (visit rule_challenge) {
  allowlist_match = none;
  verify_token = λ bits. check_expired;
  unchallengeable_client = false;
}

waf_deny_final_example :
    (engine_evaluate site alert (visit rule_block) true).0.action ≡ (if true then deny else allow)
waf_deny_final_example = waf_deny_final site alert (visit rule_block) refl (λ exempt. refl) true

unchallengeable_refused_example :
    Unsent site alert newcomer
      (evaluate_request site alert (client site alert newcomer false)).0
      (evaluate_request site alert (client site alert newcomer true)).0
unchallengeable_refused_example = unchallengeable_refused site alert newcomer refl

challenged : is_challenge (evaluate_request site alert newcomer).0.action ≡ true
unfolding evaluate_request allowlist_stage header_stage denylist_stage verified_bot_stage
    intel_deny_stage behaviour_block_stage honeypot_stage waf_rules_stage
challenged = refl

challenge_accepted_example :
    token_min_bits site alert newcomer ≤ℤ (evaluate_request site alert newcomer).0.difficulty
challenge_accepted_example =
    challenge_accepted site alert newcomer (omega arith) (omega arith) (omega arith) challenged
