-- ===== src/Pipeline/State.antt =====
-- core/pipeline.go and core/stateless/stateless.go: decisions, events, the domain's
-- settings that the stages read, the request's memo, and the services that answer the stages.
use angie_guardian.Prelude.{
  ℕ, Bool, true, false, ◌||◌, Option, List, [], ◌∷◌, Bytes, bytes_eq, if◌then◌else◌,
}
use angie_guardian.Prelude.Int.{ℤ}
use angie_guardian.Prelude.Float.{Float}
use angie_guardian.Store.{Result}
use angie_guardian.Memory.State.{has_prefix}

pub data Action : Type 0 where
  allow challenge deny refuse : Action

pub data EventType : Type 0 where
  rule_match instant_block bot_spoof anomaly_event static_deny : EventType

pub record Event : Type 0 where
  pub type : EventType
  pub detail : Bytes

-- Why a token did not vouch.
pub data Verdict : Type 0 where
  unchecked valid absent invalid expired binding under_difficulty : Verdict

-- The reason strings, each with its variable part. The category of a reason is what stands
-- before its first colon.
pub data Why : Type 0 where
  by_default engine_closed pow_token_ok unchallengeable anomaly_deny anomaly_challenge : Why
  no_token token_invalid token_expired token_binding token_under_diff : Why
  denylist_ip denylist_ua denylist_path honeypot_hit : Why
  by_spoof by_block by_reputation by_waf by_geo : Bytes → Why

pub record Decision : Type 0 where
  pub action : Action
  pub difficulty : ℤ
  pub reason : Why
  pub events : List Event

-- What a stage returns: nil, an error, or a decision.
pub data Outcome : Type 0 where
  no_opinion failed : Outcome
  decided : Decision → Outcome

pub data RuleAction : Type 0 where
  rule_allow rule_challenge rule_deny rule_block rule_other : RuleAction

pub record Rule : Type 0 where
  pub id : Bytes
  pub action : RuleAction

pub data BotStatus : Type 0 where
  confirmed unconfirmed bot_error : BotStatus

pub data GeoAction : Type 0 where
  geo_none geo_deny geo_challenge : GeoAction

-- How VerifyToken ends: nil, one of its sentinels, or another error.
pub data TokenCheck : Type 0 where
  check_ok check_binding check_under_difficulty check_expired check_invalid check_other : TokenCheck

pub data Exemption : Type 0 where
  not_exempt header_exemption : Exemption
  allowlisted verified_bot : Bytes → Exemption

-- The memos of a request's environment; `header_exempt` is 0 unchecked, 1 no match, 2 matched.
pub record Memo : Type 0 where
  pub token : Verdict
  pub header_exempt : ℕ
  pub exemption : Exemption

module _ (fl : Float) where
  open fl use {F}

  -- What the stages read of the resolved domain.
  pub record Domain : Type 0 where
    pub pow_enabled : Bool
    pub argon2id : Bool
    pub base_bits : ℤ
    pub max_bits : ℤ
    pub suspicion_mode : Bool
    pub has_header_exemptions : Bool
    pub refuses_unchallengeable : Bool
    pub spoof_continues : Bool
    pub reputation_enabled : Bool
    pub geo_enabled : Bool
    pub honeypot_enabled : Bool
    pub honeypot_paths : List Bytes
    pub rules_enabled : Bool
    pub anomaly_enabled : Bool
    pub observe_only : Bool
    pub deny_at : F
    pub challenge_at : F

  -- The collaborators of the stages on one request. A component that is nil has its `has_` flag off.
  pub record Services : Type 0 where
    pub allowlist_match : Option Bytes
    pub addr_parses : Bool
    pub deny_ip : Bool
    pub deny_ua : Bool
    pub deny_path : Bool
    pub normalized_path : Bytes
    pub has_bots : Bool
    pub bot_match : Option Bytes
    pub bot_status : BotStatus
    pub bot_domain : Bool
    pub mirror_lookup : Option Bytes
    pub read_through : Bool
    pub block_lookup : Result (Option Bytes)
    pub has_intel : Bool
    pub feed_deny : Option Bytes
    pub feed_challenge : Option Bytes
    pub geo_action : GeoAction
    pub geo_reason : Bytes
    pub has_rules : Bool
    pub match_rule : Bool → Option Rule
    pub has_pow : Bool
    pub has_header_cache : Bool
    pub header_match : Bool
    pub has_cookie : Bool
    pub verify_token : ℤ → TokenCheck
    pub has_models : Bool
    pub score : Option F
    pub score_detail : Bytes
    -- int(float64(maxDiff-base)*(score-challengeAt)/(1-challengeAt)+0.5)
    pub scaled_bits : ℤ → ℤ → F → F → ℤ
    pub unchallengeable_client : Bool

abbrev pub is_exempt : Exemption → Bool
is_exempt not_exempt = false
is_exempt header_exemption = true
is_exempt (allowlisted x) = true
is_exempt (verified_bot x) = true

abbrev pub is_valid : Verdict → Bool
is_valid valid = true
is_valid unchecked = false
is_valid absent = false
is_valid invalid = false
is_valid expired = false
is_valid binding = false
is_valid under_difficulty = false

abbrev pub is_unchecked : Verdict → Bool
is_unchecked unchecked = true
is_unchecked valid = false
is_unchecked absent = false
is_unchecked invalid = false
is_unchecked expired = false
is_unchecked binding = false
is_unchecked under_difficulty = false

-- strings.HasSuffix(entry, "/"); '/' is 47.
abbrev pub ends_in_slash : Bytes → Bool
ends_in_slash [] = false
ends_in_slash (c ∷ []) = bytes_eq (c ∷ []) (47 ∷ [])
ends_in_slash (c ∷ d ∷ rest) = ends_in_slash (d ∷ rest)

abbrev pub drop_last : Bytes → Bytes
drop_last [] = []
drop_last (c ∷ []) = []
drop_last (c ∷ d ∷ rest) = c ∷ drop_last (d ∷ rest)

unfoldable pub match_path_list : List Bytes → Bytes → Bool
match_path_list [] path = false
match_path_list (entry ∷ entries) path =
    let rest = match_path_list entries path in
    if ends_in_slash entry
    then (has_prefix path entry || bytes_eq path (drop_last entry)) || rest
    else bytes_eq path entry || rest
