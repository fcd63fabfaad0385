-- ===== src/Pow/Dispatch.antt =====
-- core/pow/challenge.go: Redeem, for a challenge of either kind, which its id tells apart.
use angie_guardian.Prelude.{ℕ, Bool, true, false, ◌≡◌, refl, ap, Bytes, if◌then◌else◌}
use angie_guardian.Pow.Words.{Attempt, done, failed}
use angie_guardian.Pow.Escalation.{Names, Counters}
use angie_guardian.Pow.Manager.{Services, PowError}
use angie_guardian.Pow.Redeem.{RedeemRequest, RedeemResult, redeem}
use angie_guardian.Pow.Stateless.{Codec, is_stateless_id, version_of, cut_prefix, encode_stateless}
use angie_guardian.Pow.Stateless.Open.{Refreshes}
use angie_guardian.Pow.Stateless.Redeem.{Replica, redeem_stateless}

-- A stored challenge has no soft error.
abbrev no_soft_error : Attempt PowError RedeemResult → Attempt PowError (RedeemResult × Bool)
no_soft_error (failed e) = failed e
no_soft_error (done res) = done (res, false)

-- `Redeem`. The store of a stored challenge is reached: the model of it has no failing reads.
unfoldable pub redeem_challenge :
    {C : Type 0}
    → Services
    → Codec
    → Names
    → Counters C
    → Replica C
    → Refreshes
    → Bool
    → ℕ
    → ℕ
    → RedeemRequest
    → Replica C × Attempt PowError (RedeemResult × Bool)
unfolding is_stateless_id
redeem_challenge sv cd names cs a keys up now at req =
    let (m, answer) = redeem sv names cs a.manager now req in
    if is_stateless_id req.challenge_id
    then redeem_stateless sv cd names cs a keys up now at req
    else (record a { manager = m }, no_soft_error answer)

-- The id of an issued stateless challenge is redeemed as one.
pub redeem_challenge-encode :
    {C : Type 0} (sv : Services) (cd : Codec) (names : Names) (cs : Counters C) (a : Replica C)
    (keys : Refreshes) (up : Bool) (now at : ℕ) (req : RedeemRequest) (secret text : Bytes)
    → req.challenge_id ≡ (encode_stateless sv cd secret text 1).0
    → redeem_challenge sv cd names cs a keys up now at req
      ≡ redeem_stateless sv cd names cs a keys up now at req
unfolding redeem_challenge is_stateless_id version_of cut_prefix encode_stateless
redeem_challenge-encode sv cd names cs a keys up now at req secret text same =
    let dispatched : is_stateless_id req.challenge_id ≡ true = ap is_stateless_id same in
    rw (dispatched, redeem_challenge) refl
