-- ===== src/Pow/Redeem.antt =====
-- core/pow/challenge.go: the redemption of a stored challenge. It is three steps: a read of the
-- record, the checks, and the swap of the exact bytes that were read; other replicas may act between
-- them. The clock is an argument.
pub mod Once
pub mod Course
mod Checks
pub mod Sound
pub mod Accepts
pub mod Issued
pub mod ZeroBits
use angie_guardian.Prelude.{
  ℕ, zero, suc, ◌+◌, ◌*◌, ◌/◌, ◌≡◌, Bool, true, false, not, ◌&&◌, Option, none, some, List, [], ◌∷◌,
  ◌++◌, Bytes, bytes_eq, ltb, leb, ◌=ℕ◌, if◌then◌else◌, length,
}
use angie_guardian.Prelude.Int.{ℤ, pos, negsuc, ◌-ℤ◌, ◌*ℤ◌, ltb_ℤ}
use angie_guardian.Store.{second}
use angie_guardian.Memory.State.{ShardedMemory}
use angie_guardian.Memory.Ops.{get, compare_and_swap}
use angie_guardian.Pow.Words.{Attempt, done, failed, hex_encode}
use angie_guardian.Pow.Proof.{
  Algorithm, sha256, argon2id, ProofSpec, SpecError, effective, validate, IdKey, verify_argon2id,
}
use angie_guardian.Pow.Record.{
  Record, RecordState, issued, spent, RecordError, proof_spec, encode, decode,
}
use angie_guardian.Pow.Escalation.{Names, Counters, forget_escalation}
use angie_guardian.Pow.Manager.{
  Services, Manager, PowError, challenge_unknown, bad_solution, host_mismatch,
  client_address_mismatch, too_fast, no_js_disabled, id_collision, mint_failed, invalid_spec,
  invalid_record, limited, challenge_key, millisecond,
}

pub record RedeemRequest : Type 0 where
  pub challenge_id : Bytes
  pub nonce : Bytes
  pub proof : Bytes
  pub no_js : Bool
  pub host : Bytes
  pub ip : Bytes
  pub user_agent : Bytes
  pub token_ttl : ℤ
  pub challenge_ttl : ℤ
  -- The callbacks, where the caller gives them; the limiters answer with an error or nothing.
  pub ttls : Option (Bytes → ℤ × ℤ)
  pub acquire_no_js : Option (Bytes → Option PowError)
  pub acquire_argon : Option (Option PowError)

pub data RedeemOutcome : Type 0 where
  redeem_solved redeem_network_handover : RedeemOutcome

pub record RedeemResult : Type 0 where
  pub outcome : RedeemOutcome
  pub token : Bytes
  pub token_ttl : ℤ
  pub redirect_uri : Bytes
  pub issued_ip : Bytes
  pub difficulty : ℤ
  pub algorithm : Algorithm
  pub memory_kib : ℕ
  pub iterations : ℕ
  pub issued_at : ℤ

-- bits.LeadingZeros8 of a byte.
unfoldable pub leading_zeros8 : ℕ → ℕ
leading_zeros8 b =
    if leb 128 b
    then 0
    else if leb 64 b
    then 1
    else if leb 32 b
    then 2
    else if leb 16 b
    then 3
    else if leb 8 b
    then 4
    else if leb 4 b
    then 5
    else if leb 2 b
    then 6
    else if leb 1 b
    then 7
    else 8

unfoldable pub leading_zero_bits : Bytes → ℕ
unfolding leading_zeros8
leading_zero_bits [] = 0
leading_zero_bits (b ∷ bs) =
    let rest = 8 + leading_zero_bits bs in if b =ℕ 0 then rest else leading_zeros8 b

abbrev pub ttls_for : RedeemRequest → Bytes → ℤ × ℤ
ttls_for req uri = elim req.ttls [
  | none ↦ (req.token_ttl, req.challenge_ttl)
  | some resolve ↦ resolve uri
]

abbrev pub asked : Option (Bytes → Option PowError) → Bytes → Option PowError
asked none uri = none
asked (some acquire) uri = acquire uri

abbrev pub flat : Option (Option PowError) → Option PowError
flat none = none
flat (some answer) = answer

-- The checks of a redemption without JavaScript.
unfoldable pub waited : {C : Type 0} → Manager C → ℕ → RedeemRequest → Record → Option PowError
waited m now req r =
    if not r.no_js then some no_js_disabled else elim (asked req.acquire_no_js r.uri) [
      | some refused ↦ some refused
      | none ↦
          if ltb_ℤ (pos now -ℤ r.issued_at *ℤ pos millisecond) m.no_js_min_delay
          then some too_fast
          else none
    ]

-- The swap of the bytes that were read for the spent record.
unfoldable pub spend :
    {C : Type 0} → Manager C → ℕ → RedeemRequest → Bytes → Record → Manager C × Option PowError
spend m now req raw r = elim (encode (record r { state = spent })) [
  | failed e ↦ (m, some (invalid_record e))
  | done marker ↦
      let (store, swapped) =
        compare_and_swap m.store now (challenge_key req.challenge_id) (some raw) marker
          (ttls_for req r.uri).1 in
      (record m { store = store }, if swapped then none else some challenge_unknown)
]

abbrev pub redeemed : RedeemOutcome → Bytes → ℤ → Bytes → Record → RedeemResult
redeemed outcome token ttl issued_ip r = record {
  outcome = outcome;
  token = token;
  token_ttl = ttl;
  redirect_uri = r.uri;
  issued_ip = issued_ip;
  difficulty = r.difficulty;
  algorithm = r.algorithm;
  memory_kib = r.memory_kib;
  iterations = r.iterations;
  issued_at = r.issued_at;
}

module _ (sv : Services) where
  -- The identity of the challenge and its binding, by the bytes that the store returned.
  unfoldable pub bound_record : RedeemRequest → Option Bytes → Attempt PowError Record
  bound_record req none = failed challenge_unknown
  bound_record req (some raw) = elim (decode raw) [
    | failed e ↦ failed challenge_unknown
    | done r ↦ (elim r.state [
      | issued ↦
          if not (sv.equal_fold r.host req.host)
          then failed host_mismatch
          else if not (bytes_eq r.ip req.ip) && req.no_js
          then failed client_address_mismatch
          else done r
      | _ ↦ failed challenge_unknown
    ])
  ]

  -- The checks of a submitted proof.
  unfoldable pub filled : RedeemRequest → Record → Option PowError
  filled req r = elim (flat req.acquire_argon) [
    | some refused ↦ some refused
    | none ↦
        if verify_argon2id sv.id_key (hex_encode r.challenge_digest) (proof_spec r) req.proof
        then none
        else some bad_solution
  ]

  unfoldable pub searched : RedeemRequest → Record → Option PowError
  searched req r =
      let sum = sv.sum256 (hex_encode r.challenge_digest ++ req.nonce) in
      if ltb_ℤ (pos (leading_zero_bits sum)) r.difficulty then some bad_solution else none

  unfoldable pub proved : RedeemRequest → Record → Option PowError
  unfolding filled searched
  proved req r = elim r.algorithm [ argon2id ↦ filled req r | _ ↦ searched req r ]

  unfoldable pub checked :
      {C : Type 0} → Manager C → ℕ → RedeemRequest → Option Bytes → Attempt PowError Record
  unfolding bound_record waited proved
  checked m now req found = elim (bound_record req found) [
    | failed e ↦ failed e
    | done r ↦ (elim (if req.no_js then waited m now req r else proved req r) [
      | some e ↦ failed e
      | none ↦ done r
    ])
  ]

  -- After the swap: the escalation counters go, and a client at the issued address gets a token.
  unfoldable pub finish :
      {C : Type 0}
      → Names
      → Counters C
      → Manager C
      → RedeemRequest
      → Record
      → Manager C × Attempt PowError RedeemResult
  finish names cs m req r =
      let after = record m { counters = forget_escalation names cs m.counters r.host r.ip } in
      if not (bytes_eq r.ip req.ip)
      then (after, done (redeemed redeem_network_handover [] (pos 0) r.ip r))
      else elim (sv.mint r.host req.ip req.user_agent req.challenge_id (proof_spec r)
          (ttls_for req r.uri).0) [
            | none ↦ (after, failed mint_failed)
            | some token ↦ (after, done (redeemed redeem_solved token (ttls_for req r.uri).0 [] r))
          ]

  abbrev pub canonical : Bytes → Bool
  canonical id = elim (sv.uuid_text id) [ none ↦ false | some text ↦ bytes_eq text id ]

  -- `Redeem` of a stored challenge.
  unfoldable pub redeem :
      {C : Type 0}
      → Names
      → Counters C
      → Manager C
      → ℕ
      → RedeemRequest
      → Manager C × Attempt PowError RedeemResult
  unfolding checked spend finish
  redeem names cs m now req =
      let (store, found) = get m.store now (challenge_key req.challenge_id) in
      let seen = record m { store = store } in
      if not (canonical req.challenge_id)
      then (m, failed challenge_unknown)
      else elim (checked m now req found) [
        | failed e ↦ (seen, failed e)
        | done r ↦ (elim found [
          | none ↦ (seen, failed challenge_unknown)
          | some raw ↦
              let (after, refused) = spend seen now req raw r in
              elim refused [ some e ↦ (after, failed e) | none ↦ finish names cs after req r ]
        ])
      ]
