-- ===== src/Pow/Stateless/Redeem.antt =====
-- core/pow/stateless_challenge.go: the redemption of a stateless challenge. It is the opening of its
-- id, the checks, and the claim of its spent marker. The store is reached or not; the manager and the
-- store have a clock each.
use angie_guardian.Prelude.{
  ℕ, ◌+◌, Bool, true, false, not, ◌||◌, ◌&&◌, Option, none, some, [], ◌∷◌, ◌++◌, Bytes, bytes_eq,
  ◌=ℕ◌, if◌then◌else◌, take,
}
use angie_guardian.Prelude.Int.{ℤ, pos, negsuc, ◌+ℤ◌, ◌-ℤ◌, ◌*ℤ◌, ltb_ℤ, min_ℤ, max_ℤ, pos_part}
use angie_guardian.Prelude.Int64.{wrap64, max_int64, is_positive}
use angie_guardian.Store.{minute}
use angie_guardian.Memory.Ops.{compare_and_swap}
use angie_guardian.Pow.Words.{Attempt, done, failed, hex_encode}
use angie_guardian.Pow.Proof.{ProofSpec, effective, argon2id, verify_argon2id}
use angie_guardian.Pow.TokenCache.{TokenCache, get, claim}
use angie_guardian.Pow.Escalation.{Names, Counters, forget_escalation}
use angie_guardian.Pow.Manager.{
  Services, Manager, PowError, challenge_unknown, bad_solution, host_mismatch,
  client_address_mismatch, too_fast, no_js_disabled, mint_failed, store_failed, millisecond,
}
use angie_guardian.Pow.Redeem.{
  RedeemRequest, RedeemOutcome, RedeemResult, redeem_solved, redeem_network_handover,
  leading_zero_bits, ttls_for, asked, flat,
}
use angie_guardian.Pow.Stateless.{
  StatelessPayload, Codec, SigningKey, stateless_skew, stateless_retirement_grace,
}
use angie_guardian.Pow.Stateless.Open.{Refreshes, Opened, open_id}

-- The manager, with the local replay cache.
pub record Replica (C : Type 0) : Type 0 where
  pub manager : Manager C
  pub spent : TokenCache

-- The difference of two times, which stops at the ends of int64.
unfoldable pub saturated : ℤ → ℤ
saturated x = max_ℤ (negsuc max_int64) (min_ℤ (pos max_int64) x)

-- `now.Sub(issued)` and `issued.Sub(now)`
unfoldable pub elapsed : ℕ → StatelessPayload → ℤ
unfolding saturated
elapsed now p = saturated (pos now -ℤ p.ts *ℤ pos millisecond)

unfoldable pub ahead : ℕ → StatelessPayload → ℤ
unfolding saturated
ahead now p = saturated (p.ts *ℤ pos millisecond -ℤ pos now)

abbrev pub minted_late : SigningKey → StatelessPayload → Bool
minted_late k p = elim k.retired_at [
  | none ↦ false
  | some t ↦ ltb_ℤ (pos (t + stateless_retirement_grace)) (p.ts *ℤ pos millisecond)
]

unfoldable pub is_fresh : ℕ → RedeemRequest → Opened → Bool
unfolding elapsed ahead
is_fresh now req o =
    not (
      ltb_ℤ (ttls_for req o.payload.uri).1 (elapsed now o.payload)
      || ltb_ℤ (pos stateless_skew) (ahead now o.payload))
    && not (minted_late o.key o.payload)

-- How long the spent marker is kept.
unfoldable pub remaining : ℕ → ℤ → StatelessPayload → ℤ
unfolding elapsed wrap64
remaining now ttl p =
    let left = wrap64 (wrap64 (ttl -ℤ elapsed now p) +ℤ pos stateless_skew) in
    if is_positive left then left else pos minute

-- "spent1:"
abbrev pub spent_prefix : Bytes
spent_prefix = b's' ∷ b'p' ∷ b'e' ∷ b'n' ∷ b't' ∷ b'1' ∷ b':' ∷ []

abbrev pub solved : RedeemOutcome → Bytes → ℤ → Bytes → StatelessPayload → ProofSpec → RedeemResult
solved outcome token ttl issued_ip p spec = record {
  outcome = outcome;
  token = token;
  token_ttl = ttl;
  redirect_uri = p.uri;
  issued_ip = issued_ip;
  difficulty = p.bits;
  algorithm = effective spec.algorithm;
  memory_kib = spec.memory_kib;
  iterations = spec.iterations;
  issued_at = p.ts;
}

-- How the claim of a marker ended: it is the first, the store was down and the local claim is the
-- first, or it is refused.
pub data Claimed : Type 0 where
  shared_claim local_claim : Claimed
  claim_refused : PowError → Claimed

module _ (sv : Services) where
  unfoldable pub spent_digest : Bytes → Bytes
  spent_digest challenge = sv.sum256 challenge

  unfoldable pub spent_key : Bytes → Bytes
  unfolding spent_digest
  spent_key challenge = spent_prefix ++ hex_encode (take 16 (spent_digest challenge))

  unfoldable pub waited_stateless :
      {C : Type 0} → Manager C → ℕ → RedeemRequest → Opened → Option PowError
  unfolding elapsed
  waited_stateless m now req o =
      if not (o.payload.no_js =ℕ 1)
      then some no_js_disabled
      else elim (asked req.acquire_no_js o.payload.uri) [
        | some refused ↦ some refused
        | none ↦ if ltb_ℤ (elapsed now o.payload) m.no_js_min_delay then some too_fast else none
      ]

  unfoldable pub proved_stateless : RedeemRequest → Opened → Option PowError
  proved_stateless req o = elim (effective o.spec.algorithm) [
    | argon2id ↦ (elim (flat req.acquire_argon) [
      | some refused ↦ some refused
      | none ↦
          if verify_argon2id sv.id_key o.challenge o.spec req.proof then none else some bad_solution
    ])
    | _ ↦
        let sum = sv.sum256 (o.challenge ++ req.nonce) in
        if ltb_ℤ (pos (leading_zero_bits sum)) o.payload.bits then some bad_solution else none
  ]

  -- The checks of an opened challenge, before its claim.
  unfoldable pub admit : {C : Type 0} → Manager C → ℕ → RedeemRequest → Opened → Option PowError
  unfolding is_fresh waited_stateless proved_stateless
  admit m now req o =
      if not (is_fresh now req o)
      then some challenge_unknown
      else if not (sv.equal_fold o.payload.host req.host)
      then some host_mismatch
      else if not (bytes_eq o.payload.ip req.ip) && req.no_js
      then some client_address_mismatch
      else if req.no_js
      then waited_stateless m now req o
      else proved_stateless req o

  -- The local claim when the store is down: none for a client whose address changed.
  unfoldable pub claim_local :
      {C : Type 0} → Replica C → ℕ → RedeemRequest → Opened → ℤ → Replica C × Claimed
  unfolding claim spent_digest
  claim_local a now req o ttl =
      let (spent, first) = claim a.spent (spent_digest o.challenge) (now + pos_part ttl) now in
      if not (bytes_eq o.payload.ip req.ip)
      then (a, claim_refused store_failed)
      else if first
      then (record a { spent = spent }, local_claim)
      else (record a { spent = spent }, claim_refused challenge_unknown)

  -- The create-only write of the marker, at the clock `at` of the store, and the local claim after it.
  unfoldable pub claim_shared : {C : Type 0} → Replica C → ℕ → ℕ → Opened → ℤ → Replica C × Claimed
  unfolding claim spent_digest spent_key
  claim_shared a now at o ttl =
      let (store, swapped) =
        compare_and_swap a.manager.store at (spent_key o.challenge) none (1 ∷ []) ttl in
      let m = record a.manager { store = store } in
      if swapped
      then (
        record {
          manager = m;
          spent = (claim a.spent (spent_digest o.challenge) (now + pos_part ttl) now).0;
        },
        shared_claim,
      )
      else (record a { manager = m }, claim_refused challenge_unknown)

  -- The single spend; the flag says whether the store is reached.
  unfoldable pub take_spend :
      {C : Type 0} → Replica C → Bool → ℕ → ℕ → RedeemRequest → Opened → Replica C × Claimed
  unfolding get remaining claim_local claim_shared
  take_spend a up now at req o =
      let ttl = remaining now (ttls_for req o.payload.uri).1 o.payload in
      if get a.spent (spent_digest o.challenge) now
      then (a, claim_refused challenge_unknown)
      else if up
      then claim_shared a now at o ttl
      else claim_local a now req o ttl

  abbrev pub forgetful : {C : Type 0} → Names → Counters C → Replica C → Opened → Replica C
  forgetful names cs a o = record a {
    manager = record a.manager {
      counters = forget_escalation names cs a.manager.counters o.payload.host o.payload.ip;
    };
  }

  -- `finishStateless`; the flag of the answer is its soft error.
  unfoldable pub finish_stateless :
      {C : Type 0}
      → Names
      → Counters C
      → Replica C
      → RedeemRequest
      → Opened
      → Bool
      → Replica C × Attempt PowError (RedeemResult × Bool)
  finish_stateless names cs a req o soft =
      let ttl = (ttls_for req o.payload.uri).0 in
      let after = forgetful names cs a o in
      elim (sv.mint o.payload.host req.ip req.user_agent [] o.spec ttl) [
        | none ↦ (after, failed mint_failed)
        | some token ↦ (after, done (solved redeem_solved token ttl [] o.payload o.spec, soft))
      ]

  -- What follows the claim.
  unfoldable pub settle_claim :
      {C : Type 0}
      → Names
      → Counters C
      → RedeemRequest
      → Opened
      → Replica C × Claimed
      → Replica C × Attempt PowError (RedeemResult × Bool)
  unfolding finish_stateless
  settle_claim names cs req o (a, claim_refused e) = (a, failed e)
  settle_claim names cs req o (a, local_claim) = finish_stateless names cs a req o true
  settle_claim names cs req o (a, shared_claim) =
      if not (bytes_eq o.payload.ip req.ip)
      then (
        forgetful names cs a o,
        done (solved redeem_network_handover [] (pos 0) o.payload.ip o.payload o.spec, false),
      )
      else finish_stateless names cs a req o false

  -- `redeemStateless`
  unfoldable pub redeem_stateless :
      {C : Type 0}
      → Codec
      → Names
      → Counters C
      → Replica C
      → Refreshes
      → Bool
      → ℕ
      → ℕ
      → RedeemRequest
      → Replica C × Attempt PowError (RedeemResult × Bool)
  unfolding open_id admit take_spend settle_claim
  redeem_stateless cd names cs a keys up now at req =
      elim (open_id sv cd keys now req.challenge_id) [
        | failed e ↦ (a, failed e)
        | done o ↦ (elim (admit a.manager now req o) [
          | some e ↦ (a, failed e)
          | none ↦ settle_claim names cs req o (take_spend a up now at req o)
        ])
      ]
