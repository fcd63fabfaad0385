-- ===== src/Tests/Stateless.antt =====
-- Runs of core/pow/stateless_challenge.go: an issue with no record, its redemption, and a second one.
use angie_guardian.Prelude.{
  ◌≡◌, refl, ap, arith, true, false, none, some, List, [], ◌∷◌, ◌+◌, ◌-◌, ◌=ℕ◌, Bytes, bytes_eq,
  map, All,
}
use angie_guardian.Prelude.Int.{pos, ◌≤ℤ◌, ◌-ℤ◌, ◌*ℤ◌}
use angie_guardian.Prelude.Assoc.{lookup}
use angie_guardian.Memory.State.{expired, is_central, get_shard, shard_map, shard_for, fnv1a32}
use angie_guardian.Memory.Ops.{compare_and_swap}
use angie_guardian.Memory.View.{view, live, entry_at}
use angie_guardian.Memory.Trace.{run}
use angie_guardian.Pow.Words.{done, hex_encode}
use angie_guardian.Pow.Proof.{validate}
use angie_guardian.Pow.TokenCache.{new_token_cache, get, claim}
use angie_guardian.Pow.Manager.{challenge_unknown}
use angie_guardian.Pow.Issue.{Challenge, challenge_from_spec}
use angie_guardian.Pow.Redeem.{RedeemRequest, redeem_solved, leading_zero_bits, leading_zeros8}
use angie_guardian.Pow.Stateless.{
  StatelessPayload, Codec, SigningKey, payload_of, encode_stateless, issue_stateless,
}
use angie_guardian.Pow.Stateless.Open.{Refreshes, Opened}
use angie_guardian.Pow.Stateless.Redeem.{
  Replica, claim_refused, shared_claim, take_spend, claim_shared, claim_local, local_claim, admit,
  is_fresh, elapsed, ahead, saturated, proved_stateless, redeem_stateless, solved, spent_key,
  spent_digest,
}
use angie_guardian.Pow.Stateless.Opens.{IsBase64}
use angie_guardian.Pow.Stateless.Redeems.{stateless_redeems}
use angie_guardian.Pow.Stateless.Issued.{carried}
use angie_guardian.Pow.Stateless.Once.{stateless_once}
use angie_guardian.Pow.Stateless.Down.{local_once}
use angie_guardian.Tests.Challenges.{services, names, counters, manager, spec, request, work}
use angie_guardian.Tests.Data.{cells, store, store-Bounded}

abbrev payload : StatelessPayload
payload = payload_of services (104 ∷ []) (49 ∷ []) (47 ∷ []) spec false 10 (1 ∷ [])

-- One payload as the text 1, and bytes as bytes above the dot.
abbrev codec : Codec
codec = record {
  marshal = λ p. some (1 ∷ []);
  unmarshal = λ text. some payload;
  b64_encode = map (λ b. b + 47);
  b64_decode = λ text. some (map (λ c. c - 47) text);
}

lowered : (bs : Bytes) → map (λ c. c - 47) (map (λ b. b + 47) bs) ≡ bs
lowered [] = refl
lowered (b ∷ bs) = ground (arith, lowered bs)

above_dot : (bs : Bytes) → All (λ c. (c =ℕ 46) ≡ false) (map (λ b. b + 47) bs)
above_dot [] = tt
above_dot (b ∷ bs) = (ground arith, above_dot bs)

base : IsBase64 codec
base = record { decodes = λ bs. ap some (lowered bs); dotless = above_dot }

abbrev signing : SigningKey
signing = record { secret = 9 ∷ []; retired_at = none }

abbrev refreshes : Refreshes
refreshes = record { at_first = some (signing ∷ []); after_miss = none }

abbrev replica : Replica (List Bytes)
replica = record { manager = manager; spent = new_token_cache }

abbrev made : Bytes × Bytes
made = encode_stateless services codec (9 ∷ []) (1 ∷ []) 1

abbrev shown : Challenge
shown = challenge_from_spec made.0 made.1 spec

abbrev answer : RedeemRequest
answer = record request { challenge_id = shown.id }

issues :
    issue_stateless services codec
      (some (signing, []))
      10
      (1 ∷ [])
      []
      (104 ∷ [])
      (49 ∷ [])
      (47 ∷ [])
      spec
      false
    ≡ done shown
unfolding issue_stateless validate payload_of
issues = refl

young : elapsed 50 payload ≤ℤ pos 100
unfolding elapsed saturated payload_of ◌-ℤ◌ ◌*ℤ◌
young = omega arith

near : ahead 50 payload ≤ℤ pos 30000000000
unfolding ahead saturated payload_of ◌-ℤ◌ ◌*ℤ◌
near = omega arith

same_host : bytes_eq payload.host (104 ∷ []) ≡ true
unfolding payload_of
same_host = refl

absent : view store 50 (spent_key services shown.text) ≡ none
unfolding entry_at live expired spent_key spent_digest hex_encode is_central shard_map shard_for
    fnv1a32 lookup
absent = refl

unclaimed : get new_token_cache (spent_digest services shown.text) 50 ≡ false
unfolding get new_token_cache lookup
unclaimed = refl

stateless_redeems_example :
    (redeem_stateless services codec names counters replica refreshes true 50 50 answer).1
    ≡ done (solved redeem_solved (116 ∷ []) (pos 60) [] payload (carried spec), false)
stateless_redeems_example =
    stateless_redeems services codec names counters signing [] 10 (1 ∷ []) [] (104 ∷ []) (49 ∷ [])
      (47 ∷ []) spec false shown replica refreshes [] 50 50 answer (116 ∷ []) base refl issues
      (λ text h. refl) refl refl refl refl refl same_host young near work store-Bounded absent
      unclaimed refl

abbrev opened : Opened
opened = record { payload = payload; spec = carried spec; key = signing; challenge = made.1 }

admits : admit services manager 50 answer opened ≡ none
unfolding admit is_fresh elapsed ahead saturated proved_stateless leading_zero_bits leading_zeros8
    payload_of ◌-ℤ◌ ◌*ℤ◌
admits = refl

claims : (take_spend services replica true 50 50 answer opened).1 ≡ shared_claim
unfolding take_spend claim_shared get new_token_cache lookup compare_and_swap is_central spent_key
    spent_digest get_shard shard_map shard_for fnv1a32 hex_encode
claims = refl

-- A second replica over the store that the first claim left.
abbrev second : Replica (List Bytes)
second = record {
  manager = record manager {
    store = run cells (take_spend services replica true 50 50 answer opened).0.manager.store [];
  };
  spent = new_token_cache;
}

admits_again : admit services second.manager 60 answer opened ≡ none
unfolding admit is_fresh elapsed ahead saturated proved_stateless leading_zero_bits leading_zeros8
    payload_of ◌-ℤ◌ ◌*ℤ◌
admits_again = refl

stateless_once_example :
    (take_spend services second true 60 60 answer opened).1 ≡ claim_refused challenge_unknown
stateless_once_example =
    stateless_once services replica second 50 60 50 60 answer answer opened opened cells []
      store-Bounded admits claims tt refl refl refl refl (omega arith) (omega arith) (omega arith)
      admits_again

claims_local : (take_spend services replica false 50 50 answer opened).1 ≡ local_claim
unfolding take_spend claim_local claim get new_token_cache lookup payload_of
claims_local = refl

-- The replica after it, with another store.
abbrev returned : Replica (List Bytes)
returned = record {
  manager = manager;
  spent = (take_spend services replica false 50 50 answer opened).0.spent;
}

admits_still : admit services manager 60 answer opened ≡ none
unfolding admit is_fresh elapsed ahead saturated proved_stateless leading_zero_bits leading_zeros8
    payload_of ◌-ℤ◌ ◌*ℤ◌
admits_still = refl

local_once_example :
    (take_spend services returned true 60 60 answer opened).1 ≡ claim_refused challenge_unknown
local_once_example =
    local_once services replica returned 50 60 50 60 true answer answer opened opened admits
      claims_local refl refl refl refl (omega arith) admits_still
