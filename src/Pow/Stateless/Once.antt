-- ===== src/Pow/Stateless/Once.antt =====
-- core/pow/stateless_challenge.go: a stateless challenge is redeemed at most once.
use angie_guardian.Prelude.{
  ℕ, ◌+◌, ◌≤◌, ◌≡◌, refl, ap, ◌∙◌, true, false, none, inl, inr, List, [], ◌∷◌, arith, Bool-cases,
  All,
}
use angie_guardian.Prelude.Int.{pos, pos_part, neg_part, ◌≤ℤ◌, ◌-ℤ◌, -ℤ_parts}
use angie_guardian.Store.{Decimal}
use angie_guardian.Memory.State.{expiry, passed}
use angie_guardian.Memory.Ops.{compare_and_swap, matches}
use angie_guardian.Memory.View.{view, Bounded}
use angie_guardian.Memory.Reads.{compare_and_swap_refines}
use angie_guardian.Memory.Trace.{Op, run}
use angie_guardian.Memory.Trace.Frame.{KeepsOff}
use angie_guardian.Pow.TokenCache.{get}
use angie_guardian.Pow.Manager.{Services, Manager, challenge_unknown}
use angie_guardian.Pow.Redeem.{RedeemRequest, ttls_for}
use angie_guardian.Pow.Redeem.Issued.{raw_held}
use angie_guardian.Pow.Stateless.{stateless_skew}
use angie_guardian.Pow.Stateless.Window.{
  longest, issued_ns, admitted_age, remaining_lem, expiry_pos,
}
use angie_guardian.Pow.Stateless.Redeem.{
  Replica, shared_claim, claim_refused, elapsed, remaining, spent_key, spent_digest, admit,
  take_spend, claim_shared,
}
use angie_guardian.Pow.Stateless.Open.{Opened}

module _ {C : Type 0} (sv : Services) where
  -- A claim that won wrote the marker.
  take_won :
      (a : Replica C) (now at : ℕ) (req : RedeemRequest) (o : Opened)
      → (take_spend sv a true now at req o).1 ≡ shared_claim
      → let ttl = remaining now (ttls_for req o.payload.uri).1 o.payload in
        let swap =
          compare_and_swap a.manager.store at (spent_key sv o.challenge) none (1 ∷ []) ttl in
        (swap.1 ≡ true) × ((take_spend sv a true now at req o).0.manager.store ≡ swap.0)
  unfolding take_spend claim_shared
  take_won a now at req o h =
      let ttl = remaining now (ttls_for req o.payload.uri).1 o.payload in
      let swap = compare_and_swap a.manager.store at (spent_key sv o.challenge) none (1 ∷ []) ttl in
      elim (Bool-cases (get a.spent (spent_digest sv o.challenge) now)) [
        | inl y ↦ absurd (cc (rw (y, take_spend) at h))
        | inr n ↦ (elim (Bool-cases swap.1) [
          | inl y ↦ (y, rw (n, take_spend, claim_shared, y) refl)
          | inr l ↦ absurd (cc (rw (n, take_spend, claim_shared, l) at h))
        ])
      ]

  -- A claim that finds the marker is refused.
  take_lost :
      (a : Replica C) (now at : ℕ) (req : RedeemRequest) (o : Opened)
      → Bounded a.manager.store
      → matches none (view a.manager.store at (spent_key sv o.challenge)) ≡ false
      → (take_spend sv a true now at req o).1 ≡ claim_refused challenge_unknown
  unfolding take_spend claim_shared
  take_lost a now at req o b held =
      elim (Bool-cases (get a.spent (spent_digest sv o.challenge) now)) [
        | inl y ↦ rw (y, take_spend) refl
        | inr n ↦
            let ttl = remaining now (ttls_for req o.payload.uri).1 o.payload in
            let (found, _) =
              compare_and_swap_refines a.manager.store at (spent_key sv o.challenge) b none (1 ∷ [])
                ttl at [] (omega arith) in
            rw (n, take_spend, claim_shared, found ∙ held) refl
      ]

  -- A marker is there while a clock that is behind by the skew at most admits the challenge.
  marker_lives :
      (m m' : Manager C) (now now' at at' : ℕ) (req req' : RedeemRequest) (o o' : Opened)
      → o'.payload ≡ o.payload
      → (ttls_for req' o'.payload.uri).1 ≡ (ttls_for req o.payload.uri).1
      → (ttls_for req o.payload.uri).1 ≤ℤ pos longest
      → admit sv m now req o ≡ none
      → admit sv m' now' req' o' ≡ none
      → at' + now ≤ at + now' + stateless_skew
      → passed (expiry at (remaining now (ttls_for req o.payload.uri).1 o.payload)) at' ≡ false
  unfolding passed
  marker_lives m m' now now' at at' req req' o o' same ttls le first second behind =
      let ttl = (ttls_for req o.payload.uri).1 in
      let (n, left, shape, parts) = remaining_lem sv m now req o le first in
      let (exact, young, _) = admitted_age sv m' now' req' o' (rw ttls le) second in
      let age : elapsed now' o.payload ≡ pos now' -ℤ issued_ns o.payload = rw same at exact in
      let bound : elapsed now' o.payload ≤ℤ ttl = rw (ttls, same) at young in
      rw (shape, expiry_pos at n left)
        (ground (
          arith,
          behind,
          parts,
          bound,
          ap pos_part age,
          ap neg_part age,
          -ℤ_parts (pos now') (issued_ns o.payload),
        ))

  -- Take a stateless challenge that one replica admitted and claimed through a store whose mask is
  -- in range, any operations of others on it that keep off the key of its spent marker, and a
  -- replica that admits the same challenge by the same time to live, at any later time, with a
  -- clock that is behind the first one's by thirty seconds at most against the store's. If that
  -- time to live is under the longest of an int64 by a minute at least, then the second claim is
  -- refused: the marker outlives every window in which the challenge is accepted.
  pub stateless_once :
      (a b : Replica C) (now now' at at' : ℕ) (req req' : RedeemRequest) (o o' : Opened)
      (d : Decimal) (ops : List (ℕ × Op))
      → Bounded a.manager.store
      → admit sv a.manager now req o ≡ none
      → (take_spend sv a true now at req o).1 ≡ shared_claim
      → All (KeepsOff (spent_key sv o.challenge) at') ops
      → b.manager.store ≡ run d (take_spend sv a true now at req o).0.manager.store ops
      → o'.payload ≡ o.payload
      → o'.challenge ≡ o.challenge
      → (ttls_for req' o'.payload.uri).1 ≡ (ttls_for req o.payload.uri).1
      → (ttls_for req o.payload.uri).1 ≤ℤ pos longest
      → at ≤ at'
      → at' + now ≤ at + now' + stateless_skew
      → admit sv b.manager now' req' o' ≡ none
      → (take_spend sv b true now' at' req' o').1 ≡ claim_refused challenge_unknown
  stateless_once a b now now' at at' req req' o o' d ops bounded first won off after same text ttls
        le later behind second =
      let life = remaining now (ttls_for req o.payload.uri).1 o.payload in
      let (swapped, store) = take_won a now at req o won in
      let kept =
        marker_lives a.manager b.manager now now' at at' req req' o o' same ttls le first second
          behind in
      let (bounds, held) =
        raw_held a.manager.store at at' (spent_key sv o.challenge) (1 ∷ []) life d ops bounded
          swapped later kept off in
      let left =
        run d (compare_and_swap a.manager.store at (spent_key sv o.challenge) none (1 ∷ []) life).0
          ops in
      let there = after ∙ ap (λ s. run d s ops) store in
      take_lost b now' at' req' o' (rw there bounds) (
        ap (λ s. matches none (view s at' (spent_key sv o'.challenge))) there
        ∙ (ap (λ t. matches none (view left at' (spent_key sv t))) text ∙ ap (matches none) held))
