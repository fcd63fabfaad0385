-- ===== src/Pow/Stateless/Down.antt =====
-- core/pow/stateless_challenge.go: the claims of a replica whose store is down.
use angie_guardian.Prelude.{
  ℕ, ◌+◌, ◌≡◌, refl, ap, ◌∙◌, Bool, true, false, none, inl, inr, arith, bytes_eq, ltb, Bool-cases,
}
use angie_guardian.Prelude.Int.{pos, pos_part, neg_part, ◌≤ℤ◌, ◌-ℤ◌, -ℤ_parts}
use angie_guardian.Pow.TokenCache.{get, claim}
use angie_guardian.Pow.TokenCache.Claims.{get-claim}
use angie_guardian.Pow.Manager.{Services, challenge_unknown}
use angie_guardian.Pow.Redeem.{RedeemRequest, ttls_for}
use angie_guardian.Pow.Stateless.Open.{Opened}
use angie_guardian.Pow.Stateless.Window.{longest, issued_ns, admitted_age, remaining_lem}
use angie_guardian.Pow.Stateless.Redeem.{
  Replica, local_claim, claim_refused, elapsed, remaining, spent_digest, admit, take_spend,
  claim_local,
}

module _ {C : Type 0} (sv : Services) where
  -- A claim that the local cache granted found the digest free, and left it in the cache.
  local_won :
      (a : Replica C) (now at : ℕ) (req : RedeemRequest) (o : Opened)
      → (take_spend sv a false now at req o).1 ≡ local_claim
      → let ttl = remaining now (ttls_for req o.payload.uri).1 o.payload in
        let digest = spent_digest sv o.challenge in
        (get a.spent digest now ≡ false)
        × ((take_spend sv a false now at req o).0.spent
            ≡ (claim a.spent digest (now + pos_part ttl) now).0)
  unfolding take_spend claim_local
  local_won a now at req o h =
      let ttl = remaining now (ttls_for req o.payload.uri).1 o.payload in
      let digest = spent_digest sv o.challenge in
      elim (Bool-cases (get a.spent digest now)) [
        | inl y ↦ absurd (cc (rw (y, take_spend) at h))
        | inr n ↦ (elim (Bool-cases (bytes_eq o.payload.ip req.ip)) [
          | inr other ↦ absurd (cc (rw (n, take_spend, claim_local, other) at h))
          | inl same ↦ (n, rw (n, take_spend, claim_local, same) refl)
        ])
      ]

  -- Take a replica that admitted a stateless challenge and, with the store down, claimed it in its
  -- local cache. If nothing else has changed that cache, and the time to live is under the longest of
  -- an int64 by a minute at least, then any redemption of the challenge that the replica admits at any
  -- time after it is refused, whether the store is reached again or not.
  pub local_once :
      (a b : Replica C) (now now' at at' : ℕ) (up : Bool) (req req' : RedeemRequest) (o o' : Opened)
      → admit sv a.manager now req o ≡ none
      → (take_spend sv a false now at req o).1 ≡ local_claim
      → b.spent ≡ (take_spend sv a false now at req o).0.spent
      → o'.payload ≡ o.payload
      → o'.challenge ≡ o.challenge
      → (ttls_for req' o'.payload.uri).1 ≡ (ttls_for req o.payload.uri).1
      → (ttls_for req o.payload.uri).1 ≤ℤ pos longest
      → admit sv b.manager now' req' o' ≡ none
      → (take_spend sv b up now' at' req' o').1 ≡ claim_refused challenge_unknown
  unfolding take_spend
  local_once a b now now' at at' up req req' o o' first won cache same text ttls le second =
      let ttl = (ttls_for req o.payload.uri).1 in
      let digest = spent_digest sv o.challenge in
      let (free, left) = local_won a now at req o won in
      let (n, positive, shape, parts) = remaining_lem sv a.manager now req o le first in
      let (exact, young, _) = admitted_age sv b.manager now' req' o' (rw ttls le) second in
      let age : elapsed now' o.payload ≡ pos now' -ℤ issued_ns o.payload = rw same at exact in
      let bound : elapsed now' o.payload ≤ℤ ttl = rw (ttls, same) at young in
      let early : ltb now' (now + n) ≡ true = ground (
        arith,
        parts,
        bound,
        ap pos_part age,
        ap neg_part age,
        -ℤ_parts (pos now') (issued_ns o.payload),
      ) in
      let held : get b.spent (spent_digest sv o'.challenge) now' ≡ true =
        ap (λ t. get b.spent (spent_digest sv t) now') text
        ∙ (ap (λ c. get c digest now') (cache ∙ left)
            ∙ (get-claim a.spent digest _ now now' free
                ∙ (ap (λ x. ltb now' (now + pos_part x)) shape ∙ early))) in
      rw (take_spend, held) refl
