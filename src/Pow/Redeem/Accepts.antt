-- ===== src/Pow/Redeem/Accepts.antt =====
-- core/pow/challenge.go: the course of a redemption whose checks pass.
use angie_guardian.Prelude.{
  ℕ, ◌≡◌, refl, ap, ◌∙◌, true, false, none, some, arith, [], Bytes, bytes_eq, bytes_eq_iff,
}
use angie_guardian.Memory.State.{Entry}
use angie_guardian.Memory.Ops.{get, matches, value_of}
use angie_guardian.Memory.View.{view, Bounded}
use angie_guardian.Memory.Reads.{get_refines, compare_and_swap_refines}
use angie_guardian.Memory.Trace.Bounds.{get-Bounded}
use angie_guardian.Pow.Words.{done}
use angie_guardian.Pow.Record.{Record, issued, spent, encode, decode, proof_spec}
use angie_guardian.Pow.Escalation.{Names, Counters}
use angie_guardian.Pow.Manager.{Services, Manager, challenge_key}
use angie_guardian.Pow.Redeem.{
  RedeemRequest, redeem_solved, redeemed, redeem, bound_record, proved, checked, spend, finish,
  canonical, ttls_for,
}
use angie_guardian.Pow.Redeem.Course.{seen, found}

module _ {C : Type 0} (sv : Services) (names : Names) (cs : Counters C) (m : Manager C) (now : ℕ)
    (req : RedeemRequest) (r : Record) (e : Entry) (bounded : Bounded m.store)
    (held : view m.store now (challenge_key req.challenge_id) ≡ some e)
    (dec : decode e.value ≡ done r) (is_issued : r.state ≡ issued) where
  found_lem : found sv names cs m now req ≡ some e.value
  found_lem =
      (get_refines m.store now (challenge_key req.challenge_id) bounded now [] (omega arith)).0
      ∙ ap value_of held

  checked_lem :
      req.no_js ≡ false
      → sv.equal_fold r.host req.host ≡ true
      → bytes_eq r.ip req.ip ≡ true
      → proved sv req r ≡ none
      → checked sv m now req (some e.value) ≡ done r
  unfolding checked bound_record
  checked_lem js host ip work =
      let bound : bound_record sv req (some e.value) ≡ done r =
        rw (dec, bound_record, is_issued, host, ip)
          (ap (λ s. done (record r { state = s })) is_issued) in
      rw (bound, checked, js, work) refl

  spend_lem :
      (marker : Bytes)
      → encode (record r { state = spent }) ≡ done marker
      → (spend (seen sv names cs m now req) now req e.value r).1 ≡ none
  unfolding spend
  spend_lem marker q =
      let key = challenge_key req.challenge_id in
      let read = (get_refines m.store now key bounded now key (omega arith)).1 ∙ held in
      let swap =
        compare_and_swap_refines (get m.store now key).0 now key
          (get-Bounded m.store now key bounded) (some e.value) marker (ttls_for req r.uri).1 now []
          (omega arith) in
      let won : matches (some e.value) (view (get m.store now key).0 now key) ≡ true =
        rw read ((bytes_eq_iff e.value e.value).1 refl) in
      rw (q, spend, swap.0 ∙ won) refl

  -- With the issued record under its key, for the same host and address and a proof that passes, the
  -- redemption gives the token that is minted.
  pub redeem_accepts :
      (marker token : Bytes)
      → canonical sv req.challenge_id ≡ true
      → req.no_js ≡ false
      → sv.equal_fold r.host req.host ≡ true
      → r.ip ≡ req.ip
      → proved sv req r ≡ none
      → encode (record r { state = spent }) ≡ done marker
      → sv.mint r.host req.ip req.user_agent req.challenge_id (proof_spec r) (ttls_for req r.uri).0
        ≡ some token
      → (redeem sv names cs m now req).1
        ≡ done (redeemed redeem_solved token (ttls_for req r.uri).0 [] r)
  unfolding redeem finish
  redeem_accepts marker token id js host ip work q mints =
      let same = (bytes_eq_iff r.ip req.ip).1 ip in
      rw
        (
          id,
          redeem,
          found_lem,
          checked_lem js host same work,
          found_lem,
          spend_lem marker q,
          finish,
          same,
          mints,
        )
        refl
