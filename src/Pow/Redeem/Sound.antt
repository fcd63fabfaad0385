-- ===== src/Pow/Redeem/Sound.antt =====
-- core/pow/challenge.go: what a redemption that succeeds rests on, and what one that fails leaves.
use mathlib.Core.Path.{subst}
use angie_guardian.Prelude.{
  ℕ, ◌≤◌, ◌≡◌, ◌≢◌, refl, sym, ap, ◌∙◌, Bool, true, false, none, some, inl, inr, [], arith, Bytes,
  bytes_eq, bytes_eq_iff, Bool-cases, Option-cases, if◌then◌else◌,
}
use angie_guardian.Prelude.Int.{pos}
use angie_guardian.Memory.Ops.{value_of}
use angie_guardian.Memory.View.{view, Bounded}
use angie_guardian.Memory.Reads.{get_refines}
use angie_guardian.Pow.Words.{done, failed, Attempt-cases}
use angie_guardian.Pow.Record.{Record, proof_spec}
use angie_guardian.Pow.Escalation.{Names, Counters}
use angie_guardian.Pow.Manager.{Services, Manager, PowError, challenge_key, mint_failed}
use angie_guardian.Pow.Redeem.{
  RedeemRequest, RedeemResult, redeem_solved, redeem_network_handover, redeem, bound_record, waited,
  proved, checked, finish, redeemed, ttls_for,
}
use angie_guardian.Pow.Redeem.Course.{unread, refused, loses, reaches, redeem-Course, found, seen}
use angie_guardian.Pow.Redeem.Once.{spend_keeps}
use angie_guardian.Memory.Trace.Bounds.{get-Bounded}
use angie_guardian.Pow.Redeem.Checks.{Worked, waited_lem, proved_lem, Bound, bound_lem}

module _ {C : Type 0} (sv : Services) (m : Manager C) (now : ℕ) (req : RedeemRequest) (raw : Bytes)
    (r : Record) where
  Worked-by :
      (js : Bool)
      → req.no_js ≡ js
      → (if js then waited m now req r else proved sv req r) ≡ none
      → Worked sv m now req r
  Worked-by true q h = waited_lem sv m now req r q h
  Worked-by false q h = proved_lem sv m now req r q h

  -- The two checks of one run.
  checked_done :
      checked sv m now req (some raw) ≡ done r → Bound sv req raw r × Worked sv m now req r
  unfolding checked
  checked_done h = elim (Attempt-cases (bound_record sv req (some raw))) [
    | inl (e, n) ↦ absurd (cc (rw (n, checked) at h))
    | inr (q, b) ↦
        (elim (Option-cases (if req.no_js then waited m now req q else proved sv req q)) [
          | inr (e, n) ↦ absurd (cc (rw (b, n, checked) at h))
          | inl y ↦
              let same : q ≡ r = cc (rw (b, y, checked) at h) in
              (
                bound_lem sv req raw r (rw same at b),
                Worked-by req.no_js refl (
                    sym (ap (λ x. if req.no_js then waited m now req x else proved sv req x) same)
                    ∙ y),
              )
        ])
  ]

-- How a redemption that succeeded ended.
pub data Ended (sv : Services) (req : RedeemRequest) (r : Record) (res : RedeemResult)
    : Type 0 where
  same_client :
      res.outcome ≡ redeem_solved
      → r.ip ≡ req.ip
      → sv.mint r.host req.ip req.user_agent req.challenge_id (proof_spec r) (ttls_for req r.uri).0
        ≡ some res.token
      → Ended sv req r res
  moved_client :
      res.outcome ≡ redeem_network_handover → r.ip ≢ req.ip → res.token ≡ [] → Ended sv req r res

module _ {C : Type 0} (sv : Services) (names : Names) (cs : Counters C) where
  finish_done :
      (m : Manager C) (req : RedeemRequest) (r : Record) (res : RedeemResult)
      → (finish sv names cs m req r).1 ≡ done res
      → Ended sv req r res
  unfolding finish
  finish_done m req r res h = elim (Bool-cases (bytes_eq r.ip req.ip)) [
    | inr n ↦
        let made = redeemed redeem_network_handover [] (pos 0) r.ip r in
        let same : made ≡ res = cc (rw (n, finish) at h) in
        let apart : r.ip ≢ req.ip = λ e. cc ((bytes_eq_iff r.ip req.ip).1 e) in
        let shown : Ended sv req r made = moved_client refl apart refl in
        subst (Ended sv req r) same shown
    | inl y ↦
        (elim (Option-cases (
          sv.mint r.host req.ip req.user_agent req.challenge_id (proof_spec r)
            (ttls_for req r.uri).0)) [
              | inl t ↦ absurd (cc (rw (y, t, finish) at h))
              | inr (token, t) ↦
                  let made = redeemed redeem_solved token (ttls_for req r.uri).0 [] r in
                  let same : made ≡ res = cc (rw (y, t, finish) at h) in
                  let shown : Ended sv req r made =
                    same_client refl ((bytes_eq_iff r.ip req.ip).0 y) t in
                  subst (Ended sv req r) same shown
            ])
  ]

  finish_store :
      (m : Manager C) (req : RedeemRequest) (r : Record)
      → (finish sv names cs m req r).0.store ≡ m.store
  unfolding finish
  finish_store m req r = ground arith

-- What a redemption that succeeded rests on: the bytes under its challenge's key, and their record.
pub data Earned {C : Type 0} (sv : Services) (m : Manager C) (now : ℕ) (req : RedeemRequest)
    (res : RedeemResult) : Type 0 where
  earned :
      (raw : Bytes) (r : Record)
      → value_of (view m.store now (challenge_key req.challenge_id)) ≡ some raw
      → Bound sv req raw r
      → Worked sv m now req r
      → Ended sv req r res
      → Earned sv m now req res

module _ {C : Type 0} (sv : Services) (names : Names) (cs : Counters C) (m : Manager C) (now : ℕ)
    (req : RedeemRequest) (bounded : Bounded m.store) where
  read_lem :
      found sv names cs m now req ≡ value_of (view m.store now (challenge_key req.challenge_id))
  read_lem =
      (get_refines m.store now (challenge_key req.challenge_id) bounded now [] (omega arith)).0

  -- A redemption that succeeds found, under the challenge's key, bytes of a record that is issued,
  -- for the request's host; the request did the work of that record; and either the client is at the
  -- address of the record and the token is minted for it, or the address changed and there is no
  -- token.
  pub redeem-Earned :
      (res : RedeemResult) → (redeem sv names cs m now req).1 ≡ done res → Earned sv m now req res
  redeem-Earned res h = elim (redeem-Course sv names cs m now req) [
    | unread e ↦ absurd (cc (rw e at h))
    | refused why e ↦ absurd (cc (rw e at h))
    | loses raw r why w e ↦ absurd (cc (rw e at h))
    | reaches raw r g c w e ↦
        let (bound, work) = checked_done sv m now req raw r (rw g at c) in
        earned raw r (sym read_lem ∙ g) bound work (finish_done sv names cs _ req r res (rw e at h))
  ]

  ends_failed :
      (after : Manager C) (r : Record) (e : PowError)
      → (finish sv names cs after req r).1 ≡ failed e
      → e ≡ mint_failed
  unfolding finish
  ends_failed after r e h = elim (Bool-cases (bytes_eq r.ip req.ip)) [
    | inr n ↦ absurd (cc (rw (n, finish) at h))
    | inl y ↦
        (elim (Option-cases (
          sv.mint r.host req.ip req.user_agent req.challenge_id (proof_spec r)
            (ttls_for req r.uri).0)) [
              | inl t ↦ cc (rw (y, t, finish) at h)
              | inr (token, t) ↦ absurd (cc (rw (y, t, finish) at h))
            ])
  ]

  -- A redemption that fails with any other error than the one of minting its token spends nothing: no
  -- reader of any key sees a change, and no counter is forgotten.
  pub redeem_keeps :
      (e : PowError) (later : ℕ) (j : Bytes)
      → (redeem sv names cs m now req).1 ≡ failed e
      → e ≢ mint_failed
      → now ≤ later
      → (view (redeem sv names cs m now req).0.store later j ≡ view m.store later j)
        × ((redeem sv names cs m now req).0.counters ≡ m.counters)
  redeem_keeps e later j h other le =
      let key = challenge_key req.challenge_id in
      let (_, kept) = get_refines m.store now key bounded later j le in
      elim (redeem-Course sv names cs m now req) [
        | unread q ↦ rw q (refl, refl)
        | refused why q ↦ rw q (kept, refl)
        | loses raw r why w q ↦
            let (same, counters) =
              spend_keeps (seen sv names cs m now req) now req raw r
                (get-Bounded m.store now key bounded) why w later j le in
            rw q (same ∙ kept, counters)
        | reaches raw r g c w q ↦ absurd (other (ends_failed _ r e (rw q at h)))
      ]
