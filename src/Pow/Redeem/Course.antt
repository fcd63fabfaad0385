-- ===== src/Pow/Redeem/Course.antt =====
-- core/pow/challenge.go: the courses that a redemption takes.
use angie_guardian.Prelude.{
  ℕ, ◌≡◌, refl, Option, none, some, inl, inr, Bytes, Bool-cases, Option-cases,
}
use angie_guardian.Memory.Ops.{get}
use angie_guardian.Pow.Words.{done, failed, Attempt-cases}
use angie_guardian.Pow.Record.{Record}
use angie_guardian.Pow.Escalation.{Names, Counters}
use angie_guardian.Pow.Manager.{Services, Manager, PowError, challenge_key, challenge_unknown}
use angie_guardian.Pow.Redeem.{RedeemRequest, redeem, checked, spend, finish, canonical}

module _ {C : Type 0} (sv : Services) (names : Names) (cs : Counters C) (m : Manager C) (now : ℕ)
    (req : RedeemRequest) where
  abbrev pub seen : Manager C
  seen = record m { store = (get m.store now (challenge_key req.challenge_id)).0 }

  abbrev pub found : Option Bytes
  found = (get m.store now (challenge_key req.challenge_id)).1

  abbrev pub swapped : Bytes → Record → Manager C
  swapped raw r = (spend seen now req raw r).0

  -- A redemption is refused unread, fails a check, loses the swap, or reaches the finish.
  pub data Course : Type 0 where
    unread : redeem sv names cs m now req ≡ (m, failed challenge_unknown) → Course
    refused : (e : PowError) → redeem sv names cs m now req ≡ (seen, failed e) → Course
    loses :
        (raw : Bytes) (r : Record) (e : PowError)
        → (spend seen now req raw r).1 ≡ some e
        → redeem sv names cs m now req ≡ (swapped raw r, failed e)
        → Course
    reaches :
        (raw : Bytes) (r : Record)
        → found ≡ some raw
        → checked sv m now req found ≡ done r
        → (spend seen now req raw r).1 ≡ none
        → redeem sv names cs m now req ≡ finish sv names cs (swapped raw r) req r
        → Course

  pub redeem-Course : Course
  unfolding redeem
  redeem-Course = elim (Bool-cases (canonical sv req.challenge_id)) [
    | inr n ↦ unread (rw (n, redeem) refl)
    | inl y ↦ (elim (Attempt-cases (checked sv m now req found)) [
      | inl (e, c) ↦ refused e (rw (y, redeem, c) refl)
      | inr (r, c) ↦ (elim (Option-cases found) [
        | inl g ↦ refused challenge_unknown (rw (y, redeem, c, g) refl)
        | inr (raw, g) ↦ (elim (Option-cases (spend seen now req raw r).1) [
          | inl w ↦ reaches raw r g c w (rw (y, redeem, c, g, w) refl)
          | inr (e, w) ↦ loses raw r e w (rw (y, redeem, c, g, w) refl)
        ])
      ])
    ])
  ]
