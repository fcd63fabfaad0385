-- ===== src/Attack/Posture.antt =====
-- What every evaluation of core/attackmode/attackmode.go publishes: its effects, its transitions,
-- the pin and the switch.
use angie_guardian.Prelude.{
  ℕ, zero, suc, ◌≡◌, refl, ◌∙◌, Bool, true, false, inl, inr, arith, Bool-cases, if◌then◌else◌,
  Bytes, Option, none, some,
}
use angie_guardian.Prelude.Int.{ℤ, pos, negsuc}
use angie_guardian.Prelude.Float.{Float}
use angie_guardian.Attack.State.{
  Level, normal, forced, no_reason, Reason, Config, Signals, Detector,
}
use angie_guardian.Attack.Machine.{evaluate, recompute, level_of, publish}
use angie_guardian.Attack.Share.{PostureVotes, clear_shared_vote, pin, pin_time}
use angie_guardian.Attack.Publish.{
  Configured, publish_level, publish_reason, publish-Configured, Tells, publish-Tells, Tells-of,
}
use angie_guardian.Attack.Evaluate.{
  pin_live, watched, decided, evaluate_pinned, evaluate_disabled, evaluate_enabled, fleet_level,
  PublishesAt, publish_fleet-PublishesAt,
}

pub if_yes {ℓ} : {A : Type ℓ} (b : Bool) (x y : A) → b ≡ true → (if b then x else y) ≡ x
if_yes b x y h = rw h refl

pub if_no {ℓ} : {A : Type ℓ} (b : Bool) (x y : A) → b ≡ false → (if b then x else y) ≡ y
if_no b x y h = rw h refl

module _ {fl : Float} where
  -- The level of an evaluation with no pin, detection on.
  abbrev pub fleet : Detector fl → Config fl → Signals fl → ℤ → ℕ → Level
  fleet d c sig peer now =
      fleet_level (record (watched d c sig now) { local_level = (decided d c sig now).0 }) c
        (decided d c sig now).0 (level_of peer) now

  -- The level of an evaluation.
  unfoldable pub outcome : Detector fl → Config fl → Signals fl → ℤ → ℕ → Level
  outcome d c sig peer now =
      if pin_live d now then d.pin_level else if c.enabled then fleet d c sig peer now else normal

  outcome_pinned :
      (d : Detector fl) (c : Config fl) (sig : Signals fl) (peer : ℤ) (now : ℕ)
      → pin_live d now ≡ true
      → outcome d c sig peer now ≡ d.pin_level
  unfolding outcome
  outcome_pinned d c sig peer now h = if_yes (pin_live d now) _ _ h

  pub outcome-fleet :
      (d : Detector fl) (c : Config fl) (sig : Signals fl) (peer : ℤ) (now : ℕ)
      → pin_live d now ≡ false
      → c.enabled ≡ true
      → outcome d c sig peer now ≡ fleet d c sig peer now
  unfolding outcome
  outcome-fleet d c sig peer now h e = if_no (pin_live d now) _ _ h ∙ if_yes c.enabled _ _ e

  outcome_off :
      (d : Detector fl) (c : Config fl) (sig : Signals fl) (peer : ℤ) (now : ℕ)
      → pin_live d now ≡ false
      → c.enabled ≡ false
      → outcome d c sig peer now ≡ normal
  unfolding outcome
  outcome_off d c sig peer now h e = if_no (pin_live d now) _ _ h ∙ if_no c.enabled _ _ e

  pub evaluate-PublishesAt :
      (d : Detector fl) (c : Config fl) (sig : Signals fl) (peer : ℤ) (now : ℕ)
      → PublishesAt d c (outcome d c sig peer now) now (evaluate fl d c sig peer now)
  evaluate-PublishesAt d c sig peer now = elim (Bool-cases (pin_live d now)) [
    | inl y ↦
        rw (evaluate_pinned d c sig peer now y, outcome_pinned d c sig peer now y)
          (record d { local_level = d.pin_level }, forced, refl, refl, refl, refl)
    | inr n ↦ elim (Bool-cases c.enabled) [
      | inl y ↦
          rw (evaluate_enabled d c sig peer now n y, outcome-fleet d c sig peer now n y)
            (publish_fleet-PublishesAt
              (record (watched d c sig now) { local_level = (decided d c sig now).0 }) c
              (decided d c sig now).0 (decided d c sig now).1 (level_of peer) now)
      | inr m ↦
          rw (evaluate_disabled d c sig peer now n m, outcome_off d c sig peer now n m)
            (record d { pinned = false; local_level = normal }, no_reason, refl, refl, refl, refl)
    ]
  ]

  -- After every evaluation the effects in force are those that the given configuration assigns to the
  -- published level: its difficulty raise, the cap, and forced challenges and stateless mode in attack
  -- only, whatever the posture was before.
  pub evaluate-Configured :
      (d : Detector fl) (c : Config fl) (sig : Signals fl) (peer : ℤ) (now : ℕ)
      → Configured c (evaluate fl d c sig peer now).state
  evaluate-Configured d c sig peer now =
      let (d1, why, s, t, v, e) = evaluate-PublishesAt d c sig peer now in
      rw e (publish-Configured d1 c (outcome d c sig peer now) why now)

  -- An evaluation calls the transition callback once, with the old level, the new one and the published
  -- reason, when the level changes and not otherwise; and the posture's start becomes the time of the
  -- evaluation exactly then.
  pub evaluate-Tells :
      (d : Detector fl) (c : Config fl) (sig : Signals fl) (peer : ℤ) (now : ℕ)
      → Tells d.state d.transitions (evaluate fl d c sig peer now) now
  evaluate-Tells d c sig peer now =
      let (d1, why, s, t, v, e) = evaluate-PublishesAt d c sig peer now in
      Tells-of d1.state d.state d1.transitions d.transitions (evaluate fl d c sig peer now) now s t
        (rw e (publish-Tells d1 c (outcome d c sig peer now) why now))

  pub evaluate_level :
      (d : Detector fl) (c : Config fl) (sig : Signals fl) (peer : ℤ) (now : ℕ)
      → (evaluate fl d c sig peer now).state.level ≡ outcome d c sig peer now
  evaluate_level d c sig peer now =
      let (d1, why, s, t, v, e) = evaluate-PublishesAt d c sig peer now in
      rw e (publish_level d1 c (outcome d c sig peer now) why now)

  -- A detector that has the pin of another: whether there is one, its level and its end.
  abbrev pub Pinned : Detector fl → Detector fl → Type 0
  Pinned d e = (e.pinned ≡ d.pinned) × (e.pin_level ≡ d.pin_level) × (e.pin_until ≡ d.pin_until)

  publish-Pinned :
      (d : Detector fl) (c : Config fl) (level : Level) (why : Reason) (now : ℕ)
      → Pinned d (publish fl d c level why now)
  unfolding publish
  publish-Pinned d c level why now = (ground arith, ground arith, ground arith)

  -- While a pin is live, whatever is measured and whatever a peer reports, an evaluation publishes the
  -- pinned level with the reason "forced", and keeps the pin with its level and its end.
  pub evaluate_pin :
      (d : Detector fl) (c : Config fl) (sig : Signals fl) (peer : ℤ) (now : ℕ)
      → pin_live d now ≡ true
      → ((evaluate fl d c sig peer now).state.level ≡ d.pin_level)
        × ((evaluate fl d c sig peer now).state.reason ≡ forced)
        × Pinned d (evaluate fl d c sig peer now)
  evaluate_pin d c sig peer now h = rw (evaluate_pinned d c sig peer now h) (
    publish_level (record d { local_level = d.pin_level }) c d.pin_level forced now,
    publish_reason (record d { local_level = d.pin_level }) c d.pin_level now,
    publish-Pinned (record d { local_level = d.pin_level }) c d.pin_level forced now,
  )

  -- With no live pin and detection switched off, an evaluation publishes normal at once.
  pub evaluate_off :
      (d : Detector fl) (c : Config fl) (sig : Signals fl) (peer : ℤ) (now : ℕ)
      → pin_live d now ≡ false
      → c.enabled ≡ false
      → (evaluate fl d c sig peer now).state.level ≡ normal
  evaluate_off d c sig peer now h e =
      evaluate_level d c sig peer now ∙ outcome_off d c sig peer now h e

  recompute_pin :
      (d : Detector fl) (now : ℕ)
      → pin_live d now ≡ true
      → ((recompute fl d now).state.level ≡ d.pin_level)
        × ((recompute fl d now).state.reason ≡ forced)
  unfolding recompute
  recompute_pin d now h =
      let (level, why, _) = evaluate_pin d d.cfg d.sig (pos 0) now h in (level, why)

  pin_time_live :
      (d : Detector fl) (level : Level) (ttl : ℤ) (now : ℕ)
      → pin_live (record d { pinned = true; pin_level = level; pin_until = pin_time ttl now }) now
        ≡ true
  pin_time_live d level (pos zero) now = refl
  pin_time_live d level (pos (suc t)) now = ground arith
  pin_time_live d level (negsuc t) now = refl

  clear_state :
      {S : Type 0} (backend : Option (PostureVotes S)) (self : Bytes) (d : Detector fl) (s : S)
      → (clear_shared_vote fl backend self d s).0.state ≡ d.state
  unfolding clear_shared_vote
  clear_state none self d s = ground arith
  clear_state (some votes) self d s = ground arith

  -- A pin takes effect before it returns: in either direction, whatever the load, with any store and
  -- however the store's call ends, the published posture has the pinned level and the reason "forced".
  pub pin_publishes :
      {S : Type 0} (backend : Option (PostureVotes S)) (self : Bytes) (d : Detector fl) (s : S)
      (level : Level) (ttl : ℤ) (now : ℕ)
      → ((pin fl backend self d s level ttl now).0.state.level ≡ level)
        × ((pin fl backend self d s level ttl now).0.state.reason ≡ forced)
  unfolding pin
  pin_publishes backend self d s level ttl now =
      let d' = record d { pinned = true; pin_level = level; pin_until = pin_time ttl now } in
      rw (clear_state backend self (recompute fl d' now) s)
        (recompute_pin d' now (pin_time_live d level ttl now))
