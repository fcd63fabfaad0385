-- ===== src/Attack/Evaluate.antt =====
-- `evaluate` of core/attackmode/attackmode.go by cases: a live pin, a detector that is off, and the
-- fleet maximum; each ends with one publication.
use angie_guardian.Prelude.{
  ℕ, ◌≡◌, refl, ap, ◌∙◌, Bool, true, false, not, ◌&&◌, inl, inr, arith, Bool-cases, if◌then◌else◌,
  leb, ◌=ℕ◌,
}
use angie_guardian.Prelude.Int.{ℤ}
use angie_guardian.Prelude.Float.{Float}
use angie_guardian.Attack.State.{
  Level, normal, elevated, attack, level_lt, level_eq, level_max, Reason, forced, peer_reason,
  no_reason, reason_eq, set_above, Config, Signals, Detector,
}
use angie_guardian.Attack.Machine.{
  publish, settle_fleet, publish_fleet, resolve_pin, evaluate, level_of, local_decision, decay_from,
  refresh_above,
}

module _ {fl : Float} where
  abbrev pub pin_live : Detector fl → ℕ → Bool
  pin_live d now = d.pinned && not (not (d.pin_until =ℕ 0) && leb d.pin_until now)

  resolve_pin_live :
      (d : Detector fl) (now : ℕ)
      → pin_live d now ≡ true
      → resolve_pin fl d now ≡ (d, d.pin_level, true)
  unfolding resolve_pin
  resolve_pin_live d now h = ground arith

  abbrev idle_result : Detector fl → Bool → Detector fl × Level × Bool
  idle_result d b = (record d { pinned = b }, normal, false)

  resolve_pin_idle :
      (d : Detector fl) (now : ℕ)
      → pin_live d now ≡ false
      → resolve_pin fl d now ≡ (record d { pinned = false }, normal, false)
  unfolding resolve_pin
  resolve_pin_idle d now h = elim (Bool-cases d.pinned) [
    | inl y ↦
        let e : (not (d.pin_until =ℕ 0) && leb d.pin_until now) ≡ true = ground arith in
        rw (resolve_pin, y, e) refl
    | inr n ↦
        let e : resolve_pin fl d now ≡ (d, normal, false) = rw (resolve_pin, n) refl in
        e ∙ ap (idle_result d) n
  ]

  -- The detector that the fleet step starts from, and its local level.
  abbrev pub watched : Detector fl → Config fl → Signals fl → ℕ → Detector fl
  watched d c sig now = record d {
    pinned = false;
    last_above = refresh_above fl (record d { pinned = false }) c sig now;
  }

  abbrev pub decided : Detector fl → Config fl → Signals fl → ℕ → Level × Reason
  decided d c sig now = local_decision fl (watched d c sig now) c sig now

  pub evaluate_pinned :
      (d : Detector fl) (c : Config fl) (sig : Signals fl) (peer : ℤ) (now : ℕ)
      → pin_live d now ≡ true
      → evaluate fl d c sig peer now
        ≡ publish fl (record d { local_level = d.pin_level }) c d.pin_level forced now
  unfolding evaluate
  evaluate_pinned d c sig peer now h = rw (evaluate, resolve_pin_live d now h) refl

  pub evaluate_disabled :
      (d : Detector fl) (c : Config fl) (sig : Signals fl) (peer : ℤ) (now : ℕ)
      → pin_live d now ≡ false
      → c.enabled ≡ false
      → evaluate fl d c sig peer now
        ≡ publish fl (record d { pinned = false; local_level = normal }) c normal no_reason now
  unfolding evaluate
  evaluate_disabled d c sig peer now h e = rw (evaluate, resolve_pin_idle d now h, e) refl

  pub evaluate_enabled :
      (d : Detector fl) (c : Config fl) (sig : Signals fl) (peer : ℤ) (now : ℕ)
      → pin_live d now ≡ false
      → c.enabled ≡ true
      → evaluate fl d c sig peer now
        ≡ publish_fleet fl
            (record (watched d c sig now) { local_level = (decided d c sig now).0 })
            c
            (decided d c sig now).0
            (decided d c sig now).1
            (level_of peer)
            now
  unfolding evaluate
  evaluate_enabled d c sig peer now h e = rw (evaluate, resolve_pin_idle d now h, e) refl

  -- The level that the fleet step settles on, and the level the whole step publishes.
  abbrev pub settled : Detector fl → Config fl → Level → ℕ → Level
  settled d c desired now =
      if level_lt desired d.state.level && not (reason_eq d.state.reason forced)
      then level_max (decay_from fl d c d.state.level now) desired
      else desired

  abbrev pub heard : Detector fl → Level → ℕ → Detector fl
  heard d peer now =
      if level_lt normal peer then record d { last_above = set_above d.last_above peer now } else d

  abbrev pub fleet_level : Detector fl → Config fl → Level → Level → ℕ → Level
  fleet_level d c local peer now = settled (heard d peer now) c (level_max local peer) now

  -- `e` is one publication of the level, over the posture and the transitions of `d`.
  abbrev pub PublishesAt : Detector fl → Config fl → Level → ℕ → Detector fl → Type 0
  PublishesAt d c level now e =
      (d1 : Detector fl) × (why : Reason) × (d1.state ≡ d.state)
      × (d1.transitions ≡ d.transitions)
      × (d1.vote_live ≡ d.vote_live)
      × (e ≡ publish fl d1 c level why now)

  abbrev kept_above : Detector fl → Level → ℕ → Detector fl
  kept_above d target now =
      if level_lt target d.state.level && level_lt normal target
      then record d { last_above = set_above d.last_above target now }
      else d

  kept_above_lem :
      (d : Detector fl) (c : Config fl) (target : Level) (why : Reason) (now : ℕ)
      → PublishesAt d c target now (publish fl (kept_above d target now) c target why now)
  kept_above_lem d c target why now =
      elim (Bool-cases (level_lt target d.state.level && level_lt normal target)) [
        | inl y ↦ rw y (
          record d { last_above = set_above d.last_above target now },
          why,
          refl,
          refl,
          refl,
          refl,
        )
        | inr n ↦ rw n (d, why, refl, refl, refl, refl)
      ]

  settle_fleet-PublishesAt :
      (d : Detector fl) (c : Config fl) (desired : Level) (why : Reason) (now : ℕ)
      → PublishesAt d c (settled d c desired now) now (settle_fleet fl d c desired why now)
  unfolding settle_fleet
  settle_fleet-PublishesAt d c desired why now =
      elim (Bool-cases (level_lt desired d.state.level && not (reason_eq d.state.reason forced))) [
        | inl y ↦
            let target = level_max (decay_from fl d c d.state.level now) desired in
            rw (settle_fleet, y)
              (kept_above_lem d c target (if level_eq target d.state.level then no_reason else why)
                now)
        | inr n ↦ rw (settle_fleet, n) (d, why, refl, refl, refl, refl)
      ]

  pub publish_fleet-PublishesAt :
      (d : Detector fl) (c : Config fl) (local : Level) (why : Reason) (peer : Level) (now : ℕ)
      → PublishesAt d c
          (fleet_level d c local peer now)
          now
          (publish_fleet fl d c local why peer now)
  unfolding publish_fleet
  publish_fleet-PublishesAt d c local why normal now =
      settle_fleet-PublishesAt d c (level_max local normal)
        (if level_lt local normal then peer_reason else why) now
  publish_fleet-PublishesAt d c local why elevated now =
      settle_fleet-PublishesAt (heard d elevated now) c (level_max local elevated)
        (if level_lt local elevated then peer_reason else why) now
  publish_fleet-PublishesAt d c local why attack now =
      settle_fleet-PublishesAt (heard d attack now) c (level_max local attack)
        (if level_lt local attack then peer_reason else why) now
