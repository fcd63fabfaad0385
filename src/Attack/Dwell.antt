-- ===== src/Attack/Dwell.antt =====
-- The hysteresis of core/attackmode/attackmode.go over two evaluations: a level that one of them saw
-- above half of its thresholds stays for the minimal dwell.
use angie_guardian.Prelude.{
  ℕ, ◌≤◌, ◌<◌, ◌≡◌, refl, ap, ◌∙◌, Bool, true, false, not, ◌||◌, ◌&&◌, inl, inr, arith, Bool-cases,
  if◌then◌else◌,
}
use angie_guardian.Prelude.Int.{ℤ, ltb_ℤ, sub_ℕ}
use angie_guardian.Prelude.Float.{Float}
use angie_guardian.Attack.State.{
  Level, normal, elevated, attack, rank, level_eq, level_lt, level_max, Reason, forced, no_reason,
  peer_reason, reason_eq, above, set_above, LastAbove, Config, Signals, Detector,
}
use angie_guardian.Attack.Signals.{attack_signal, attack_half, elevated_signal, elevated_half}
use angie_guardian.Attack.Machine.{
  evaluate, level_of, publish, publish_fleet, settle_fleet, refresh_above, decay_from,
}
use angie_guardian.Attack.Evaluate.{pin_live, watched, decided, evaluate_enabled}
use angie_guardian.Attack.Fleet.{above-set_above, evaluate_holds}

rank_low : (level : Level) → level_lt normal level ≡ false → (k : ℕ) → rank level ≤ k
rank_low normal h k = omega arith
rank_low elevated h k = cc
rank_low attack h k = cc

set_now :
    (last : LastAbove) (cur x : Level) (now : ℕ)
    → above last cur ≡ now
    → above (set_above last x now) cur ≡ now
set_now last cur x now h = above-set_above last cur x now ∙ ground (arith, h)

set_self : (last : LastAbove) (now : ℕ) → above (set_above last attack now) attack ≡ now
set_self last now = ground arith

module _ {fl : Float} where
  -- The signals raise a level, or stand above half of its thresholds.
  abbrev pub sees : Config fl → Signals fl → Level → Bool
  sees c sig normal = true
  sees c sig elevated = (elevated_signal fl c sig).0 || elevated_half fl c sig
  sees c sig attack = (attack_signal fl c sig).0 || attack_half fl c sig

  refresh_sees :
      (d : Detector fl) (c : Config fl) (sig : Signals fl) (cur : Level) (now : ℕ)
      → level_lt normal cur ≡ true
      → sees c sig cur ≡ true
      → above (refresh_above fl d c sig now) cur ≡ now
  unfolding refresh_above
  refresh_sees d c sig normal now l h = cc
  refresh_sees d c sig elevated now l h =
      let over = (attack_signal fl c sig).0 || attack_half fl c sig in
      elim (Bool-cases over) [
        | inl y ↦ rw (refresh_above, h, y) refl
        | inr n ↦ rw (refresh_above, h, n) refl
      ]
  refresh_sees d c sig attack now l h = rw (refresh_above, h) refl

  publish_last :
      (d : Detector fl) (c : Config fl) (level : Level) (why : Reason) (now : ℕ)
      → (publish fl d c level why now).last_above ≡ d.last_above
  unfolding publish
  publish_last d c level why now = ground arith

  published_last :
      (d : Detector fl) (c : Config fl) (level : Level) (why : Reason) (cur : Level) (now : ℕ)
      → above d.last_above cur ≡ now
      → above (publish fl d c level why now).last_above cur ≡ now
  published_last d c level why cur now h =
      ap (λ l. above l cur) (publish_last d c level why now) ∙ h

  -- The refresh of one level's time, under a test.
  abbrev touched : Bool → Detector fl → Level → ℕ → Detector fl
  touched b d level now =
      if b then record d { last_above = set_above d.last_above level now } else d

  touched_last :
      (b : Bool) (d : Detector fl) (level cur : Level) (now : ℕ)
      → above d.last_above cur ≡ now
      → above (touched b d level now).last_above cur ≡ now
  touched_last true d level cur now h = set_now d.last_above cur level now h
  touched_last false d level cur now h = h

  settle_last :
      (d : Detector fl) (c : Config fl) (desired : Level) (why : Reason) (cur : Level) (now : ℕ)
      → above d.last_above cur ≡ now
      → above (settle_fleet fl d c desired why now).last_above cur ≡ now
  unfolding settle_fleet
  settle_last d c desired why cur now h =
      let published = d.state.level in
      let target = level_max (decay_from fl d c published now) desired in
      let drops = level_lt target published && level_lt normal target in
      elim (Bool-cases (level_lt desired published && not (reason_eq d.state.reason forced))) [
        | inl y ↦
            rw (settle_fleet, y)
              (published_last (touched drops d target now) c target
                (if level_eq target published then no_reason else why) cur now
                (touched_last drops d target cur now h))
        | inr n ↦ rw (settle_fleet, n) (published_last d c desired why cur now h)
      ]

  fleet_last :
      (d : Detector fl) (c : Config fl) (local : Level) (why : Reason) (peer : Level) (cur : Level)
      (now : ℕ)
      → above d.last_above cur ≡ now
      → above (publish_fleet fl d c local why peer now).last_above cur ≡ now
  unfolding publish_fleet
  fleet_last d c local why peer cur now h =
      settle_last (touched (level_lt normal peer) d peer now) c
        (if level_lt local peer then peer else local)
        (if level_lt local peer then peer_reason else why) cur now
        (touched_last (level_lt normal peer) d peer cur now h)

  -- A level that an evaluation published and saw above half was last above half at that evaluation.
  evaluate_last :
      (d : Detector fl) (c : Config fl) (sig : Signals fl) (peer : ℤ) (cur : Level) (now : ℕ)
      → pin_live d now ≡ false
      → c.enabled ≡ true
      → level_lt normal cur ≡ true
      → sees c sig cur ≡ true
      → above (evaluate fl d c sig peer now).last_above cur ≡ now
  evaluate_last d c sig peer cur now free on high seen =
      rw (evaluate_enabled d c sig peer now free on) (
        fleet_last (record (watched d c sig now) { local_level = (decided d c sig now).0 }) c
          (decided d c sig now).0 (decided d c sig now).1 (level_of peer) cur now
          (refresh_sees (record d { pinned = false }) c sig cur now high seen))

  -- Hysteresis over two evaluations. Take an evaluation with detection on and no live pin that sees
  -- the level it publishes: its signals raise that level, or stand above half of its thresholds. If
  -- the posture is not the aftermath of a pin, then the next evaluation, by the same settings and at a
  -- time when no pin is live and less than the minimal dwell has passed, does not lower the posture,
  -- whatever it measures and whatever a peer reports.
  pub evaluate_dwells :
      (d : Detector fl) (c : Config fl) (sig sig' : Signals fl) (peer peer' : ℤ) (now later : ℕ)
      → pin_live d now ≡ false
      → c.enabled ≡ true
      → 0 < now
      → now ≤ later
      → ltb_ℤ (sub_ℕ later now) c.min_dwell ≡ true
      → let first = evaluate fl d c sig peer now in
        (sees c sig first.state.level ≡ true)
        → reason_eq first.state.reason forced ≡ false
        → pin_live first later ≡ false
        → rank first.state.level ≤ rank (evaluate fl first c sig' peer' later).state.level
  evaluate_dwells d c sig sig' peer peer' now later free on start le within seen other free' =
      let first = evaluate fl d c sig peer now in
      elim (Bool-cases (level_lt normal first.state.level)) [
        | inr n ↦
            rank_low first.state.level n (rank (evaluate fl first c sig' peer' later).state.level)
        | inl high ↦
            let last = evaluate_last d c sig peer first.state.level now free on high seen in
            evaluate_holds first c sig' peer' later free' on other
              (record { seen = rw last start; not_later = rw last le; within = rw last within })
      ]
