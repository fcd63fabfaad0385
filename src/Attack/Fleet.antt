-- ===== src/Attack/Fleet.antt =====
-- The fleet maximum, the attack signal and the hysteresis of core/attackmode/attackmode.go, on what
-- an evaluation publishes.
use angie_guardian.Prelude.{
  ℕ, suc, ◌≤◌, ◌<◌, ◌≡◌, refl, ap, ◌∙◌, Bool, true, false, ◌||◌, inl, inr, arith, Bool-cases,
  if◌then◌else◌,
}
use angie_guardian.Prelude.Int.{ℤ, ltb_ℤ, sub_ℕ}
use angie_guardian.Prelude.Float.{Float}
use angie_guardian.Attack.State.{
  Level, normal, elevated, attack, rank, level_eq, level_max, Reason, forced, reason_eq, above,
  set_above, LastAbove, Config, Signals, Detector,
}
use angie_guardian.Attack.Signals.{attack_signal, attack_half, elevated_signal, elevated_half}
use angie_guardian.Attack.Machine.{evaluate, level_of, local_decision, decay_from, refresh_above}
use angie_guardian.Attack.Evaluate.{pin_live, watched, decided, heard, settled}
use angie_guardian.Attack.Posture.{fleet, outcome-fleet, evaluate_level, if_yes, if_no}

max_left : (a b : Level) → rank a ≤ rank (level_max a b)
max_left a b = ground arith

max_right : (a b : Level) → rank b ≤ rank (level_max a b)
max_right a b = ground arith

le_trans : (a b c : ℕ) → a ≤ b → b ≤ c → a ≤ c
le_trans a b c h k = omega arith

top : (x : Level) → rank attack ≤ rank x → x ≡ attack
top x h = ground arith

-- Less than the minimal dwell has passed since the level was last above half.
pub record Dwelling (min_dwell : ℤ) (last : LastAbove) (cur : Level) (now : ℕ) : Type 0 where
  pub seen : 0 < above last cur
  pub not_later : above last cur ≤ now
  pub within : ltb_ℤ (sub_ℕ now (above last cur)) min_dwell ≡ true

within_now :
    (m : ℤ) (t now : ℕ) → t ≤ now → ltb_ℤ (sub_ℕ now t) m ≡ true → ltb_ℤ (sub_ℕ now now) m ≡ true
within_now m t now h k = ground arith

pub above-set_above :
    (last : LastAbove) (cur x : Level) (now : ℕ)
    → above (set_above last x now) cur ≡ (if level_eq x cur then now else above last cur)
above-set_above last cur x now = ground arith

set_above-Dwelling :
    (m : ℤ) (last : LastAbove) (cur x : Level) (now : ℕ)
    → Dwelling m last cur now
    → Dwelling m (set_above last x now) cur now
set_above-Dwelling m last cur x now h = elim (Bool-cases (level_eq x cur)) [
  | inl y ↦
      let e : above (set_above last x now) cur ≡ now =
        above-set_above last cur x now ∙ if_yes (level_eq x cur) now (above last cur) y in
      record {
        seen = rw e (le_trans 1 (above last cur) now h.seen h.not_later);
        not_later = rw e (omega arith);
        within = rw e (within_now m (above last cur) now h.not_later h.within);
      }
  | inr n ↦
      let e : above (set_above last x now) cur ≡ above last cur =
        above-set_above last cur x now ∙ if_no (level_eq x cur) now (above last cur) n in
      record { seen = rw e h.seen; not_later = rw e h.not_later; within = rw e h.within }
]

if-Dwelling :
    (m : ℤ) (b : Bool) (l k : LastAbove) (cur : Level) (now : ℕ)
    → Dwelling m l cur now
    → Dwelling m k cur now
    → Dwelling m (if b then l else k) cur now
if-Dwelling m true _ _ cur now h i = h
if-Dwelling m false _ _ cur now h i = i

module _ {fl : Float} where
  settled_least :
      (d : Detector fl) (c : Config fl) (desired : Level) (now : ℕ)
      → rank desired ≤ rank (settled d c desired now)
  settled_least d c desired now =
      ground (arith, max_right (decay_from fl d c d.state.level now) desired)

  decay_step :
      (d : Detector fl) (c : Config fl) (cur : Level) (now : ℕ)
      → rank cur ≤ suc (rank (decay_from fl d c cur now))
  unfolding decay_from
  decay_step d c cur now = ground arith

  decay_holds :
      (d : Detector fl) (c : Config fl) (cur : Level) (now : ℕ)
      → Dwelling c.min_dwell d.last_above cur now
      → decay_from fl d c cur now ≡ cur
  unfolding decay_from
  decay_holds d c normal now h = refl
  decay_holds d c elevated now h = ground (arith, h.seen, h.within)
  decay_holds d c attack now h = ground (arith, h.seen, h.within)

  settled_step :
      (d : Detector fl) (c : Config fl) (desired : Level) (now : ℕ)
      → reason_eq d.state.reason forced ≡ false
      → rank d.state.level ≤ suc (rank (settled d c desired now))
  settled_step d c desired now h = ground (
    arith,
    decay_step d c d.state.level now,
    max_left (decay_from fl d c d.state.level now) desired,
  )

  settled_holds :
      (d : Detector fl) (c : Config fl) (desired : Level) (now : ℕ)
      → reason_eq d.state.reason forced ≡ false
      → Dwelling c.min_dwell d.last_above d.state.level now
      → rank d.state.level ≤ rank (settled d c desired now)
  settled_holds d c desired now h w = ground (
    arith,
    decay_holds d c d.state.level now w,
    max_left (decay_from fl d c d.state.level now) desired,
  )

  refresh-Dwelling :
      (d : Detector fl) (c : Config fl) (sig : Signals fl) (cur : Level) (now : ℕ)
      → Dwelling c.min_dwell d.last_above cur now
      → Dwelling c.min_dwell (refresh_above fl d c sig now) cur now
  unfolding refresh_above
  refresh-Dwelling d c sig cur now h =
      let over = (elevated_signal fl c sig).0 || elevated_half fl c sig in
      let first = if over then set_above d.last_above elevated now else d.last_above in
      let k : Dwelling c.min_dwell first cur now =
        if-Dwelling c.min_dwell over _ _ cur now
          (set_above-Dwelling c.min_dwell d.last_above cur elevated now h) h in
      if-Dwelling c.min_dwell ((attack_signal fl c sig).0 || attack_half fl c sig) _ _ cur now
        (set_above-Dwelling c.min_dwell first cur attack now k) k

  heard_step :
      (d : Detector fl) (c : Config fl) (desired peer : Level) (now : ℕ)
      → reason_eq d.state.reason forced ≡ false
      → rank d.state.level ≤ suc (rank (settled (heard d peer now) c desired now))
  heard_step d c desired normal now h = settled_step d c desired now h
  heard_step d c desired elevated now h = settled_step (heard d elevated now) c desired now h
  heard_step d c desired attack now h = settled_step (heard d attack now) c desired now h

  heard_holds :
      (d : Detector fl) (c : Config fl) (desired peer : Level) (now : ℕ)
      → reason_eq d.state.reason forced ≡ false
      → Dwelling c.min_dwell d.last_above d.state.level now
      → rank d.state.level ≤ rank (settled (heard d peer now) c desired now)
  heard_holds d c desired normal now h w = settled_holds d c desired now h w
  heard_holds d c desired elevated now h w =
      settled_holds (heard d elevated now) c desired now h
        (set_above-Dwelling c.min_dwell d.last_above d.state.level elevated now w)
  heard_holds d c desired attack now h w =
      settled_holds (heard d attack now) c desired now h
        (set_above-Dwelling c.min_dwell d.last_above d.state.level attack now w)

  -- What the fleet step starts from.
  abbrev start : Detector fl → Config fl → Signals fl → ℕ → Detector fl
  start d c sig now = record (watched d c sig now) { local_level = (decided d c sig now).0 }

  decided_attack :
      (d : Detector fl) (c : Config fl) (sig : Signals fl) (now : ℕ)
      → (attack_signal fl c sig).0 ≡ true
      → (decided d c sig now).0 ≡ attack
  unfolding local_decision
  decided_attack d c sig now a =
      ap (λ (p : Level × Reason). p.0) (if_yes (attack_signal fl c sig).0 _ _ a)

  fleet_least :
      (d : Detector fl) (c : Config fl) (sig : Signals fl) (peer : ℤ) (now : ℕ)
      → (rank (decided d c sig now).0 ≤ rank (fleet d c sig peer now))
        × (rank (level_of peer) ≤ rank (fleet d c sig peer now))
  fleet_least d c sig peer now =
      let local = (decided d c sig now).0 in
      let least =
        settled_least (heard (start d c sig now) (level_of peer) now) c
          (level_max local (level_of peer)) now in
      (
        le_trans _ _ _ (max_left local (level_of peer)) least,
        le_trans _ _ _ (max_right local (level_of peer)) least,
      )

  -- With no live pin and detection on, the published level is at least the level this replica detects
  -- and at least the one its peer reports.
  pub evaluate_least :
      (d : Detector fl) (c : Config fl) (sig : Signals fl) (peer : ℤ) (now : ℕ)
      → pin_live d now ≡ false
      → c.enabled ≡ true
      → (rank (decided d c sig now).0 ≤ rank (evaluate fl d c sig peer now).state.level)
        × (rank (level_of peer) ≤ rank (evaluate fl d c sig peer now).state.level)
  evaluate_least d c sig peer now h e =
      rw (evaluate_level d c sig peer now, outcome-fleet d c sig peer now h e)
        (fleet_least d c sig peer now)

  -- An attack signal is published as attack at once, unless a pin is live or detection is off.
  pub evaluate_attack :
      (d : Detector fl) (c : Config fl) (sig : Signals fl) (peer : ℤ) (now : ℕ)
      → pin_live d now ≡ false
      → c.enabled ≡ true
      → (attack_signal fl c sig).0 ≡ true
      → (evaluate fl d c sig peer now).state.level ≡ attack
  evaluate_attack d c sig peer now h e a =
      let (here, there) = evaluate_least d c sig peer now h e in
      top (evaluate fl d c sig peer now).state.level (rw (decided_attack d c sig now a) at here)

  -- Hysteresis of the published posture. With detection on, no live pin, and a posture that is not
  -- the aftermath of a pin, an evaluation lowers the posture by at most one level.
  pub evaluate_drops_once :
      (d : Detector fl) (c : Config fl) (sig : Signals fl) (peer : ℤ) (now : ℕ)
      → pin_live d now ≡ false
      → c.enabled ≡ true
      → reason_eq d.state.reason forced ≡ false
      → rank d.state.level ≤ suc (rank (evaluate fl d c sig peer now).state.level)
  evaluate_drops_once d c sig peer now h e f =
      rw (evaluate_level d c sig peer now, outcome-fleet d c sig peer now h e)
        (heard_step (start d c sig now) c (level_max (decided d c sig now).0 (level_of peer))
          (level_of peer) now f)

  -- With detection on, no live pin, and a posture that is not the aftermath of a pin: while less than
  -- the minimal dwell has passed since the published level was last above half of its thresholds, or
  -- adopted from a peer, an evaluation does not lower the posture, whatever it measures.
  pub evaluate_holds :
      (d : Detector fl) (c : Config fl) (sig : Signals fl) (peer : ℤ) (now : ℕ)
      → pin_live d now ≡ false
      → c.enabled ≡ true
      → reason_eq d.state.reason forced ≡ false
      → Dwelling c.min_dwell d.last_above d.state.level now
      → rank d.state.level ≤ rank (evaluate fl d c sig peer now).state.level
  evaluate_holds d c sig peer now h e f w =
      rw (evaluate_level d c sig peer now, outcome-fleet d c sig peer now h e)
        (heard_holds (start d c sig now) c (level_max (decided d c sig now).0 (level_of peer))
          (level_of peer) now f
          (refresh-Dwelling (record d { pinned = false }) c sig d.state.level now w))
