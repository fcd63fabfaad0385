-- ===== src/Attack/Machine.antt =====
-- core/attackmode/attackmode.go: the state machine. The clock is an argument; the mutexes make
-- each operation one step.
use angie_guardian.Prelude.{
  ℕ, zero, suc, Bool, true, false, not, ◌&&◌, ◌||◌, ◌∷◌, if◌then◌else◌, leb, ◌=ℕ◌,
}
use angie_guardian.Prelude.Int.{ℤ, pos, negsuc, ltb_ℤ, sub_ℕ, ◌+ℤ◌, min_ℤ, max_ℤ}
use angie_guardian.Prelude.Float.{Float}
use angie_guardian.Attack.State.{
  Level, normal, elevated, attack, level_lt, level_eq, level_max, lower, Reason, forced,
  peer_reason, no_reason, reason_eq, int_eq, bool_eq, State, LastAbove, above, set_above, Config,
  Signals, Detector,
}
use angie_guardian.Attack.Signals.{elevated_signal, attack_signal, elevated_half, attack_half}

-- `State.Cap`
unfoldable pub cap_of : State → ℤ → ℤ
cap_of s max_bits =
    if int_eq s.extra_bits (pos 0) || int_eq s.cap_bits (pos 0) then max_bits else s.cap_bits

unfoldable pub effective_bits : State → ℤ → ℤ → ℤ → ℤ × ℤ
unfolding ◌+ℤ◌
effective_bits st base_bits max_bits cap_bits =
    if int_eq st.extra_bits (pos 0)
    then (base_bits, max_bits)
    else (let ceiling = max_ℤ cap_bits max_bits in
        let base = max_ℤ (min_ℤ (base_bits +ℤ st.extra_bits) ceiling) base_bits in
        (base, max_ℤ (min_ℤ (max_bits +ℤ st.extra_bits) ceiling) base))

-- A peer's level is an int; anything outside the enum is read as normal.
unfoldable pub level_of : ℤ → Level
level_of (pos zero) = normal
level_of (pos (suc zero)) = elevated
level_of (pos (suc (suc zero))) = attack
level_of (pos (suc (suc (suc n)))) = normal
level_of (negsuc n) = normal

module _ (fl : Float) where
  unfoldable pub bits_for : Config fl → Level → ℤ
  bits_for c elevated = c.elevated_bits
  bits_for c attack = c.attack_bits
  bits_for c normal = pos 0

  -- `resolvePin`: an expired pin is dropped.
  unfoldable pub resolve_pin : Detector fl → ℕ → Detector fl × Level × Bool
  resolve_pin d now =
      if d.pinned
      then (if not (d.pin_until =ℕ 0) && leb d.pin_until now
          then (record d { pinned = false }, normal, false)
          else (d, d.pin_level, true))
      else (d, normal, false)

  unfoldable pub decay_from : Detector fl → Config fl → Level → ℕ → Level
  decay_from d c normal now = normal
  decay_from d c cur now =
      let last = above d.last_above cur in
      if not (last =ℕ 0) && ltb_ℤ (sub_ℕ now last) c.min_dwell then cur else lower cur

  -- The state that `publish` builds, before it compares.
  unfoldable pub next_state : Config fl → State → Level → Reason → ℕ → State
  unfolding bits_for
  next_state c cur level reason now =
      let kept =
        if reason_eq reason no_reason && level_eq level cur.level then cur.reason else reason in
      record {
        level = level;
        extra_bits = bits_for c level;
        cap_bits = c.cap_bits;
        force_always = level_eq level attack && c.force_always;
        stateless = level_eq level attack && c.stateless;
        since = if level_eq cur.level level then cur.since else now;
        reason = kept;
      }

  abbrev pub same_effects : State → State → Bool
  same_effects a b =
      level_eq a.level b.level
      && (reason_eq a.reason b.reason
          && (int_eq a.extra_bits b.extra_bits
              && (int_eq a.cap_bits b.cap_bits
                  && (bool_eq a.force_always b.force_always && bool_eq a.stateless b.stateless))))

  unfoldable pub publish : Detector fl → Config fl → Level → Reason → ℕ → Detector fl
  unfolding next_state
  publish d c level reason now =
      let cur = d.state in
      let next = next_state c cur level reason now in
      if same_effects cur next then d else record d {
        state = next;
        transitions =
            if level_eq cur.level level
            then d.transitions
            else (cur.level, level, next.reason) ∷ d.transitions;
      }

  -- The refresh of the times at which the levels were last above half.
  unfoldable pub refresh_above : Detector fl → Config fl → Signals fl → ℕ → LastAbove
  refresh_above d c sig now =
      let l =
        if (elevated_signal fl c sig).0 || elevated_half fl c sig
        then set_above d.last_above elevated now
        else d.last_above in
      if (attack_signal fl c sig).0 || attack_half fl c sig then set_above l attack now else l

  -- The local decision and its reason.
  unfoldable pub local_decision : Detector fl → Config fl → Signals fl → ℕ → Level × Reason
  unfolding decay_from
  local_decision d c sig now =
      if (attack_signal fl c sig).0
      then (attack, (attack_signal fl c sig).1)
      else if (elevated_signal fl c sig).0 && level_lt d.local_level attack
      then (elevated, (elevated_signal fl c sig).1)
      else (decay_from d c d.local_level now, no_reason)

  -- The end of `evaluate`: the decay from what is published, and the publication.
  unfoldable pub settle_fleet : Detector fl → Config fl → Level → Reason → ℕ → Detector fl
  unfolding publish decay_from
  settle_fleet d c desired treason now =
      let published = d.state.level in
      if level_lt desired published && not (reason_eq d.state.reason forced)
      then (let target = level_max (decay_from d c published now) desired in
          let d2 =
            if level_lt target published && level_lt normal target
            then record d { last_above = set_above d.last_above target now }
            else d in
          publish d2 c target (if level_eq target published then no_reason else treason) now)
      else publish d c desired treason now

  -- The fleet maximum, and the refresh of a peer's dwell.
  unfoldable pub publish_fleet : Detector fl → Config fl → Level → Reason → Level → ℕ → Detector fl
  unfolding settle_fleet
  publish_fleet d c local reason peer now =
      let from_peer = level_lt local peer in
      let d1 =
        if level_lt normal peer
        then record d { last_above = set_above d.last_above peer now }
        else d in
      settle_fleet d1 c (if from_peer then peer else local)
        (if from_peer then peer_reason else reason) now

  unfoldable pub evaluate : Detector fl → Config fl → Signals fl → ℤ → ℕ → Detector fl
  unfolding level_of
  evaluate d c sig peer now =
      let (d0, pin, pinned) = resolve_pin d now in
      if pinned
      then publish (record d0 { local_level = pin }) c pin forced now
      else if not c.enabled
      then publish (record d0 { local_level = normal }) c normal no_reason now
      else (let d1 = record d0 { last_above = refresh_above d0 c sig now } in
          let (local, reason) = local_decision d1 c sig now in
          publish_fleet (record d1 { local_level = local }) c local reason (level_of peer) now)

  unfoldable pub recompute : Detector fl → ℕ → Detector fl
  unfolding evaluate
  recompute d now = evaluate d d.cfg d.sig (pos 0) now
