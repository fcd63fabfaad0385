-- ===== src/Attack/Publish.antt =====
-- What `publish` of core/attackmode/attackmode.go leaves as the posture, and that `evaluate` always
-- ends with it.
use angie_guardian.Prelude.{
  ℕ, ◌≡◌, refl, Bool, true, ◌&&◌, List, ◌∷◌, inl, inr, arith, Bool-cases, if◌then◌else◌,
}
use angie_guardian.Prelude.Int.{ℤ}
use angie_guardian.Prelude.Float.{Float}
use angie_guardian.Prelude.Int.{pos}
use angie_guardian.Attack.State.{
  Level, attack, normal, elevated, level_eq, Reason, forced, reason_eq, int_eq, bool_eq, State,
  Config, Detector,
}
use angie_guardian.Attack.Machine.{next_state, same_effects, publish}

int_eq→≡ : (a b : ℤ) → int_eq a b ≡ true → a ≡ b
int_eq→≡ a b h = ground arith

level_eq→≡ : (a b : Level) → level_eq a b ≡ true → a ≡ b
level_eq→≡ a b h = ground arith

level_eq_refl : (a : Level) → level_eq a a ≡ true
level_eq_refl a = ground arith

reason_eq→≡ : (a b : Reason) → reason_eq a b ≡ true → a ≡ b
reason_eq→≡ a b h = ground arith

bool_eq→≡ : (a b : Bool) → bool_eq a b ≡ true → a ≡ b
bool_eq→≡ a b h = ground arith

-- The effects of a posture are those that the configuration gives its level.
pub record Configured {fl : Float} (c : Config fl) (st : State) : Type 0 where
  pub bits_ok :
      st.extra_bits
      ≡ (elim st.level [ normal ↦ pos 0 | elevated ↦ c.elevated_bits | attack ↦ c.attack_bits ])
  pub cap_ok : st.cap_bits ≡ c.cap_bits
  pub force_ok : st.force_always ≡ (level_eq st.level attack && c.force_always)
  pub stateless_ok : st.stateless ≡ (level_eq st.level attack && c.stateless)

module _ {fl : Float} where
  next-Configured :
      (c : Config fl) (cur : State) (level : Level) (why : Reason) (now : ℕ)
      → Configured c (next_state fl c cur level why now)
  unfolding next_state
  next-Configured c cur level why now = record {
    bits_ok = refl;
    cap_ok = refl;
    force_ok = refl;
    stateless_ok = refl;
  }

  pub publish_level :
      (d : Detector fl) (c : Config fl) (level : Level) (why : Reason) (now : ℕ)
      → (publish fl d c level why now).state.level ≡ level
  unfolding publish next_state
  publish_level d c level why now = ground (arith, level_eq→≡ d.state.level level)

  pub publish_reason :
      (d : Detector fl) (c : Config fl) (level : Level) (now : ℕ)
      → (publish fl d c level forced now).state.reason ≡ forced
  unfolding publish next_state
  publish_reason d c level now = ground (arith, reason_eq→≡ d.state.reason forced)

  same-Configured :
      (c : Config fl) (a b : State) → same_effects fl a b ≡ true → Configured c b → Configured c a
  same-Configured c a b h k =
      let level : a.level ≡ b.level = level_eq→≡ a.level b.level (ground arith) in
      let bits : a.extra_bits ≡ b.extra_bits = int_eq→≡ a.extra_bits b.extra_bits (ground arith) in
      let caps : a.cap_bits ≡ b.cap_bits = int_eq→≡ a.cap_bits b.cap_bits (ground arith) in
      let force : a.force_always ≡ b.force_always =
        bool_eq→≡ a.force_always b.force_always (ground arith) in
      let less : a.stateless ≡ b.stateless = bool_eq→≡ a.stateless b.stateless (ground arith) in
      record {
        bits_ok = rw (bits, level) k.bits_ok;
        cap_ok = rw caps k.cap_ok;
        force_ok = rw (force, level) k.force_ok;
        stateless_ok = rw (less, level) k.stateless_ok;
      }

  pub publish-Configured :
      (d : Detector fl) (c : Config fl) (level : Level) (why : Reason) (now : ℕ)
      → Configured c (publish fl d c level why now).state
  unfolding publish
  publish-Configured d c level why now =
      elim (Bool-cases (same_effects fl d.state (next_state fl c d.state level why now))) [
        | inl y ↦
            rw (y, publish)
              (same-Configured c d.state (next_state fl c d.state level why now) y
                (next-Configured c d.state level why now))
        | inr n ↦ rw (n, publish) (next-Configured c d.state level why now)
      ]

  -- A transition, its start and its callback, exactly when the level changes.
  abbrev pub Tells : State → List (Level × Level × Reason) → Detector fl → ℕ → Type 0
  Tells st told e now =
      (e.state.since ≡ (if level_eq st.level e.state.level then st.since else now))
      × (e.transitions ≡ (
          if level_eq st.level e.state.level
          then told
          else (st.level, e.state.level, e.state.reason) ∷ told))

  pub publish-Tells :
      (d : Detector fl) (c : Config fl) (level : Level) (why : Reason) (now : ℕ)
      → Tells d.state d.transitions (publish fl d c level why now) now
  unfolding publish next_state
  publish-Tells d c level why now =
      elim (Bool-cases (same_effects fl d.state (next_state fl c d.state level why now))) [
        | inl y ↦ rw (y, publish, level_eq_refl d.state.level) (refl, refl)
        | inr n ↦ rw (n, publish, next_state) (refl, refl)
      ]

  pub Tells-of :
      (st st' : State) (told told' : List (Level × Level × Reason)) (e : Detector fl) (now : ℕ)
      → st ≡ st'
      → told ≡ told'
      → Tells st told e now
      → Tells st' told' e now
  Tells-of st st' told told' e now p q h = rw (← p, ← q) h

  pub publish_vote_live :
      (d : Detector fl) (c : Config fl) (level : Level) (why : Reason) (now : ℕ)
      → (publish fl d c level why now).vote_live ≡ d.vote_live
  unfolding publish
  publish_vote_live d c level why now = ground arith
