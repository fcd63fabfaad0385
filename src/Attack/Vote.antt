-- ===== src/Attack/Vote.antt =====
-- The replica's own posture vote in the shared store, over the detector's operations
-- (core/attackmode/attackmode.go).
use angie_guardian.Prelude.{
  ℕ, ◌≡◌, refl, ap, sym, ◌∙◌, List, [], ◌∷◌, Bool, true, false, not, ◌&&◌, ◌||◌, inl, inr, arith,
  Bool-cases, none, some, Bytes,
}
use angie_guardian.Prelude.Int.{ℤ, pos}
use angie_guardian.Prelude.Float.{Float}
use angie_guardian.Attack.State.{
  Level, normal, rank, level_lt, Config, Signals, Detector, apply_config,
}
use angie_guardian.Attack.Signals.{push_bucket}
use angie_guardian.Attack.Machine.{evaluate, recompute}
use angie_guardian.Attack.Share.{
  is_ok, is_unsupported, PostureVotes, clear_shared_vote, publish_vote, share_posture, hear_peers,
  measure, tick, pin, unpin, set_config, close, store_op, evaluated, challenge_issued,
  challenge_redeemed, new_detector, pin_time,
}
use angie_guardian.Attack.Publish.{publish_vote_live}
use angie_guardian.Attack.Posture.{outcome, evaluate-PublishesAt}

-- One operation of the detector.
pub data Act (fl : Float) : Type 0 where
  do_tick do_unpin do_close do_evaluated do_issued do_redeemed : Act fl
  do_pin : Level → ℤ → Act fl
  do_config : Config fl → Act fl
  do_store_op : Bool → Bool → Act fl

module _ {fl : Float} {S : Type 0} (votes : PostureVotes S) (self : Bytes) where
  -- A detector that believes it has no vote has none.
  abbrev pub Tracked : Detector fl × S → Type 0
  Tracked (d, s) = d.vote_live ≡ false → votes.vote_of s self ≡ none

  clear-Tracked :
      (d : Detector fl) (s : S)
      → Tracked (d, s)
      → Tracked (clear_shared_vote fl (some votes) self d s)
  unfolding clear_shared_vote
  clear-Tracked d s h = elim (Bool-cases d.vote_live) [
    | inl y ↦ rw (y, clear_shared_vote) λ e. votes.delete_removes s self (ground arith)
    | inr n ↦ rw (n, clear_shared_vote) (λ _. h n)
  ]

  clear_live :
      (d : Detector fl) (s : S)
      → is_ok (votes.delete_vote s self).1 ≡ true
      → (clear_shared_vote fl (some votes) self d s).0.vote_live ≡ false
  unfolding clear_shared_vote
  clear_live d s k = elim (Bool-cases d.vote_live) [
    | inl y ↦ rw (clear_shared_vote, y, k) refl
    | inr n ↦ rw (clear_shared_vote, n) refl
  ]

  publish_vote-Tracked :
      (d : Detector fl) (s : S) (local : Level) (now : ℕ)
      → Tracked (d, s)
      → Tracked (publish_vote fl (some votes) self votes d s local now)
  unfolding publish_vote
  publish_vote-Tracked d s local now h = elim (Bool-cases (level_lt normal local)) [
    | inl y ↦
        rw (y, publish_vote)
          λ e. votes.set_unsupported s now self (rank local) d.cfg.window (ground arith)
    | inr n ↦
        rw (n, publish_vote)
          λ e.
            elim (Bool-cases
              (is_ok (votes.delete_vote s self).1 || is_unsupported (votes.delete_vote s self).1)) [
                | inl z ↦ votes.delete_removes s self z
                | inr m ↦ votes.delete_keeps s self (h (ground arith))
              ]
  ]

  share-Tracked :
      (d : Detector fl) (s : S) (local : Level) (now : ℕ)
      → Tracked (d, s)
      → Tracked (share_posture fl (some votes) self d s local now).0
  unfolding share_posture
  share-Tracked d s local now h =
      elim (Bool-cases (d.pinned || (not d.cfg.enabled || not d.cfg.share_posture))) [
        | inl y ↦ rw (y, share_posture) (clear-Tracked d s h)
        | inr n ↦
            rw (n, share_posture)
              (λ e.
                votes.max_keeps (publish_vote fl (some votes) self votes d s local now).1 now self
                  self (publish_vote-Tracked d s local now h e))
      ]

  evaluate_vote_live :
      (d : Detector fl) (c : Config fl) (sig : Signals fl) (peer : ℤ) (now : ℕ)
      → (evaluate fl d c sig peer now).vote_live ≡ d.vote_live
  evaluate_vote_live d c sig peer now =
      let (d1, why, s, t, v, e) = evaluate-PublishesAt d c sig peer now in
      ap (λ (x : Detector fl). x.vote_live) e
      ∙ publish_vote_live d1 c (outcome d c sig peer now) why now
      ∙ v

  hear_peers-Tracked :
      (d : Detector fl) (s : S) (now : ℕ)
      → Tracked (d, s)
      → Tracked (hear_peers fl (some votes) self d s now).0
  unfolding hear_peers
  hear_peers-Tracked d s now h =
      elim (Bool-cases (d.cfg.enabled && (d.cfg.share_posture && not d.pinned))) [
        | inl y ↦ rw (y, hear_peers) (share-Tracked d s d.local_level now h)
        | inr n ↦ rw (n, hear_peers) (clear-Tracked d s h)
      ]

  tick-Tracked :
      (d : Detector fl) (s : S) (now : ℕ)
      → Tracked (d, s)
      → Tracked (tick fl (some votes) self d s now)
  unfolding tick measure push_bucket
  tick-Tracked d s now h e =
      let ((d', s'), peer) =
        hear_peers fl (some votes) self (measure fl (some votes) self d) s now in
      hear_peers-Tracked (measure fl (some votes) self d) s now h
        (sym (evaluate_vote_live d' d'.cfg d'.sig (pos (rank peer)) now) ∙ e)

  recompute_vote_live : (d : Detector fl) (now : ℕ) → (recompute fl d now).vote_live ≡ d.vote_live
  unfolding recompute
  recompute_vote_live d now = evaluate_vote_live d d.cfg d.sig (pos 0) now

  pin-Tracked :
      (d : Detector fl) (s : S) (level : Level) (ttl : ℤ) (now : ℕ)
      → Tracked (d, s)
      → Tracked (pin fl (some votes) self d s level ttl now)
  unfolding pin
  pin-Tracked d s level ttl now h =
      let d' = record d { pinned = true; pin_level = level; pin_until = pin_time ttl now } in
      clear-Tracked (recompute fl d' now) s (λ e. h (sym (recompute_vote_live d' now) ∙ e))

  abbrev pub act : Detector fl × S → Act fl × ℕ → Detector fl × S
  act (d, s) (do_tick, now) = tick fl (some votes) self d s now
  act (d, s) (do_unpin, now) = (unpin fl (some votes) self d now, s)
  act (d, s) (do_evaluated, now) = (evaluated d, s)
  act (d, s) (do_issued, now) = (challenge_issued d, s)
  act (d, s) (do_redeemed, now) = (challenge_redeemed d, s)
  act (d, s) (do_close, now) = close fl (some votes) self d s
  act (d, s) (do_pin level ttl, now) = pin fl (some votes) self d s level ttl now
  act (d, s) (do_config c, now) = set_config fl (some votes) self d s c
  act (d, s) (do_store_op failed slow, now) = (store_op d failed slow, s)

  abbrev pub run_acts : Detector fl × S → List (Act fl × ℕ) → Detector fl × S
  run_acts x [] = x
  run_acts x (a ∷ rest) = run_acts (act x a) rest

  act-Tracked : (x : Detector fl × S) (a : Act fl × ℕ) → Tracked x → Tracked (act x a)
  unfolding unpin close set_config apply_config store_op evaluated challenge_issued
      challenge_redeemed
  act-Tracked (d, s) (do_tick, now) h = tick-Tracked d s now h
  act-Tracked (d, s) (do_unpin, now) h =
      λ e. h (sym (recompute_vote_live (record d { pinned = false }) now) ∙ e)
  act-Tracked (d, s) (do_evaluated, now) h = h
  act-Tracked (d, s) (do_issued, now) h = h
  act-Tracked (d, s) (do_redeemed, now) h = h
  act-Tracked (d, s) (do_close, now) h = clear-Tracked d s h
  act-Tracked (d, s) (do_pin level ttl, now) h = pin-Tracked d s level ttl now h
  act-Tracked (d, s) (do_config c, now) h =
      elim (Bool-cases (not c.enabled || not c.share_posture)) [
        | inl y ↦ rw (y, set_config) (clear-Tracked (apply_config fl d c) s h)
        | inr n ↦ rw (n, set_config) h
      ]
  act-Tracked (d, s) (do_store_op failed slow, now) h = h

  run_acts-Tracked :
      (x : Detector fl × S) (acts : List (Act fl × ℕ)) → Tracked x → Tracked (run_acts x acts)
  run_acts-Tracked x [] k = k
  run_acts-Tracked x (a ∷ rest) k = run_acts-Tracked (act x a) rest (act-Tracked x a k)

  -- From a new detector, whose store holds no vote of its replica, any sequence of ticks, pins, unpins,
  -- reloads, shutdowns and counted events keeps track of the replica's vote: whenever the detector
  -- takes itself to have no vote in the store, the store has none, however its calls have failed.
  pub run_acts_tracked :
      (c : Config fl) (s : S) (start : ℕ) (acts : List (Act fl × ℕ))
      → votes.vote_of s self ≡ none
      → (run_acts (new_detector fl c start, s) acts).0.vote_live ≡ false
      → votes.vote_of (run_acts (new_detector fl c start, s) acts).1 self ≡ none
  unfolding new_detector
  run_acts_tracked c s start acts h = run_acts-Tracked (new_detector fl c start, s) acts (λ _. h)

  -- A pin withdraws the replica's vote: when the store carries the delete out, no vote of the replica is
  -- left after the pin.
  pub pin_withdraws :
      (d : Detector fl) (s : S) (level : Level) (ttl : ℤ) (now : ℕ)
      → Tracked (d, s)
      → is_ok (votes.delete_vote s self).1 ≡ true
      → votes.vote_of (pin fl (some votes) self d s level ttl now).1 self ≡ none
  unfolding pin
  pin_withdraws d s level ttl now h k =
      let d' = record d { pinned = true; pin_level = level; pin_until = pin_time ttl now } in
      pin-Tracked d s level ttl now h (clear_live (recompute fl d' now) s k)
