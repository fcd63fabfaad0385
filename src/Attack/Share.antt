-- ===== src/Attack/Share.antt =====
-- core/attackmode/attackmode.go: the sharing of the posture, the tick and the admin operations.
-- They act on the detector and the store together.
use angie_guardian.Prelude.{
  ℕ, zero, suc, ◌+◌, Bool, true, false, not, ◌&&◌, ◌||◌, Option, none, some, [], if◌then◌else◌,
  Bytes, ◌≡◌,
}
use angie_guardian.Prelude.Int.{ℤ, pos, negsuc}
use angie_guardian.Prelude.Float.{Float}
use angie_guardian.Attack.State.{
  Level, normal, elevated, attack, rank, level_lt, no_reason, empty_bucket, Config, Signals,
  Detector, apply_config,
}
use angie_guardian.Attack.Signals.{window_signals, push_bucket}
use angie_guardian.Attack.Machine.{evaluate, recompute}

-- How a call of the vote interface ends; `unsupported` is ErrCapabilityUnsupported.
pub data VoteCall : Type 0 where
  vote_ok unsupported vote_failed : VoteCall

abbrev pub is_ok : VoteCall → Bool
is_ok vote_ok = true
is_ok unsupported = false
is_ok vote_failed = false

abbrev pub is_unsupported : VoteCall → Bool
is_unsupported vote_ok = false
is_unsupported unsupported = true
is_unsupported vote_failed = false

-- store.PostureVotes on a store state S, and what the detector relies on: after a delete that
-- succeeds, and after a call that is unsupported, the store holds no vote of the replica; a failed
-- delete and a read make no vote.
pub record PostureVotes (S : Type 0) : Type 0 where
  pub set_vote : S → ℕ → Bytes → ℕ → ℤ → S × VoteCall
  pub delete_vote : S → Bytes → S × VoteCall
  pub max_of : S → ℕ → Bytes → S × Option ℤ
  pub vote_of : S → Bytes → Option ℕ
  pub set_unsupported :
      (s : S) (now : ℕ) (id : Bytes) (level : ℕ) (ttl : ℤ)
      → (set_vote s now id level ttl).1 ≡ unsupported
      → vote_of (set_vote s now id level ttl).0 id ≡ none
  pub delete_removes :
      (s : S) (id : Bytes)
      → is_ok (delete_vote s id).1 || is_unsupported (delete_vote s id).1 ≡ true
      → vote_of (delete_vote s id).0 id ≡ none
  pub delete_keeps :
      (s : S) (id : Bytes) → vote_of s id ≡ none → vote_of (delete_vote s id).0 id ≡ none
  pub max_keeps :
      (s : S) (now : ℕ) (exclude id : Bytes)
      → vote_of s id ≡ none
      → vote_of (max_of s now exclude).0 id ≡ none

-- The peer level that is adopted from a number that the store returns.
unfoldable pub adopted : Option ℤ → Level
adopted none = normal
adopted (some (pos zero)) = normal
adopted (some (pos (suc zero))) = elevated
adopted (some (pos (suc (suc zero)))) = attack
adopted (some (pos (suc (suc (suc n))))) = normal
adopted (some (negsuc n)) = normal

abbrev pub fresh_signals : (fl : Float) → Signals fl
fresh_signals fl = record {
  challenges = fl.of_nat 0;
  requests = fl.of_nat 0;
  solve_ratio = fl.of_nat 0;
  store_error_ratio = fl.of_nat 0;
  store_slow_ratio = fl.of_nat 0;
}

-- `New`
unfoldable pub new_detector : (fl : Float) → Config fl → ℕ → Detector fl
unfolding apply_config
new_detector fl cfg now =
    apply_config fl
      (record {
        cfg = cfg;
        totals = empty_bucket;
        prev = empty_bucket;
        ring = [];
        ring_pos = 0;
        ring_full = false;
        state = record {
          level = normal;
          extra_bits = pos 0;
          cap_bits = pos 0;
          force_always = false;
          stateless = false;
          since = now;
          reason = no_reason;
        };
        last_above = record { above_normal = 0; above_elevated = 0; above_attack = 0 };
        local_level = normal;
        pinned = false;
        pin_level = normal;
        pin_until = 0;
        sig = fresh_signals fl;
        vote_live = false;
        transitions = [];
      })
      cfg

-- `Evaluated`, `ChallengeIssued` and `ChallengeRedeemed`.
unfoldable pub evaluated : {fl : Float} → Detector fl → Detector fl
evaluated d = record d { totals = record (d.totals) { evals = d.totals.evals + 1 } }

unfoldable pub challenge_issued : {fl : Float} → Detector fl → Detector fl
challenge_issued d = record d { totals = record (d.totals) { issued = d.totals.issued + 1 } }

unfoldable pub challenge_redeemed : {fl : Float} → Detector fl → Detector fl
challenge_redeemed d = record d { totals = record (d.totals) { redeemed = d.totals.redeemed + 1 } }

-- `StoreOp`, with its tests on the error and on the time already taken.
unfoldable pub store_op : {fl : Float} → Detector fl → Bool → Bool → Detector fl
store_op d failed slow = record d {
  totals = record (d.totals) {
    store_ops = d.totals.store_ops + 1;
    store_errs = if failed then d.totals.store_errs + 1 else d.totals.store_errs;
    store_slow_ops = if slow then d.totals.store_slow_ops + 1 else d.totals.store_slow_ops;
  };
}

-- `Pinned`
unfoldable pub pinned_level : {fl : Float} → Detector fl → Level × Bool
pinned_level d = if d.pinned then (d.pin_level, true) else (normal, false)

-- The end of a pin of the given ttl; 0 is none.
abbrev pub pin_time : ℤ → ℕ → ℕ
pin_time (pos zero) now = 0
pin_time (pos (suc t)) now = now + suc t
pin_time (negsuc t) now = 0

-- `backend` is none for a nil store and for one without the interface; `self` is the instance id.
module _ (fl : Float) {S : Type 0} (backend : Option (PostureVotes S)) (self : Bytes) where
  unfoldable pub clear_shared_vote : Detector fl → S → Detector fl × S
  clear_shared_vote d s =
      if d.vote_live
      then (elim backend [
        | none ↦ (d, s)
        | some votes ↦
            let (s', call) = votes.delete_vote s self in
            (record d { vote_live = d.vote_live && not (is_ok call) }, s')
      ])
      else (d, s)

  unfoldable pub publish_vote : PostureVotes S → Detector fl → S → Level → ℕ → Detector fl × S
  publish_vote votes d s local now =
      if level_lt normal local
      then (let (s', call) = votes.set_vote s now self (rank local) d.cfg.window in
          (record d { vote_live = not (is_unsupported call) }, s'))
      else (let (s', call) = votes.delete_vote s self in
          (
            record d {
              vote_live = if is_ok call || is_unsupported call then false else d.vote_live;
            },
            s',
          ))

  unfoldable pub share_posture : Detector fl → S → Level → ℕ → (Detector fl × S) × Level
  unfolding clear_shared_vote publish_vote adopted
  share_posture d s local now = elim backend [
    | none ↦ ((d, s), normal)
    | some votes ↦
        if d.pinned || (not d.cfg.enabled || not d.cfg.share_posture)
        then (clear_shared_vote d s, normal)
        else (let (d', s') = publish_vote votes d s local now in
            let (s'', level) = votes.max_of s' now self in ((d', s''), adopted level))
  ]

  -- The first half of `tick`: a bucket goes into the ring, and the window is measured.
  unfoldable pub measure : Detector fl → Detector fl
  unfolding push_bucket window_signals
  measure d = record (push_bucket fl d) { sig = window_signals fl (push_bucket fl d) }

  -- The peer level of a tick, or the withdrawal of the vote.
  unfoldable pub hear_peers : Detector fl → S → ℕ → (Detector fl × S) × Level
  unfolding share_posture clear_shared_vote
  hear_peers d s now =
      if d.cfg.enabled && (d.cfg.share_posture && not d.pinned)
      then share_posture d s d.local_level now
      else (clear_shared_vote d s, normal)

  unfoldable pub tick : Detector fl → S → ℕ → Detector fl × S
  unfolding measure hear_peers evaluate
  tick d s now =
      let ((d', s'), peer) = hear_peers (measure d) s now in
      (evaluate fl d' d'.cfg d'.sig (pos (rank peer)) now, s')

  unfoldable pub pin : Detector fl → S → Level → ℤ → ℕ → Detector fl × S
  unfolding recompute clear_shared_vote
  pin d s level ttl now =
      let d' = record d { pinned = true; pin_level = level; pin_until = pin_time ttl now } in
      clear_shared_vote (recompute fl d' now) s

  unfoldable pub unpin : Detector fl → ℕ → Detector fl
  unfolding recompute
  unpin d now = recompute fl (record d { pinned = false }) now

  unfoldable pub set_config : Detector fl → S → Config fl → Detector fl × S
  unfolding apply_config clear_shared_vote
  set_config d s cfg =
      if not cfg.enabled || not cfg.share_posture
      then clear_shared_vote (apply_config fl d cfg) s
      else (apply_config fl d cfg, s)

  -- `Close`, after the ticker has stopped.
  unfoldable pub close : Detector fl → S → Detector fl × S
  unfolding clear_shared_vote
  close d s = clear_shared_vote d s
