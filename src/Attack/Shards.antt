-- ===== src/Attack/Shards.antt =====
-- The posture votes of core/store/sharded_memory.go as the vote interface of the detector.
use angie_guardian.Prelude.{
  ℕ, ◌≡◌, refl, ap, Bool, Option, none, some, [], ◌∷◌, arith, Bytes, bytes_eq_iff, bytes_key,
}
use angie_guardian.Prelude.Int.{pos}
use angie_guardian.Prelude.Assoc.{Map, lookup, delete, retain, lookup-delete}
use angie_guardian.Store.{StoreError}
use angie_guardian.Memory.State.{PostureVote, ShardedMemory}
use angie_guardian.Memory.Scan.{set_posture_vote, delete_posture_vote, max_posture_vote}
use angie_guardian.Attack.Share.{VoteCall, vote_ok, unsupported, vote_failed, PostureVotes}

abbrev pub level_in : Option PostureVote → Option ℕ
level_in none = none
level_in (some v) = some v.level

pub level_in-none : (o : Option PostureVote) → level_in o ≡ none → o ≡ none
level_in-none none h = refl
level_in-none (some v) h = cc

abbrev pub call_of : Option StoreError → VoteCall
call_of none = vote_ok
call_of (some e) = vote_failed

pub call_supported : (o : Option StoreError) → call_of o ≡ unsupported → ⊥
call_supported none h = cc
call_supported (some e) h = cc

pub retain-none :
    (keep : Bytes → PostureVote → Bool) (k : Bytes) (m : Map Bytes PostureVote)
    → lookup k m ≡ none
    → lookup k (retain keep m) ≡ none
unfolding lookup retain
retain-none keep k [] h = refl
retain-none keep k ((j, v) ∷ m) h = ground (arith, bytes_eq_iff j k, retain-none keep k m)

pub delete-none : (k : Bytes) (m : Map Bytes PostureVote) → lookup k (delete k m) ≡ none
delete-none k m = rw lookup-delete (ground (arith, bytes_eq_iff k k))

unfoldable pub sharded_votes : PostureVotes ShardedMemory
unfolding set_posture_vote delete_posture_vote max_posture_vote
sharded_votes = record {
  set_vote = λ s now id level ttl.
      ((set_posture_vote s now id level ttl).0, call_of (set_posture_vote s now id level ttl).1);
  delete_vote = λ s id. (delete_posture_vote s id, vote_ok);
  max_of = λ s now exclude.
      ((max_posture_vote s now exclude).0, some (pos (max_posture_vote s now exclude).1));
  vote_of = λ s id. level_in (lookup id s.central.posture_votes);
  set_unsupported =
      λ s now id level ttl h. absurd (call_supported (set_posture_vote s now id level ttl).1 h);
  delete_removes = λ s id h. ap level_in (delete-none id s.central.posture_votes);
  delete_keeps = λ s id h. ap level_in (delete-none id s.central.posture_votes);
  max_keeps = λ s now exclude id h. ap level_in (
      retain-none _ id s.central.posture_votes
        (level_in-none (lookup id s.central.posture_votes) h));
}
