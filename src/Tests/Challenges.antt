-- ===== src/Tests/Challenges.antt =====
-- Runs of core/pow: an issue, its redemption, and a second one.
use angie_guardian.Prelude.{
  ◌≡◌, refl, arith, true, false, none, some, List, [], ◌∷◌, ◌++◌, Bytes, bytes_eq, replicate,
}
use angie_guardian.Prelude.Int64.{wrap64}
use angie_guardian.Prelude.Int.{pos, ◌≤ℤ◌}
use angie_guardian.Memory.State.{
  Entry, expired, with_shard_map, expiry, passed, is_central, get_shard, shard_map, shard_for,
  fnv1a32,
}
use angie_guardian.Memory.Ops.{compare_and_swap, get}
use angie_guardian.Prelude.Assoc.{lookup, insert}
use angie_guardian.Memory.View.{view}
use angie_guardian.Memory.Trace.{run}
use angie_guardian.Pow.Words.{
  Attempt, done, failed, hex_encode, uint32_of, uint64_of, append_uint32, append_uint64, unsigned,
}
use angie_guardian.Pow.Proof.{unset, sha256, argon2id, ProofSpec, validate}
use angie_guardian.Pow.Record.{
  Record, issued, encode, encode_v1, proof_spec, headed, body_v1, append_fields, sized,
  binary_record_state, zero_salt, magic, decode, decode_binary, decode_v1, logical_record_state,
  guarded, parsed_v1,
}
use angie_guardian.Pow.Record.Parsed.{Fits}
use angie_guardian.Pow.Record.RoundTrip.{stored, decode-encode}
use angie_guardian.Pow.Escalation.{Names, Counters}
use angie_guardian.Pow.Manager.{
  Services, Manager, PowError, host_mismatch, challenge_key, challenge_key_prefix,
}
use angie_guardian.Pow.Issue.{
  Challenge, Draws, issue_with_spec, challenge_from_spec, issued_record, digest_of,
}
use angie_guardian.Pow.Redeem.{
  RedeemRequest, RedeemResult, redeem_solved, redeemed, redeem, checked, bound_record, proved,
  searched, finish, spend, leading_zero_bits, leading_zeros8,
}
use angie_guardian.Pow.Redeem.Once.{spend_once}
use angie_guardian.Pow.Redeem.Sound.{Earned, redeem-Earned, redeem_keeps}
use angie_guardian.Pow.Redeem.Issued.{issued_redeems}
use angie_guardian.Pow.Redeem.ZeroBits.{zeros, bits, leading_zero_bits-zeros}
use angie_guardian.Tests.Data.{cells, key, store, store-Bounded}

-- A hash with 23 leading zero bits, whatever it is of.
abbrev pub services : Services
services = record {
  uuid_text = λ id. some id;
  equal_fold = bytes_eq;
  to_lower = λ host. host;
  format_int = λ n. 48 ∷ [];
  sum256 = λ message. 0 ∷ 0 ∷ 1 ∷ [];
  hmac = λ secret message. replicate 32 7;
  hmac_size = λ secret message. refl;
  id_key = λ text salt iterations memory. replicate 32 0;
  mint = λ host ip agent id policy life. some (116 ∷ []);
}

abbrev pub names : Names
names = record {
  to_lower = λ host. host;
  trim_space = λ host. host;
  split_host_port = λ host. none;
  unmapped = λ ip. none;
}

abbrev pub counters : Counters (List Bytes)
counters = record {
  incr = λ c k window. (k ∷ c, pos 1);
  forget = λ c k. [];
  forget_sync = λ c k. ([], true);
}

abbrev pub manager : Manager (List Bytes)
manager = record { store = store; counters = []; secret = 1 ∷ []; no_js_min_delay = pos 5 }

abbrev draws : Draws
draws = record { id = 105 ∷ []; salt = replicate 16 3 }

abbrev pub spec : ProofSpec
spec = record {
  algorithm = sha256;
  difficulty = pos 20;
  memory_kib = 0;
  iterations = 0;
  salt = replicate 16 0;
}

abbrev issue : Manager (List Bytes) × Attempt PowError Challenge
issue =
    issue_with_spec services manager 10 draws (104 ∷ []) (49 ∷ []) (47 ∷ []) spec (pos 100) false

abbrev shown : Challenge
shown = challenge_from_spec (105 ∷ []) (hex_encode (replicate 32 7)) spec

abbrev pub request : RedeemRequest
request = record {
  challenge_id = 105 ∷ [];
  nonce = 53 ∷ [];
  proof = [];
  no_js = false;
  host = 104 ∷ [];
  ip = 49 ∷ [];
  user_agent = [];
  token_ttl = pos 60;
  challenge_ttl = pos 100;
  ttls = none;
  acquire_no_js = none;
  acquire_argon = none;
}

leading_zero_bits-zeros_example : leading_zero_bits (0 ∷ 0 ∷ 1 ∷ []) ≡ zeros (bits (0 ∷ 0 ∷ 1 ∷ []))
leading_zero_bits-zeros_example =
    leading_zero_bits-zeros (0 ∷ 0 ∷ 1 ∷ []) (omega arith, (omega arith, (omega arith, tt)))

issue_ok : issue ≡ (issue.0, done shown)
unfolding issue_with_spec validate issued_record digest_of challenge_from_spec hex_encode encode
    encode_v1 proof_spec headed body_v1 append_fields append_uint64 append_uint32 sized
    binary_record_state unsigned compare_and_swap is_central challenge_key get_shard shard_map
    shard_for fnv1a32 lookup
issue_ok = refl

kept : passed (expiry 10 (pos 100)) 50 ≡ false
unfolding passed expiry
kept = refl

same_store : issue.0.store ≡ run cells issue.0.store []
unfolding run
same_store = refl

pub work : pos 20 ≤ℤ pos (leading_zero_bits (0 ∷ 0 ∷ 1 ∷ []))
unfolding leading_zero_bits leading_zeros8
work = omega arith

issued_redeems_example :
    (res : RedeemResult) × ((redeem services names counters issue.0 50 request).1 ≡ done res)
    × (res.outcome ≡ redeem_solved)
    × (res.token ≡ 116 ∷ [])
    × (res.redirect_uri ≡ 47 ∷ [])
issued_redeems_example =
    issued_redeems services names counters manager issue.0 issue.0 10 50 draws (104 ∷ []) (49 ∷ [])
      (47 ∷ []) spec (pos 100) false shown cells [] request (116 ∷ []) store-Bounded refl refl
      (omega arith) (omega arith) (omega arith) (omega arith) issue_ok (omega arith) kept tt
      same_store refl refl refl refl refl work (λ policy life. refl)

-- The record of the challenge as the store holds it, and its bytes.
abbrev held : Record
held = record {
  state = issued;
  host = 104 ∷ [];
  ip = 49 ∷ [];
  challenge_digest = replicate 32 7;
  algorithm = unset;
  difficulty = pos 20;
  memory_kib = 0;
  iterations = 0;
  salt = zero_salt;
  uri = 47 ∷ [];
  no_js = false;
  issued_at = pos 0;
}

abbrev texts : Bytes
texts = 0 ∷ 0 ∷ 0 ∷ 1 ∷ 0 ∷ 0 ∷ 0 ∷ 1 ∷ 0 ∷ 0 ∷ 0 ∷ 1 ∷ 104 ∷ 49 ∷ 47 ∷ []

abbrev raw : Bytes
raw = magic ++ (1 ∷ 1 ∷ 0 ∷ 20 ∷ (replicate 8 0 ++ (replicate 32 7 ++ texts)))

abbrev entry : Entry
entry = record { value = raw; expires_at = some 110 }

abbrev challenged : Manager (List Bytes)
challenged = record manager {
  store = record store {
    shards =
        ((challenge_key_prefix ++ (105 ∷ []), entry) ∷ [])
        ∷ ((challenge_key_prefix ++ (105 ∷ []), entry) ∷ [])
        ∷ [];
  };
}

decodes : decode raw ≡ done held
unfolding decode decode_binary decode_v1 logical_record_state guarded parsed_v1 uint32_of uint64_of
    wrap64
decodes = refl

won : (spend challenged 50 request raw held).1 ≡ none
unfolding spend challenge_key encode encode_v1 headed body_v1 append_fields append_uint64
    append_uint32 sized binary_record_state unsigned compare_and_swap is_central get_shard shard_map
    shard_for fnv1a32 lookup expired passed
won = refl

not_over : passed (expiry 50 (pos 100)) 60 ≡ false
unfolding passed expiry
not_over = refl

-- A second redemption that read the same record lost the race.
spend_once_example :
    (e : PowError) × ((spend
        (record (spend challenged 50 request raw held).0 {
          store = run cells (spend challenged 50 request raw held).0.store [];
        })
        60
        request
        raw
        held).1
      ≡ some e)
spend_once_example =
    spend_once challenged 50 request raw held (omega arith) won cells [] 60 request raw held
      (omega arith) not_over tt refl decodes refl

solves :
    (redeem services names counters challenged 50 request).1
    ≡ done (redeemed redeem_solved (116 ∷ []) (pos 60) [] held)
unfolding redeem checked bound_record proved searched leading_zero_bits leading_zeros8 finish get
    hex_encode spend challenge_key encode encode_v1 headed body_v1 append_fields append_uint64
    append_uint32 sized binary_record_state unsigned compare_and_swap is_central get_shard shard_map
    with_shard_map shard_for fnv1a32 lookup insert expired passed decode decode_binary decode_v1
    logical_record_state guarded parsed_v1 uint32_of uint64_of wrap64
solves = refl

redeem-Earned_example :
    Earned services challenged 50 request (redeemed redeem_solved (116 ∷ []) (pos 60) [] held)
redeem-Earned_example =
    redeem-Earned services names counters challenged 50 request (omega arith)
      (redeemed redeem_solved (116 ∷ []) (pos 60) [] held) solves

-- The same proof from another host.
abbrev elsewhere : RedeemRequest
elsewhere = record request { host = 120 ∷ [] }

fails : (redeem services names counters challenged 50 elsewhere).1 ≡ failed host_mismatch
unfolding redeem checked bound_record get challenge_key is_central get_shard shard_map shard_for
    fnv1a32 lookup expired passed decode decode_binary decode_v1 logical_record_state guarded
    parsed_v1 uint32_of uint64_of wrap64
fails = refl

redeem_keeps_example :
    (view (redeem services names counters challenged 50 elsewhere).0.store 60 key
      ≡ view challenged.store 60 key)
    × ((redeem services names counters challenged 50 elsewhere).0.counters ≡ challenged.counters)
redeem_keeps_example =
    redeem_keeps services names counters challenged 50 elsewhere (omega arith) host_mismatch 60 key
      fails (λ e. cc) (omega arith)

-- A policy of memory-hard work.
abbrev hard : Record
hard = record held {
  algorithm = argon2id;
  difficulty = pos 0;
  memory_kib = 16384;
  iterations = 2;
  no_js = true;
}

hard-Fits : Fits hard
hard-Fits = record {
  digest_size = refl;
  salt_size = refl;
  time_range = omega arith;
  host_size = omega arith;
  ip_size = omega arith;
  uri_size = omega arith;
}

decode-encode_example :
    (bytes : Bytes) × (encode hard ≡ done bytes) × (decode bytes ≡ done (stored hard))
unfolding validate proof_spec binary_record_state
decode-encode_example = decode-encode hard 1 hard-Fits refl refl
