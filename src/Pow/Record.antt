-- ===== src/Pow/Record.antt =====
-- core/pow/challenge_record.go: the binary record of an issued challenge.
mod Layout
pub mod Parsed
pub mod States
pub mod RoundTrip
use Prim.Native.Nat.{bit_and}
use angie_guardian.Prelude.{
  ℕ, ◌+◌, ◌-◌, ◌%◌, ◌^◌, Bool, true, false, not, ◌||◌, Option, none, some, List, [], ◌∷◌, ◌++◌,
  Bytes, bytes_eq, ltb, leb, ◌=ℕ◌, if◌then◌else◌, length, get_or, take, drop, slice, replicate,
}
use angie_guardian.Prelude.Int.{ℤ, pos, negsuc, pos_part, ltb_ℤ}
use angie_guardian.Prelude.Int64.{wrap64}
use angie_guardian.Pow.Words.{
  Attempt, done, failed, append_uint32, append_uint64, uint32_of, uint64_of, unsigned,
}
use angie_guardian.Pow.Proof.{
  Algorithm, unset, argon2id, ProofSpec, SpecError, effective, validate, argon2_salt_size,
}

-- The Go strings "issued" and "spent", and any other.
pub data RecordState : Type 0 where
  issued spent : RecordState
  other_state : Bytes → RecordState

pub record Record : Type 0 where
  pub state : RecordState
  pub host : Bytes
  pub ip : Bytes
  pub challenge_digest : Bytes
  pub algorithm : Algorithm
  pub difficulty : ℤ
  pub memory_kib : ℕ
  pub iterations : ℕ
  pub salt : Bytes
  pub uri : Bytes
  pub no_js : Bool
  pub issued_at : ℤ

-- The messages of `errChallengeRecord`.
pub data RecordError : Type 0 where
  unknown_state difficulty_too_wide field_too_long record_too_large size_differs : RecordError
  spec_refused : SpecError → RecordError
  magic_missing truncated_version unknown_version too_short unknown_flags : RecordError
  lengths_differ : RecordError

unfoldable pub proof_spec : Record → ProofSpec
proof_spec r = record {
  algorithm = r.algorithm;
  difficulty = r.difficulty;
  memory_kib = r.memory_kib;
  iterations = r.iterations;
  salt = r.salt;
}

unfoldable pub binary_record_state : RecordState → Option ℕ
binary_record_state issued = some 1
binary_record_state spent = some 2
binary_record_state (other_state name) = none

unfoldable pub logical_record_state : ℕ → Option RecordState
logical_record_state b = if b =ℕ 1 then some issued else if b =ℕ 2 then some spent else none

-- "AGCR"
abbrev pub magic : Bytes
magic = b'A' ∷ b'G' ∷ b'C' ∷ b'R' ∷ []

abbrev pub fixed_size : ℕ
fixed_size = 60

abbrev pub v2_fixed_size : ℕ
v2_fixed_size = 84

abbrev pub max_field_size : ℕ
max_field_size = 2 ^ 32 - 1

abbrev pub max_int : ℕ
max_int = 2 ^ 63 - 1

abbrev pub flags_of : Bool → ℕ
flags_of true = 1
flags_of false = 0

-- `byte(v)` of an int.
abbrev pub low_byte : ℤ → ℕ
low_byte (pos n) = n % 256
low_byte (negsuc n) = 255 - n % 256

abbrev pub payload_size : Record → ℕ
payload_size r = length r.host + length r.ip + length r.uri

abbrev pub field_exceeds : Record → Bool
field_exceeds r =
    ltb max_field_size (length r.host)
    || (ltb max_field_size (length r.ip) || ltb max_field_size (length r.uri))

-- The three length fields, then the three texts.
unfoldable pub append_fields : Record → Bytes
unfolding append_uint32
append_fields r =
    append_uint32 (length r.host)
      (append_uint32 (length r.ip) (append_uint32 (length r.uri) (r.host ++ (r.ip ++ r.uri))))

-- The bytes after the magic, the version and the state, in version 1.
unfoldable pub body_v1 : Record → Bytes
unfolding append_uint64
body_v1 r =
    flags_of r.no_js
    ∷ low_byte r.difficulty
    ∷ append_uint64 (unsigned r.issued_at) (r.challenge_digest ++ append_fields r)

unfoldable pub body_v2 : Record → Bytes
unfolding append_uint64
body_v2 r =
    flags_of r.no_js
    ∷ 1
    ∷ 0
    ∷ r.iterations % 256
    ∷ 0
    ∷ 0
    ∷ append_uint64 (unsigned r.issued_at)
        (r.challenge_digest ++ (r.salt ++ append_uint32 r.memory_kib (append_fields r)))

unfoldable pub headed : ℕ → ℕ → Bytes → Bytes
headed version state body = magic ++ (version ∷ state ∷ body)

-- The tests of the sizes, which both versions make.
unfoldable pub sized : ℕ → Record → Bytes → Attempt RecordError Bytes
sized fixed r encoded =
    if field_exceeds r
    then failed field_too_long
    else if ltb (max_int - fixed) (payload_size r)
    then failed record_too_large
    else if not (length encoded =ℕ fixed + payload_size r)
    then failed size_differs
    else done encoded

unfoldable pub encode_v2 : Record → Attempt RecordError Bytes
unfolding headed body_v2 sized
encode_v2 r = elim (binary_record_state r.state) [
  | none ↦ failed unknown_state
  | some state ↦ elim (validate (proof_spec r)) [
    | some refused ↦ failed (spec_refused refused)
    | none ↦ sized v2_fixed_size r (headed 2 state (body_v2 r))
  ]
]

unfoldable pub encode_v1 : Record → Attempt RecordError Bytes
unfolding headed body_v1 sized
encode_v1 r = elim (binary_record_state r.state) [
  | none ↦ failed unknown_state
  | some state ↦
      if ltb_ℤ r.difficulty (pos 0) || ltb_ℤ (pos 255) r.difficulty
      then failed difficulty_too_wide
      else sized fixed_size r (headed 1 state (body_v1 r))
]

-- `encodeChallengeRecord`
unfoldable pub encode : Record → Attempt RecordError Bytes
unfolding encode_v1 encode_v2
encode r = elim (effective r.algorithm) [ argon2id ↦ encode_v2 r | _ ↦ encode_v1 r ]

abbrev pub zero_salt : Bytes
zero_salt = replicate argon2_salt_size 0

-- The record that the bytes of version 1 hold, once the tests have passed.
unfoldable pub parsed_v1 : RecordState → Bytes → ℕ → ℕ → ℕ → Record
parsed_v1 state raw host_len ip_len uri_len =
    let ip_at = fixed_size + host_len in
    let uri_at = ip_at + ip_len in
    record {
      state = state;
      host = slice raw fixed_size ip_at;
      ip = slice raw ip_at uri_at;
      challenge_digest = slice raw 16 48;
      algorithm = unset;
      difficulty = pos (get_or raw 7 0);
      memory_kib = 0;
      iterations = 0;
      salt = zero_salt;
      uri = slice raw uri_at (uri_at + uri_len);
      no_js = not (bit_and (get_or raw 6 0) 1 =ℕ 0);
      issued_at = wrap64 (pos (uint64_of (slice raw 8 16)));
    }

unfoldable pub parsed_v2 : RecordState → Bytes → ℕ → ℕ → ℕ → Record
parsed_v2 state raw host_len ip_len uri_len =
    let ip_at = v2_fixed_size + host_len in
    let uri_at = ip_at + ip_len in
    record {
      state = state;
      host = slice raw v2_fixed_size ip_at;
      ip = slice raw ip_at uri_at;
      challenge_digest = slice raw 20 52;
      algorithm = argon2id;
      difficulty = pos 0;
      memory_kib = uint32_of (slice raw 68 72);
      iterations = get_or raw 9 0;
      salt = slice raw 52 68;
      uri = slice raw uri_at (uri_at + uri_len);
      no_js = not (bit_and (get_or raw 6 0) 1 =ℕ 0);
      issued_at = wrap64 (pos (uint64_of (slice raw 12 20)));
    }

abbrev pub has_unknown_flags : ℕ → Bool
has_unknown_flags flags = not (bit_and flags 0xfe =ℕ 0)

-- The tests of version 2 that come before the fields.
abbrev pub unsupported_v2 : Bytes → Bool
unsupported_v2 raw =
    has_unknown_flags (get_or raw 6 0)
    || (not (get_or raw 7 0 =ℕ 1) || (not (get_or raw 10 0 =ℕ 0) || not (get_or raw 11 0 =ℕ 0)))

-- The tests of the flags and of the lengths, in this order.
unfoldable pub guarded : Bool → Bool → Attempt RecordError Record → Attempt RecordError Record
guarded bad_flags bad_lengths next =
    if bad_flags then failed unknown_flags else if bad_lengths then failed lengths_differ else next

unfoldable pub validated : Record → Attempt RecordError Record
validated r = elim (validate (proof_spec r)) [
  | some refused ↦ failed (spec_refused refused)
  | none ↦ done r
]

unfoldable pub decode_v2 : Bytes → Attempt RecordError Record
unfolding parsed_v2 guarded validated
decode_v2 raw =
    if ltb (length raw) v2_fixed_size
    then failed too_short
    else elim (logical_record_state (get_or raw 5 0)) [
      | none ↦ failed unknown_state
      | some state ↦
          let host_len = uint32_of (slice raw 72 76) in
          let ip_len = uint32_of (slice raw 76 80) in
          let uri_len = uint32_of (slice raw 80 84) in
          guarded (unsupported_v2 raw)
            (not (host_len + ip_len + uri_len =ℕ length raw - v2_fixed_size))
            (validated (parsed_v2 state raw host_len ip_len uri_len))
    ]

unfoldable pub decode_v1 : Bytes → Attempt RecordError Record
unfolding parsed_v1 guarded
decode_v1 raw =
    if ltb (length raw) fixed_size
    then failed too_short
    else elim (logical_record_state (get_or raw 5 0)) [
      | none ↦ failed unknown_state
      | some state ↦
          let host_len = uint32_of (slice raw 48 52) in
          let ip_len = uint32_of (slice raw 52 56) in
          let uri_len = uint32_of (slice raw 56 60) in
          guarded (has_unknown_flags (get_or raw 6 0))
            (not (host_len + ip_len + uri_len =ℕ length raw - fixed_size))
            (done (parsed_v1 state raw host_len ip_len uri_len))
    ]

-- `decodeBinaryChallengeRecord`
unfoldable pub decode_binary : Bytes → Attempt RecordError Record
unfolding decode_v1 decode_v2
decode_binary raw =
    if leb (length raw) 4
    then failed truncated_version
    else if get_or raw 4 0 =ℕ 2
    then decode_v2 raw
    else if not (get_or raw 4 0 =ℕ 1)
    then failed unknown_version
    else decode_v1 raw

-- `decodeChallengeRecord`
unfoldable pub decode : Bytes → Attempt RecordError Record
unfolding decode_binary
decode raw =
    if ltb (length raw) 4 || not (bytes_eq (take 4 raw) magic)
    then failed magic_missing
    else decode_binary raw
