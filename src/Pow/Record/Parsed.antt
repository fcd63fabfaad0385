-- ===== src/Pow/Record/Parsed.antt =====
-- core/pow/challenge_record.go: the fields that each version's decoder reads back.
use mathlib.Core.List.{append-nil}
use Prim.Native.Nat.{bit_and}
use angie_guardian.Prelude.{
  ◌=ℕ◌, not, ℕ, ◌+◌, ◌-◌, ◌%◌, ◌^◌, ◌≤◌, ◌<◌, ◌≡◌, refl, sym, ap, ◌∙◌, Bool, true, false, none,
  some, [], ◌++◌, arith, Bytes, length, get_or, take, drop, slice, ltb,
}
use angie_guardian.Prelude.Int.{ℤ, pos}
use angie_guardian.Prelude.Int64.{wrap64}
use angie_guardian.Pow.Words.{
  done, append_uint32, append_uint64, uint32_of, uint64_of, unsigned, IsInt64, wrap64-unsigned,
  unsigned-lt, uint64_of-append,
}
use angie_guardian.Pow.Proof.{unset, argon2id, validate}
use angie_guardian.Pow.Record.{
  Record, RecordState, append_fields, body_v1, body_v2, headed, payload_size, fixed_size,
  v2_fixed_size, flags_of, low_byte, decode_v1, decode_v2, parsed_v1, parsed_v2, proof_spec,
  zero_salt, logical_record_state, max_field_size, has_unknown_flags, unsupported_v2, guarded,
  validated,
}
use angie_guardian.Pow.Record.Layout.{
  slice_at, drop_past, uint32_at, uint32_past, length-v1, length-v2,
}

-- The sizes that the Go types of the fields give, and texts that the length fields can count.
pub record Fits (r : Record) : Type 0 where
  pub digest_size : length r.challenge_digest ≡ 32
  pub salt_size : length r.salt ≡ 16
  pub time_range : IsInt64 r.issued_at
  pub host_size : length r.host ≤ max_field_size
  pub ip_size : length r.ip ≤ max_field_size
  pub uri_size : length r.uri ≤ max_field_size

-- The texts behind the fixed part, wherever that ends.
module _ (r : Record) (raw : Bytes) (end : ℕ)
    (texts : drop end raw ≡ r.host ++ (r.ip ++ r.uri)) where
  host_at : slice raw end (end + length r.host) ≡ r.host
  host_at = slice_at raw r.host _ _ _ texts (omega arith)

  after_host : drop (end + length r.host) raw ≡ r.ip ++ r.uri
  after_host = drop_past raw r.host _ _ _ texts (omega arith)

  ip_at : slice raw (end + length r.host) (end + length r.host + length r.ip) ≡ r.ip
  ip_at = slice_at raw r.ip _ _ _ after_host (omega arith)

  uri_at :
      slice raw
        (end + length r.host + length r.ip)
        (end + length r.host + length r.ip + length r.uri)
      ≡ r.uri
  uri_at =
      slice_at raw r.uri [] _ _
        (drop_past raw r.ip r.uri _ _ after_host (omega arith) ∙ sym (append-nil r.uri))
        (omega arith)

-- The three lengths and the three texts, wherever they start.
module _ (r : Record) (raw : Bytes) (a : ℕ) (at : drop a raw ≡ append_fields r)
    (fits : Fits r) where
  lengths_at :
      (uint32_of (slice raw a (4 + a)) ≡ length r.host)
      × (uint32_of (slice raw (4 + a) (8 + a)) ≡ length r.ip)
      × (uint32_of (slice raw (8 + a) (12 + a)) ≡ length r.uri)
      × (drop (12 + a) raw ≡ r.host ++ (r.ip ++ r.uri))
  unfolding append_fields
  lengths_at =
      let ip_next = uint32_past raw _ a (4 + a) (length r.host) at refl in
      let uri_next = uint32_past raw _ (4 + a) (8 + a) (length r.ip) ip_next (omega arith) in
      (
        uint32_at raw _ a (4 + a) (length r.host) at refl (omega (arith, fits.host_size)),
        uint32_at raw _ (4 + a) (8 + a) (length r.ip) ip_next (omega arith)
            (omega (arith, fits.ip_size)),
        uint32_at raw _ (8 + a) (12 + a) (length r.uri) uri_next (omega arith)
            (omega (arith, fits.uri_size)),
        uint32_past raw _ (8 + a) (12 + a) (length r.uri) uri_next (omega arith),
      )

flag_kept : (b : Bool) → not (bit_and (flags_of b) 1 =ℕ 0) ≡ b
flag_kept true = refl
flag_kept false = refl

flag_known : (b : Bool) → has_unknown_flags (flags_of b) ≡ false
flag_known true = refl
flag_known false = refl

time_kept :
    (v : ℤ) (rest : Bytes)
    → IsInt64 v
    → (wrap64 (pos (uint64_of (take 8 (append_uint64 (unsigned v) rest)))) ≡ v)
unfolding uint64_of append_uint64 uint32_of append_uint32
time_kept v rest h =
    ap (λ u. wrap64 (pos u)) (uint64_of-append (unsigned v) [] (unsigned-lt v))
    ∙ wrap64-unsigned v h

sizes_pass :
    (total fixed payload : ℕ)
    → total ≡ fixed + payload
    → (ltb total fixed ≡ false) × ((payload =ℕ total - fixed) ≡ true)
sizes_pass total fixed payload h = (ground arith, ground arith)

low_byte_kept : (v : ℤ) (d : ℕ) → v ≡ pos d → d < 256 → pos (low_byte v) ≡ v
low_byte_kept v d q h = rw q (ap pos (omega arith))

module _ (r : Record) (code : ℕ) (fits : Fits r) where
  abbrev raw_v1 : Bytes
  raw_v1 = headed 1 code (body_v1 r)

  fields_v1 : drop 48 raw_v1 ≡ append_fields r
  unfolding headed body_v1 append_uint64 append_uint32
  fields_v1 = drop_past raw_v1 r.challenge_digest _ 16 48 refl (omega (arith, fits.digest_size))

  digest_v1 : slice raw_v1 16 48 ≡ r.challenge_digest
  unfolding headed body_v1 append_uint64 append_uint32
  digest_v1 = slice_at raw_v1 r.challenge_digest _ 16 48 refl (omega (arith, fits.digest_size))

  time_v1 : wrap64 (pos (uint64_of (slice raw_v1 8 16))) ≡ r.issued_at
  unfolding headed body_v1 append_uint64 append_uint32
  time_v1 = unfold append_uint64 append_uint32 in time_kept r.issued_at [] fits.time_range

  parsed_v1_lem :
      (state : RecordState) (d : ℕ)
      → r.difficulty ≡ pos d
      → d < 256
      → parsed_v1 state raw_v1 (length r.host) (length r.ip) (length r.uri) ≡ record r {
        state = state;
        algorithm = unset;
        memory_kib = 0;
        iterations = 0;
        salt = zero_salt;
      }
  unfolding parsed_v1 headed body_v1
  parsed_v1_lem state d q h =
      let texts = (lengths_at r raw_v1 48 fields_v1 fits).3 in
      rw
        (
          host_at r raw_v1 60 texts,
          ip_at r raw_v1 60 texts,
          uri_at r raw_v1 60 texts,
          digest_v1,
          time_v1,
          flag_kept r.no_js,
          low_byte_kept r.difficulty d q h,
        )
        refl

  pub decode_v1_lem :
      (state : RecordState) (d : ℕ)
      → logical_record_state code ≡ some state
      → r.difficulty ≡ pos d
      → d < 256
      → decode_v1 raw_v1
        ≡ done (record r {
          state = state;
          algorithm = unset;
          memory_kib = 0;
          iterations = 0;
          salt = zero_salt;
        })
  unfolding decode_v1
  decode_v1_lem state d known q h =
      let (host_len, ip_len, uri_len, _) = lengths_at r raw_v1 48 fields_v1 fits in
      let size : length raw_v1 ≡ fixed_size + payload_size r =
        length-v1 r 1 code fits.digest_size in
      let flags : has_unknown_flags (get_or raw_v1 6 0) ≡ false =
        unfold headed body_v1 in flag_known r.no_js in
      let code_at : get_or raw_v1 5 0 ≡ code = unfold headed in refl in
      let (long, counted) = sizes_pass _ _ _ size in
      rw (long, code_at, known, guarded, flags, host_len, ip_len, uri_len, counted)
        (ap done (parsed_v1_lem state d q h))

module _ (r : Record) (code : ℕ) (fits : Fits r) (memory : r.memory_kib < 2 ^ 32)
    (iterations : r.iterations < 256) where
  abbrev raw_v2 : Bytes
  raw_v2 = headed 2 code (body_v2 r)

  salt_next : drop 52 raw_v2 ≡ r.salt ++ append_uint32 r.memory_kib (append_fields r)
  unfolding headed body_v2 append_uint64 append_uint32
  salt_next = drop_past raw_v2 r.challenge_digest _ 20 52 refl (omega (arith, fits.digest_size))

  memory_next : drop 68 raw_v2 ≡ append_uint32 r.memory_kib (append_fields r)
  memory_next = drop_past raw_v2 r.salt _ 52 68 salt_next (omega (arith, fits.salt_size))

  fields_v2 : drop 72 raw_v2 ≡ append_fields r
  fields_v2 = uint32_past raw_v2 _ 68 72 r.memory_kib memory_next refl

  digest_v2 : slice raw_v2 20 52 ≡ r.challenge_digest
  unfolding headed body_v2 append_uint64 append_uint32
  digest_v2 = slice_at raw_v2 r.challenge_digest _ 20 52 refl (omega (arith, fits.digest_size))

  time_v2 : wrap64 (pos (uint64_of (slice raw_v2 12 20))) ≡ r.issued_at
  unfolding headed body_v2 append_uint64 append_uint32
  time_v2 = unfold append_uint64 append_uint32 in time_kept r.issued_at [] fits.time_range

  parsed_v2_lem :
      (state : RecordState)
      → parsed_v2 state raw_v2 (length r.host) (length r.ip) (length r.uri)
        ≡ record r { state = state; algorithm = argon2id; difficulty = pos 0 }
  unfolding parsed_v2 headed body_v2
  parsed_v2_lem state =
      let texts = (lengths_at r raw_v2 72 fields_v2 fits).3 in
      let small : r.iterations % 256 ≡ r.iterations = omega (arith, iterations) in
      rw
        (
          host_at r raw_v2 84 texts,
          ip_at r raw_v2 84 texts,
          uri_at r raw_v2 84 texts,
          digest_v2,
          time_v2,
          flag_kept r.no_js,
          slice_at raw_v2 r.salt _ 52 68 salt_next (omega (arith, fits.salt_size)),
          uint32_at raw_v2 _ 68 72 r.memory_kib memory_next refl memory,
          small,
        )
        refl

  pub decode_v2_lem :
      (state : RecordState)
      → logical_record_state code ≡ some state
      → validate (proof_spec (record r { algorithm = argon2id; difficulty = pos 0 })) ≡ none
      → decode_v2 raw_v2
        ≡ done (record r { state = state; algorithm = argon2id; difficulty = pos 0 })
  unfolding decode_v2
  decode_v2_lem state known valid =
      let (host_len, ip_len, uri_len, _) = lengths_at r raw_v2 72 fields_v2 fits in
      let size : length raw_v2 ≡ v2_fixed_size + payload_size r =
        length-v2 r 2 code fits.digest_size fits.salt_size in
      let flags : unsupported_v2 raw_v2 ≡ false =
        unfold headed body_v2 in rw (flag_known r.no_js) refl in
      let code_at : get_or raw_v2 5 0 ≡ code = unfold headed in refl in
      let (long, counted) = sizes_pass _ _ _ size in
      let policy : Record = record r { state = state; algorithm = argon2id; difficulty = pos 0 } in
      let accepted : validate (proof_spec policy) ≡ none = unfold proof_spec in valid in
      rw
        (
          long,
          code_at,
          known,
          flags,
          host_len,
          ip_len,
          uri_len,
          counted,
          parsed_v2_lem state,
          guarded,
          validated,
        )
        (rw (accepted, host_len, ip_len, uri_len, parsed_v2_lem state) refl)
