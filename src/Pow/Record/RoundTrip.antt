-- ===== src/Pow/Record/RoundTrip.antt =====
-- core/pow/challenge_record.go: an encoded record decodes to the record that was issued.
use angie_guardian.Prelude.{
  ◌=ℕ◌, not, ℕ, ◌+◌, ◌-◌, ◌*◌, ◌||◌, ◌^◌, ◌≤◌, ◌<◌, ◌≡◌, refl, sym, ◌∙◌, true, false, none, some,
  inl, inr, arith, Bytes, length, get_or, take, leb, ltb, bytes_eq, if◌then◌else◌,
}
use angie_guardian.Prelude.Int.{ℤ, pos, negsuc, ltb_ℤ}
use angie_guardian.Pow.Words.{done, failed}
use angie_guardian.Pow.Proof.{
  unset, argon2id, effective, Algorithm-cases, validate-sha256, validate-argon2id, validate-unknown,
  difficulty_outside, memory_outside, iterations_outside, validate,
}
use angie_guardian.Pow.Record.{
  Record, RecordState, issued, spent, other_state, append_fields, body_v1, body_v2, headed,
  payload_size, fixed_size, v2_fixed_size, encode, encode_v1, encode_v2, decode, decode_v1,
  decode_v2, decode_binary, proof_spec, zero_salt, sized, binary_record_state, logical_record_state,
  max_int, field_exceeds, magic, unknown_version,
}
use angie_guardian.Pow.Record.Layout.{length-v1, length-v2}
use angie_guardian.Pow.Record.Parsed.{Fits, decode_v1_lem, decode_v2_lem}

-- What a record keeps of its policy: version 1 the difficulty, version 2 the Argon2id parameters.
unfoldable pub stored : Record → Record
stored r = elim (effective r.algorithm) [
  | argon2id ↦ record r { algorithm = argon2id; difficulty = pos 0 }
  | _ ↦ record r { algorithm = unset; memory_kib = 0; iterations = 0; salt = zero_salt }
]

state_kept :
    (state : RecordState) (code : ℕ)
    → binary_record_state state ≡ some code
    → logical_record_state code ≡ some state
unfolding binary_record_state logical_record_state
state_kept issued code h = ground (arith, h)
state_kept spent code h = ground (arith, h)
state_kept (other_state name) code h = absurd (cc)

sized_passes :
    (fixed : ℕ) (r : Record) (encoded : Bytes)
    → Fits r
    → fixed ≤ 84
    → length encoded ≡ fixed + payload_size r
    → sized fixed r encoded ≡ done encoded
unfolding sized
sized_passes fixed r encoded fits small size =
    let in_range : field_exceeds r ≡ false =
      ground (arith, fits.host_size, fits.ip_size, fits.uri_size) in
    let in_int : ltb (max_int - fixed) (payload_size r) ≡ false =
      ground (arith, fits.host_size, fits.ip_size, fits.uri_size) in
    let counted : (length encoded =ℕ fixed + payload_size r) ≡ true = ground arith in
    rw (in_range, in_int, counted) refl

header_long : (n : ℕ) → (ltb (6 + n) 4 ≡ false) × (leb (6 + n) 4 ≡ false)
header_long n = (ground arith, ground arith)

length-headed :
    (version code : ℕ) (body : Bytes) → length (headed version code body) ≡ 6 + length body
unfolding headed
length-headed version code body = omega arith

-- The version byte picks the decoder.
decode-headed :
    (version code : ℕ) (body : Bytes)
    → decode (headed version code body) ≡ (
        let raw = headed version code body in
        if version =ℕ 2
        then decode_v2 raw
        else if not (version =ℕ 1)
        then failed unknown_version
        else decode_v1 raw)
unfolding decode decode_binary
decode-headed version code body =
    let (short, cut) = header_long (length body) in
    let same : bytes_eq (take 4 (headed version code body)) magic ≡ true = unfold headed in refl in
    let version_at : get_or (headed version code body) 4 0 ≡ version = unfold headed in refl in
    rw (length-headed version code body, short, same, cut, version_at) refl

within_byte :
    (v : ℤ)
    → (if ltb_ℤ v (pos 0) || ltb_ℤ (pos 32) v then some difficulty_outside else none) ≡ none
    → (d : ℕ) × (v ≡ pos d) × (d < 256) × ((ltb_ℤ v (pos 0) || ltb_ℤ (pos 255) v) ≡ false)
within_byte (pos n) h = (n, refl, ground arith, ground arith)
within_byte (negsuc n) h = absurd (ground arith)

within_ranges :
    (memory iterations : ℕ)
    → (if ltb memory (8 * 1024) || ltb (32 * 1024) memory
        then some memory_outside
        else if ltb iterations 1 || ltb 3 iterations
        then some iterations_outside
        else none)
      ≡ none
    → (memory < 2 ^ 32) × (iterations < 256)
within_ranges memory iterations h = (ground arith, ground arith)

-- Take a record whose fields have the sizes of their Go types, whose state is known, whose texts
-- the length fields can count, and whose policy is valid. Its encoding succeeds, and the bytes
-- decode to what the version keeps of the record: all of it but the parameters of the other
-- algorithm, with the empty algorithm name for SHA-256.
pub decode-encode :
    (r : Record) (code : ℕ)
    → Fits r
    → binary_record_state r.state ≡ some code
    → validate (proof_spec r) ≡ none
    → (raw : Bytes) × (encode r ≡ done raw) × (decode raw ≡ done (stored r))
unfolding encode encode_v1 encode_v2 stored append_fields proof_spec
decode-encode r code fits known valid = elim (Algorithm-cases r.algorithm) [
  | inl sha ↦
      let (d, q, small, narrow) =
        within_byte r.difficulty (sym (validate-sha256 (proof_spec r) sha) ∙ valid) in
      (
        headed 1 code (body_v1 r),
        rw (sha, encode, encode_v1, known, narrow)
            (sized_passes fixed_size r _ fits (omega arith) (length-v1 r 1 code fits.digest_size)),
        decode-headed 1 code (body_v1 r)
            ∙ (decode_v1_lem r code fits r.state d (state_kept r.state code known) q small
                ∙ rw (sha, stored) refl),
      )
  | inr (inl argon) ↦
      let checks = sym (validate-argon2id (proof_spec r) argon) ∙ valid in
      let ranges = within_ranges r.memory_kib r.iterations checks in
      let again =
        validate-argon2id (proof_spec (record r { algorithm = argon2id; difficulty = pos 0 })) refl
        ∙ checks in
      (
        headed 2 code (body_v2 r),
        rw (argon, encode, encode_v2, known, valid)
            (sized_passes v2_fixed_size r _ fits (omega arith)
              (length-v2 r 2 code fits.digest_size fits.salt_size)),
        decode-headed 2 code (body_v2 r)
            ∙ (decode_v2_lem r code fits ranges.0 ranges.1 r.state (state_kept r.state code known)
                  again
                ∙ rw (argon, stored) refl),
      )
  | inr (inr (name, other)) ↦ absurd (cc (validate-unknown (proof_spec r) name other))
]
