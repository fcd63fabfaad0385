-- ===== src/Pow/Record/States.antt =====
-- core/pow/challenge_record.go: the state byte of an encoded record.
use angie_guardian.Prelude.{
  ℕ, ◌≡◌, sym, ap, ◌∙◌, Bool, true, false, some, inl, inr, arith, Bytes, get_or, Bool-cases,
  Option-cases, ltb, leb, not, ◌=ℕ◌, bytes_eq, take, slice, ◌+◌, ◌-◌, length, ◌||◌,
}
use angie_guardian.Prelude.Int.{pos, ltb_ℤ}
use angie_guardian.Pow.Words.{Attempt, done, uint32_of}
use angie_guardian.Pow.Proof.{validate, Algorithm-cases}
use angie_guardian.Pow.Record.{
  Record, spent, encode, encode_v1, encode_v2, decode, decode_v1, decode_v2, decode_binary, sized,
  headed, logical_record_state, binary_record_state, body_v1, body_v2, RecordError,
  has_unknown_flags, unsupported_v2, guarded, validated, fixed_size, v2_fixed_size, magic,
  proof_spec, parsed_v1, parsed_v2,
}

sized_same :
    (fixed : ℕ) (r : Record) (encoded raw : Bytes)
    → sized fixed r encoded ≡ done raw
    → encoded ≡ raw
unfolding sized
sized_same fixed r encoded raw h = ground (arith, h)

byte_after :
    (version code : ℕ) (body raw : Bytes) → headed version code body ≡ raw → get_or raw 5 0 ≡ code
unfolding headed
byte_after version code body raw h = ap (λ bytes. get_or bytes 5 0) (sym h)

v1_state :
    (r : Record) (raw : Bytes)
    → encode_v1 (record r { state = spent }) ≡ done raw
    → get_or raw 5 0 ≡ 2
unfolding encode_v1 binary_record_state
v1_state r raw h =
    let marker : Record = record r { state = spent } in
    elim (Bool-cases (ltb_ℤ r.difficulty (pos 0) || ltb_ℤ (pos 255) r.difficulty)) [
      | inl y ↦ absurd (cc (rw (y, encode_v1) at h))
      | inr n ↦
          byte_after 1 2 (body_v1 marker) raw
            (sized_same fixed_size marker _ raw (rw (n, encode_v1) at h))
    ]

v2_state :
    (r : Record) (raw : Bytes)
    → encode_v2 (record r { state = spent }) ≡ done raw
    → get_or raw 5 0 ≡ 2
unfolding encode_v2 binary_record_state
v2_state r raw h =
    let marker : Record = record r { state = spent } in
    elim (Option-cases (validate (proof_spec marker))) [
      | inl y ↦
          byte_after 2 2 (body_v2 marker) raw
            (sized_same v2_fixed_size marker _ raw (rw (y, encode_v2) at h))
      | inr (e, n) ↦ absurd (cc (rw (n, encode_v2) at h))
    ]

-- A spent record carries the state byte 2.
pub spent_byte :
    (r : Record) (raw : Bytes) → encode (record r { state = spent }) ≡ done raw → get_or raw 5 0 ≡ 2
unfolding encode
spent_byte r raw h = elim (Algorithm-cases r.algorithm) [
  | inl sha ↦ v1_state r raw (rw (sha, encode) at h)
  | inr (inl argon) ↦ v2_state r raw (rw (argon, encode) at h)
  | inr (inr (name, other)) ↦ v1_state r raw (rw (other, encode) at h)
]

guarded_done :
    (a b : Bool) (next : Attempt RecordError Record) (r : Record)
    → guarded a b next ≡ done r
    → next ≡ done r
unfolding guarded
guarded_done true b next r h = absurd (cc h)
guarded_done false true next r h = absurd (cc h)
guarded_done false false next r h = h

same_state : (p r : Record) → p ≡ r → p.state ≡ r.state
same_state p r h = ap (λ q. q.state) h

validated_done : (p r : Record) → validated p ≡ done r → p.state ≡ r.state
unfolding validated
validated_done p r h = elim (Option-cases (validate (proof_spec p))) [
  | inl n ↦ same_state p r (cc (rw (n, validated) at h))
  | inr (refused, y) ↦ absurd (cc (rw (y, validated) at h))
]

decode_v1_state :
    (raw : Bytes) (r : Record)
    → decode_v1 raw ≡ done r
    → logical_record_state (get_or raw 5 0) ≡ some r.state
unfolding decode_v1 parsed_v1
decode_v1_state raw r h = elim (Bool-cases (ltb (length raw) fixed_size)) [
  | inl y ↦ absurd (cc (rw (y, decode_v1) at h))
  | inr m ↦ (elim (Option-cases (logical_record_state (get_or raw 5 0))) [
    | inl n ↦ absurd (cc (rw (m, n, decode_v1) at h))
    | inr (state, y) ↦
        let host_len = uint32_of (slice raw 48 52) in
        let ip_len = uint32_of (slice raw 52 56) in
        let uri_len = uint32_of (slice raw 56 60) in
        let parsed = parsed_v1 state raw host_len ip_len uri_len in
        let differ = not (host_len + ip_len + uri_len =ℕ length raw - fixed_size) in
        let passed =
          guarded_done (has_unknown_flags (get_or raw 6 0)) differ (done parsed) r
            (rw (m, y, decode_v1) at h) in
        y ∙ ap some (same_state parsed r (cc passed))
  ])
]

decode_v2_state :
    (raw : Bytes) (r : Record)
    → decode_v2 raw ≡ done r
    → logical_record_state (get_or raw 5 0) ≡ some r.state
unfolding decode_v2 parsed_v2
decode_v2_state raw r h = elim (Bool-cases (ltb (length raw) v2_fixed_size)) [
  | inl y ↦ absurd (cc (rw (y, decode_v2) at h))
  | inr m ↦ (elim (Option-cases (logical_record_state (get_or raw 5 0))) [
    | inl n ↦ absurd (cc (rw (m, n, decode_v2) at h))
    | inr (state, y) ↦
        let host_len = uint32_of (slice raw 72 76) in
        let ip_len = uint32_of (slice raw 76 80) in
        let uri_len = uint32_of (slice raw 80 84) in
        let parsed = parsed_v2 state raw host_len ip_len uri_len in
        let differ = not (host_len + ip_len + uri_len =ℕ length raw - v2_fixed_size) in
        let passed =
          guarded_done (unsupported_v2 raw) differ (validated parsed) r
            (rw (m, y, decode_v2) at h) in
        y ∙ ap some (validated_done parsed r passed)
  ])
]

-- A record that decodes has the state of its state byte.
pub state_byte :
    (raw : Bytes) (r : Record)
    → decode raw ≡ done r
    → logical_record_state (get_or raw 5 0) ≡ some r.state
unfolding decode decode_binary
state_byte raw r h = elim (Bool-cases (ltb (length raw) 4 || not (bytes_eq (take 4 raw) magic))) [
  | inl y ↦ absurd (cc (rw (y, decode) at h))
  | inr m ↦ (elim (Bool-cases (leb (length raw) 4)) [
    | inl y ↦ absurd (cc (rw (m, y, decode) at h))
    | inr c ↦ (elim (Bool-cases (get_or raw 4 0 =ℕ 2)) [
      | inl y ↦ decode_v2_state raw r (rw (m, c, y, decode) at h)
      | inr n ↦ (elim (Bool-cases (get_or raw 4 0 =ℕ 1)) [
        | inl y ↦ decode_v1_state raw r (rw (m, c, n, y, decode) at h)
        | inr o ↦ absurd (cc (rw (m, c, n, o, decode) at h))
      ])
    ])
  ])
]
