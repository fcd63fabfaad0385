-- ===== src/Pow/Record/Layout.antt =====
-- core/pow/challenge_record.go: where the parts of an encoded record stand.
use angie_guardian.Prelude.{
  ℕ, zero, suc, ◌+◌, ◌-◌, ◌^◌, ◌<◌, ◌≡◌, refl, ap, ◌∙◌, [], ◌∷◌, ◌++◌, arith, Bytes, length, take,
  drop, slice, length-append, take-append, drop-append,
}
use angie_guardian.Pow.Words.{append_uint32, append_uint64, uint32_of, uint32_of-append}
use angie_guardian.Pow.Record.{
  Record, append_fields, body_v1, body_v2, headed, payload_size, fixed_size, v2_fixed_size,
}

drop-drop : (k m n : ℕ) (xs : Bytes) → k ≡ m + n → drop k xs ≡ drop n (drop m xs)
drop-drop k zero n xs h = ap (λ i. drop i xs) (omega (arith, h))
drop-drop zero (suc m) n xs h = absurd (omega arith)
drop-drop (suc k) (suc m) zero [] h = refl
drop-drop (suc k) (suc m) (suc n) [] h = refl
drop-drop (suc k) (suc m) n (x ∷ xs) h = drop-drop k m n xs (omega arith)

module _ (raw part rest : Bytes) (a b : ℕ) (at : drop a raw ≡ part ++ rest)
    (size : length part + a ≡ b) where
  pub slice_at : slice raw a b ≡ part
  slice_at = rw at (take-append (b - a) part rest (omega (arith, size)))

  pub drop_past : drop b raw ≡ rest
  drop_past =
      drop-drop b a (length part) raw (omega (arith, size))
      ∙ rw at (drop-append (length part) part rest refl)

module _ (raw rest : Bytes) (a b n : ℕ) (at : drop a raw ≡ append_uint32 n rest)
    (size : 4 + a ≡ b) where
  pub uint32_at : n < 2 ^ 32 → uint32_of (slice raw a b) ≡ n
  unfolding append_uint32
  uint32_at h =
      rw (slice_at raw (take 4 (append_uint32 n rest)) rest a b at size) (uint32_of-append n [] h)

  pub uint32_past : drop b raw ≡ rest
  unfolding append_uint32
  uint32_past = drop_past raw (take 4 (append_uint32 n rest)) rest a b at size

module _ (r : Record) where
  pub length-append_fields : length (append_fields r) ≡ 12 + payload_size r
  unfolding append_fields append_uint32
  length-append_fields =
      omega (arith, length-append r.host (r.ip ++ r.uri), length-append r.ip r.uri)

  pub length-v1 :
      (version state : ℕ)
      → length r.challenge_digest ≡ 32
      → length (headed version state (body_v1 r)) ≡ fixed_size + payload_size r
  unfolding headed body_v1 append_uint64 append_uint32
  length-v1 version state h =
      omega (arith, length-append r.challenge_digest (append_fields r), length-append_fields)

  pub length-v2 :
      (version state : ℕ)
      → length r.challenge_digest ≡ 32
      → length r.salt ≡ 16
      → length (headed version state (body_v2 r)) ≡ v2_fixed_size + payload_size r
  unfolding headed body_v2 append_uint64 append_uint32
  length-v2 version state h k =
      let tail = append_uint32 r.memory_kib (append_fields r) in
      omega (
        arith,
        length-append r.challenge_digest (r.salt ++ tail),
        length-append r.salt tail,
        length-append_fields,
      )
