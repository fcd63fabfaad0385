-- ===== src/Pow/Escalation.antt =====
-- core/pow/escalation.go: the counters of unsolved challenges, and the bits that they add.
use angie_guardian.Prelude.{
  ℕ, ◌+◌, ◌-◌, ◌/◌, Bool, true, false, ◌||◌, Option, none, some, [], ◌∷◌, ◌++◌, Bytes, leb, ◌=ℕ◌,
  if◌then◌else◌,
}
use angie_guardian.Prelude.Int.{ℤ, pos, negsuc}

-- strings.ToLower and TrimSpace, the host of net.SplitHostPort, and the plain text of an address
-- that netip.ParseAddr reads as IPv4 in IPv6.
pub record Names : Type 0 where
  pub to_lower : Bytes → Bytes
  pub trim_space : Bytes → Bytes
  pub split_host_port : Bytes → Option Bytes
  pub unmapped : Bytes → Option Bytes

-- The counter cache over its own state C: `Incr` answers with the new count, `Forget` removes a
-- key, and `ForgetSync` says whether the store took the removal.
pub record Counters (C : Type 0) : Type 0 where
  pub incr : C → Bytes → ℤ → C × ℤ
  pub forget : C → Bytes → C
  pub forget_sync : C → Bytes → C × Bool

-- "chesc:"
abbrev pub escalation_prefix : Bytes
escalation_prefix = b'c' ∷ b'h' ∷ b'e' ∷ b's' ∷ b'c' ∷ b':' ∷ []

-- "chfesc:"
abbrev pub frame_escalation_prefix : Bytes
frame_escalation_prefix = b'c' ∷ b'h' ∷ b'f' ∷ b'e' ∷ b's' ∷ b'c' ∷ b':' ∷ []

abbrev escalation_free_issues : ℕ
escalation_free_issues = 4

abbrev escalation_step : ℕ
escalation_step = 2

abbrev is_bracket : ℕ → Bool
is_bracket c = (c =ℕ b'[') || (c =ℕ b']')

-- strings.Trim(host, "[]"): first the left end, then the right one.
unfoldable pub trim_left : Bytes → Bytes
trim_left [] = []
trim_left (c ∷ cs) = let rest = trim_left cs in if is_bracket c then rest else c ∷ cs

unfoldable pub trim_right : Bytes → Bytes
trim_right [] = []
trim_right (c ∷ cs) =
    let rest = trim_right cs in
    elim rest [ [] ↦ if is_bracket c then [] else c ∷ [] | d ∷ ds ↦ c ∷ d ∷ ds ]

-- strings.TrimSuffix(host, ".")
unfoldable pub trim_dot : Bytes → Bytes
trim_dot [] = []
trim_dot (c ∷ []) = if c =ℕ b'.' then [] else c ∷ []
trim_dot (c ∷ d ∷ ds) = c ∷ trim_dot (d ∷ ds)

abbrev has_colon : Bytes → Bool
has_colon [] = false
has_colon (c ∷ cs) = (c =ℕ b':') || has_colon cs

abbrev without_port : Names → Bytes → Bytes
without_port names host =
    if has_colon host then elim (names.split_host_port host) [ none ↦ host | some h ↦ h ] else host

unfoldable pub escalation_key : Names → Bytes → Bytes → Bytes → Bytes
unfolding trim_left trim_right trim_dot
escalation_key names prefix host ip =
    let name = without_port names (names.to_lower (names.trim_space host)) in
    let address : Bytes = elim (names.unmapped ip) [ none ↦ ip | some text ↦ text ] in
    prefix ++ (trim_dot (trim_right (trim_left name)) ++ (b':' ∷ address))

-- `ForgetEscalation`
unfoldable pub forget_escalation : {C : Type 0} → Names → Counters C → C → Bytes → Bytes → C
unfolding escalation_key
forget_escalation names cs c host ip =
    cs.forget (cs.forget c (escalation_key names escalation_prefix host ip))
      (escalation_key names frame_escalation_prefix host ip)

-- `ResetEscalation`: the counters that were reset, and whether any failed.
unfoldable pub reset_escalation :
    {C : Type 0} → Names → Counters C → C → Bytes → Bytes → C × ℕ × Bool
unfolding escalation_key
reset_escalation names cs c host ip =
    let (first, plain) = cs.forget_sync c (escalation_key names escalation_prefix host ip) in
    let (last, framed) =
      cs.forget_sync first (escalation_key names frame_escalation_prefix host ip) in
    (
      last,
      (if plain then 1 else 0) + (if framed then 1 else 0),
      (if plain then (if framed then false else true) else true),
    )

-- Go's int division rounds towards zero; the dividend is positive here.
unfoldable pub extra_bits : ℤ → ℤ
extra_bits (negsuc n) = pos 0
extra_bits (pos n) =
    if leb n escalation_free_issues
    then pos 0
    else pos ((n - escalation_free_issues) / escalation_step)

unfoldable pub bump : {C : Type 0} → Names → Counters C → C → Bytes → Bytes → Bytes → ℤ → C × ℤ
unfolding escalation_key extra_bits
bump names cs c prefix host ip window =
    let (after, n) = cs.incr c (escalation_key names prefix host ip) window in (after, extra_bits n)
