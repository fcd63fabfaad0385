-- ===== src/Recent.antt =====
-- core/recent.go: the ring of recent decisions, with its caps. The clock is an argument.
pub mod Index
pub mod Ring
use angie_guardian.Prelude.{
  ℕ, zero, suc, ◌+◌, ◌-◌, ◌%◌, Bool, true, false, ◌||◌, List, [], ◌∷◌, ◌++◌, Bytes, bytes_eq, ltb,
  leb, ◌=ℕ◌, if◌then◌else◌, length, get_or, set, take, replicate,
}
use angie_guardian.Prelude.Int.{ℤ, pos, negsuc, pos_part, ltb_ℤ}
use angie_guardian.Prelude.Int64.{is_positive}

pub record RecentDecision : Type 0 where
  pub time : ℕ
  pub host : Bytes
  pub ip : Bytes
  pub method : Bytes
  pub uri : Bytes
  pub ua : Bytes
  pub action : Bytes
  pub why : Bytes
  pub pow_exemption : Bytes
  pub solve_ms : ℕ
  pub round_trip_ms : ℕ
  pub pow_algorithm : Bytes
  pub bits : ℕ
  pub argon2_memory_kib : ℕ
  pub argon2_iterations : ℕ

-- The zero value of the Go type.
abbrev pub blank : RecentDecision
blank = record {
  time = 0;
  host = [];
  ip = [];
  method = [];
  uri = [];
  ua = [];
  action = [];
  why = [];
  pow_exemption = [];
  solve_ms = 0;
  round_trip_ms = 0;
  pow_algorithm = [];
  bits = 0;
  argon2_memory_kib = 0;
  argon2_iterations = 0;
}

abbrev pub default_recent_decisions_capacity : ℕ
default_recent_decisions_capacity = 4096

abbrev pub max_recent_uri_len : ℕ
max_recent_uri_len = 2048

abbrev pub max_recent_ua_len : ℕ
max_recent_ua_len = 512

abbrev pub max_recent_host_len : ℕ
max_recent_host_len = 253

abbrev pub max_recent_method_len : ℕ
max_recent_method_len = 32

-- The three bytes of "…" in UTF-8.
abbrev pub ellipsis : Bytes
ellipsis = 0xe2 ∷ 0x80 ∷ 0xa6 ∷ []

unfoldable pub truncate_recent : Bytes → ℕ → Bytes
truncate_recent s n = if leb (length s) n then s else take n s ++ ellipsis

unfoldable pub clamp_ms : ℤ → ℕ
clamp_ms (pos n) = if ltb 2147483647 n then 2147483647 else n
clamp_ms (negsuc n) = 0

unfoldable pub clamp_bits : ℤ → ℕ
clamp_bits (pos n) = if ltb 255 n then 255 else n
clamp_bits (negsuc n) = 0

pub record RecentRing : Type 0 where
  pub buf : List RecentDecision
  pub next : ℕ
  pub count : ℕ
  pub full : Bool
  pub started_at : ℕ

unfoldable pub new_recent_ring : ℤ → ℕ → RecentRing
new_recent_ring size now = record {
  buf =
      replicate (if is_positive size then pos_part size else default_recent_decisions_capacity)
        blank;
  next = 0;
  count = 0;
  full = false;
  started_at = now;
}

unfoldable pub truncated : RecentDecision → RecentDecision
unfolding truncate_recent
truncated d = record d {
  uri = truncate_recent d.uri max_recent_uri_len;
  ua = truncate_recent d.ua max_recent_ua_len;
  host = truncate_recent d.host max_recent_host_len;
  method = truncate_recent d.method max_recent_method_len;
}

-- `if len(r.buf) == 0`: the zero value gets its buffer on the first use.
unfoldable pub ready : RecentRing → ℕ → RecentRing
ready r now =
    if length r.buf =ℕ 0
    then record r { buf = replicate default_recent_decisions_capacity blank; started_at = now }
    else r

unfoldable pub put : RecentRing → RecentDecision → RecentRing
put r d = record r {
  buf = set r.buf r.next d;
  next = if r.next + 1 =ℕ length r.buf then 0 else r.next + 1;
  count = if r.count =ℕ length r.buf then r.count else r.count + 1;
  full = if r.count =ℕ length r.buf then true else r.full;
}

unfoldable pub add : RecentRing → ℕ → RecentDecision → RecentRing
unfolding ready put truncated
add r now d = put (ready r now) (truncated d)

-- The loop of `snapshot`, from the i-th newest entry on, for as many as the last argument.
unfoldable pub gather : RecentRing → ℕ → ℕ → List RecentDecision
gather r i zero = []
gather r i (suc k) =
    get_or r.buf ((r.next + length r.buf - suc i) % length r.buf) blank ∷ gather r (suc i) k

pub record RecentDecisionSnapshot : Type 0 where
  pub decisions : List RecentDecision
  pub capacity : ℕ
  pub is_full : Bool
  pub started_at : ℕ

-- The number of entries that a limit asks for.
abbrev pub wanted : ℤ → ℕ → ℕ
wanted (negsuc n) count = count
wanted (pos n) count = if (n =ℕ 0) || ltb count n then count else n

unfoldable pub snapshot : RecentRing → ℤ → RecentDecisionSnapshot
unfolding gather
snapshot r limit = record {
  decisions = gather r 0 (wanted limit r.count);
  capacity = if length r.buf =ℕ 0 then default_recent_decisions_capacity else length r.buf;
  is_full = r.full;
  started_at = r.started_at;
}

unfoldable pub list : RecentRing → ℤ → List RecentDecision
unfolding snapshot
list r limit = (snapshot r limit).decisions

unfoldable pub add_all : RecentRing → List (ℕ × RecentDecision) → RecentRing
unfolding add
add_all r [] = r
add_all r ((now, d) ∷ ds) = add_all (add r now d) ds
