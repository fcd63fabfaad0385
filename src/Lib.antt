-- ===== src/Lib.antt =====
-- Guardian decides, for the Angie web server, whether a request is allowed, challenged with proof of
-- work or denied. This library models the core of that decision and the state behind it.
--
-- The parts and their files:
-- Store: the types of core/store/store.go, the value of a block (BlockValue, BlockReason) and the
-- ladder of block times (blockBackoffTTL). Store/Ladder has its proofs.
-- Memory: core/store/sharded_memory.go. State holds the shards, the central map of the "block:"
-- keys, the hash of a key and the reading of an entry with its expiry; Ops has Get, Set, Delete,
-- Incr, IncrBy, IncrByDeadline, CompareAndSwap, CompareAndDelete, GetWithExpiry and ExpiresAt;
-- Commit has CommitBlock, CommitEvent and CommitUnblock; Scan has the janitor's sweep, the scans
-- and the posture votes. View is the abstract store, one map from a key to its live entry at a
-- time, and Reads, Counters, Blocks and Unblocks relate each operation to it; Trace is a run of
-- operations of any clients, in any order, each at its time; Fresh is about a new store.
-- Scoreboard: core/scoreboard.go over that store: RecordEvent, Block, CommitUnblock and the rest.
-- Keys tells its keys apart, Placed is about a block that Block places, Race and Threshold have the
-- other proofs.
-- Attack: core/attackmode/attackmode.go. State and Signals hold the configuration, the ring and the
-- signals; Machine is evaluate, decayFrom and publish; Share is the tick, the pin, the reload and
-- the posture votes, over an interface that Shards fills with the votes of the sharded store.
-- Bits, Publish, Evaluate, Posture, Fleet, Dwell and Vote have the proofs.
-- Pipeline: core/pipeline.go, with the parts of core/engine.go and core/stateless/stateless.go that
-- it runs in. State holds decisions and memos, Stages one function for each stage, Engine the loop
-- of Evaluate, the refusal and recordEvents. Run, Floor and Final have the proofs.
-- Guest is the evaluator of the WASM guest, against those stages.
-- Pow: core/pow. Proof is the policy of a challenge and the check of a memory-hard proof; Record
-- is the binary record of an issued challenge, with its decoder; Manager, Issue and Redeem are the
-- issue of a stored challenge over the store of Memory and its redemption, in three steps: the
-- read, the checks and the swap. Record/RoundTrip and Record/States are about the record,
-- Redeem/Once, Redeem/Course, Redeem/Sound, Redeem/Accepts, Redeem/Issued and Redeem/ZeroBits
-- about the redemption. Stateless is the challenge that carries its state in its id
-- (stateless_challenge.go): its issue, with Open and Redeem for the opening of an id and the
-- redemption; Issued, Opens and Redeems are about a challenge that was issued, Window, Once and
-- Down about its single spend. Dispatch is Redeem, which tells the two kinds of challenge apart by
-- the id. TokenCache is the cache of verified tokens, Escalation the counters of unsolved
-- challenges.
-- Enforce: core/enforce/mirror.go, the mirror of the active blocks with its log of removals. Pass
-- takes a reconcile lock by lock, among the calls of other goroutines; reconcile in Enforce is its
-- run with no other call in between. Sizes, Solo and Reconcile have the proofs, with
-- the lemmas of Absent.
-- Recent: core/recent.go, the ring of recent decisions. Ring has the proofs, Index the arithmetic.
-- Prelude: shared notation, integers, int64 arithmetic, the float64 interface and Go maps.
-- Tests: concrete runs.
--
-- How the code is read. An operation takes the state and the time and returns the new state; it reads
-- the clock once. A section under a mutex is one step, so that the interleavings of goroutines are
-- the sequences of steps; the order in which CommitBlock, CommitEvent and CommitUnblock take the
-- shard locks is left out. A time is a number of nanoseconds, the zero time is none, and a
-- time.Duration is an integer. int64 sums wrap around,
-- and so does the deadline of a counter; the difficulties, which configuration keeps in small
-- ranges, are integers. A Go map is an association list, and ranging
-- over it goes in the list's order. The detector's counters only grow and are natural numbers, and
-- its float64 values are an interface.
--
-- Parameters: the parser and canonical form of an address (net/netip), the printing and parsing of
-- int64 (strconv), random tokens and instance ids, the vote interface of a store, and for the
-- pipeline the answers of its collaborators on a request: the lists' matches, the WAF matcher, the
-- token verifier, the origin databases, bot verification, the header exemptions and the anomaly
-- score. For a challenge they are the hashes (SHA-256, HMAC, Argon2id), the UUID parser,
-- strings.EqualFold and ToLower, the signing of a token, the counter cache and the callbacks of the
-- request; for a stateless one also JSON and base64, what a refresh of the keys answers, and whether
-- the store is reached. Each replica and the store have their own clock.
--
-- Loops are recursions on lists. Two take a number of rounds: nextPow2, whose argument is enough since
-- each round doubles the power (Memory/Fresh), and the ladder of block times, which runs as many
-- rounds as the loop of blockBackoffTTL itself.
--
-- Not modelled: the other stores, the enforcement manager and the kernel offload, the
-- signing keys and their rotation, configuration loading, the transports, the
-- commands, metrics, logging and the web pages.
pub mod Prelude
pub mod Store
pub mod Memory
pub mod Scoreboard
pub mod Attack
pub mod Pow
pub mod Enforce
pub mod Recent
pub mod Pipeline
pub mod Tests
