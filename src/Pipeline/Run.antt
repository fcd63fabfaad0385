-- ===== src/Pipeline/Run.antt =====
-- The loop of `Evaluate` in core/engine.go: the stages' decisions and the verdict.
use angie_guardian.Prelude.{◌≡◌, List, [], ◌∷◌, ◌++◌, All}
use angie_guardian.Pipeline.State.{Outcome, no_opinion, failed, decided, Decision, Memo}
use angie_guardian.Pipeline.Engine.{Stage, run_stages, default_decision}

-- A decision, if there is one, satisfies P.
abbrev pub Decides : (Decision → Type 0) → Outcome → Type 0
Decides P no_opinion = Unit
Decides P failed = Unit
Decides P (decided d) = P d

-- From memos with I, the stage decides with P and leaves a memo with I.
abbrev pub Keeps : (Memo → Type 0) → (Decision → Type 0) → Stage → Type 0
Keeps I P stage = (m : Memo) → I m → Decides P (stage m).0 × I (stage m).1

module _ (I : Memo → Type 0) (P : Decision → Type 0) where
  -- One turn of the loop.
  turn_lem :
      (rest : List Stage) (o : Outcome) (m : Memo)
      → Decides P o
      → I m
      → ((m' : Memo) → I m' → P (run_stages rest m').0)
      → P
          (elim o as (λ _. Decision × Memo) [
            | no_opinion ↦ run_stages rest m
            | failed ↦ run_stages rest m
            | decided d ↦ (d, m)
          ]).0
  turn_lem rest no_opinion m h i k = k m i
  turn_lem rest failed m h i k = k m i
  turn_lem rest (decided d) m h i k = h

  pub run-Keeps :
      (stages : List Stage) (m : Memo)
      → All (Keeps I P) stages
      → P default_decision
      → I m
      → P (run_stages stages m).0
  unfolding run_stages
  run-Keeps [] m ks p i = p
  run-Keeps (stage ∷ stages) m (k, ks) p i =
      turn_lem stages (stage m).0 (stage m).1 (k m i).0 (k m i).1
        (λ m' j. run-Keeps stages m' ks p j)

  -- One stage that always decides with P makes the verdict one with P, whatever follows it.
  abbrev pub Settles : Stage → Type 0
  Settles stage = (m : Memo) → I m → (d : Decision) × ((stage m).0 ≡ decided d) × P d

  pub run-Settles :
      (before later : List Stage) (stage : Stage) (m : Memo)
      → All (Keeps I P) before
      → Settles stage
      → I m
      → P (run_stages (before ++ (stage ∷ later)) m).0
  unfolding run_stages
  run-Settles [] later stage m ks s i = let (d, e, p) = s m i in rw (run_stages, e) p
  run-Settles (first ∷ before) later stage m (k, ks) s i =
      turn_lem (before ++ (stage ∷ later)) (first m).0 (first m).1 (k m i).0 (k m i).1
        (λ m' j. run-Settles before later stage m' ks s j)
