-- ===== src/Tests.antt =====
-- Concrete runs of the model of core/store, core/scoreboard.go, core/attackmode and core/pipeline.go,
-- at which the theorems' hypotheses hold.
mod Data
mod Stores
mod Commits
mod Boards
mod Attacks
mod Pipelines
mod Guests
mod Rings
mod Challenges
mod Stateless
