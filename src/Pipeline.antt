-- ===== src/Pipeline.antt =====
-- core/pipeline.go and core/engine.go: the decision pipeline.
pub mod State
pub mod Stages
pub mod Engine
pub mod Run
pub mod Floor
pub mod Final
pub mod Guest
