-- ===== src/Pipeline/Stages.antt =====
-- lib/pipeline/stages: what the handlers share.
pub mod Ingest
pub mod Label
pub mod Register
pub mod ListStage
pub mod Settle
pub mod Rules
pub mod Keeps
pub mod Reaching
