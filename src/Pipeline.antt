-- ===== src/Pipeline.antt =====
-- lib/pipeline: the stage handlers, the store that they keep their log in, and the driver.
pub mod Types
pub mod Rows
pub mod Store
pub mod TraceDocument
pub mod Ports
pub mod Log
pub mod PgLog
pub mod Actions
pub mod Stages
pub mod Driver
pub mod Sample
pub mod Exec
