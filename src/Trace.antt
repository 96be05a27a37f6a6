-- ===== src/Trace.antt =====
-- lib/trace: the documents, the client and the simulated transport of the Trace provider.
pub mod Schema
pub mod Pii
pub mod Client
pub mod Promotion
pub mod Mock
mod Tests
