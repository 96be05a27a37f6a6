-- ===== src/Traces.antt =====
-- lib/traces: agent traces, parsed and redacted.
pub mod Parse
pub mod Redact
