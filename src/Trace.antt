-- ===== src/Trace.antt =====
-- core/pubsub_trace.go: the tracer of pubsub events.
pub mod Event
pub mod Fields
pub mod Tracer
pub mod Counts
mod Tests
