-- ===== src/Jigsaw.antt =====
-- core/jigsaw.go: the graph of events.
pub mod State
pub mod Columns
pub mod Validate
pub mod AddEvent
pub mod Seats
pub mod Create
pub mod Retrieve
pub mod Compose
