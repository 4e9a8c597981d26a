-- ===== src/Round.antt =====
-- core/round.go: rounds, their parents on offer, the search, and the loops that run on them.
pub mod Rounds
pub mod Parents
pub mod Search
pub mod Loop
pub mod Monitor
pub mod Consensus
