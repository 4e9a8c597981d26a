-- ===== src/Examples.antt =====
-- Concrete nodes, events, graphs, rounds and connections, and the theorems applied to them.
mod Values
mod Graphs
mod Core
mod Keys
mod Rounds
mod Network
mod Peers
mod Startup
mod Nodes
mod Deliveries
mod Searches
mod Waiters
mod Stale
