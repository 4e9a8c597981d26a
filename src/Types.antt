-- ===== src/Types.antt =====
-- core/types.go: addresses, hashes and events.
pub mod Address
pub mod Hash
pub mod Array
pub mod Big
pub mod Text
pub mod RlpHash
pub mod Event
pub mod Laws
