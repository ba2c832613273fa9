-- ===== src/Identity.antt =====
-- internal/identity/identity.go and names.go: node identities, the addresses derived from them,
-- and node names. A NodeID is the list of its 32 bytes; texts are ASCII.
pub mod Address
pub mod Names
pub mod Hex
mod Tests
