-- ===== src/Packet.antt =====
-- internal/node/packet.go and traceroute.go: IPv6 packets as lists of bytes. A buffer that the code
-- makes with zeros and fills by copies is written as the concatenation of its fields.
pub mod Checksum
pub mod Build
pub mod Header
pub mod Mss
mod Tests
