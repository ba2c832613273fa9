-- ===== src/Ip.antt =====
-- Go's net.IP as the code uses it: a slice of 4 or 16 bytes, nil being the empty one.
mod Text
mod Tests
unfoldable pub use Text.{to4, to16, ip_equal, ip_string, parse_ip, v4_prefix}
