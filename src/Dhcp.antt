-- ===== src/Dhcp.antt =====
-- src/dhcp.c and include/dhcp.h: the DHCP client.
pub mod Options
pub mod Scan
pub mod Checksum
pub mod Build
pub mod Answer
pub mod Lease
pub mod Discover
mod Runs
