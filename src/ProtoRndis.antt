-- ===== src/ProtoRndis.antt =====
-- src/proto_rndis.c: the RNDIS protocol driver.
pub mod Unwrap
pub mod Driver
