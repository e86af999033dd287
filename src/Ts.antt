-- ===== src/Ts.antt =====
-- Transport Stream packets, include/ts.h: `Read` takes a packet apart, `Write` makes packets of a
-- PES packet, `Es` of elementary stream data, `Laws` relates them.
pub mod Read
pub mod Laws
pub mod Write
pub mod Es
