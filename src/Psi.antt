-- ===== src/Psi.antt =====
-- Program tables in Transport Stream packets, include/ts.h: `Write` makes the packets of a PAT or a
-- PMT, `Read` takes the sections apart, `Find` looks for a PAT, `Laws` relates them.
pub mod Write
pub mod Read
pub mod Find
pub mod Laws
