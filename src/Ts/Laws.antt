-- ===== src/Ts/Laws.antt =====
-- What the reader of packets makes of what the writer makes.
pub mod Pcr
pub mod Headers
pub mod Fits
pub mod Receiver
pub mod Timing
pub mod Lengths
pub mod Transport
pub mod Wraps
pub mod Es
mod Runs
