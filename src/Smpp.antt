-- ===== src/Smpp.antt =====
-- internal/smpp: the SMPP v3.4 codec. An octet is a number below 256, and both a Go string and
-- a byte slice are the list of their octets.
pub mod Commands
pub mod Pdu
pub mod WellFormed
pub mod Writer
pub mod Reader
pub mod Encode
pub mod Decode
pub mod Receipt
