-- ===== src/Crc.antt =====
-- The cyclic redundancy checks of src/util/crc8.c, crc16.c and crc32.c.
pub mod Lfsr
pub mod Crc8
pub mod Crc16
pub mod Crc32
