-- ===== src/Util.antt =====
-- util/util.cpp: the table of bit counts, `bit_distance`, and the conversions of addresses.
pub mod Bits
pub mod Table
pub mod Distance
pub mod Metric
pub mod Address
