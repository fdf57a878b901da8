-- ===== src/Common.antt =====
-- src/common.c and src/common.h: bounded string copies, whole reads and writes, retries, intervals.
pub mod Strings
pub mod Transfer
pub mod Clock
mod Tests
