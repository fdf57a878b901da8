-- ===== src/Hook.antt =====
-- src/hook.c: what libnvshare puts in the place of the functions of the CUDA driver.
pub mod Allocations
pub mod Memory
pub mod Window
pub mod Symbols
pub mod Lookup
pub mod Entry
pub mod Ready
pub mod Bag
mod Tests
