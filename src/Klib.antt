-- ===== src/Klib.antt =====
-- abstract-machine/klib: the C library of the kernel.
pub mod Mem
pub mod Str
pub mod Stdio
pub mod Stdlib
pub mod Decimal
mod Tests
