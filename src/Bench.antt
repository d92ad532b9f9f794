-- ===== src/Bench.antt =====
-- The C programs of riscv-tests/benchmarks that the core runs.
pub mod Multiply
pub mod Median
pub mod Verify
pub mod Towers
