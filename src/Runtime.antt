-- ===== src/Runtime.antt =====
-- The C library functions of riscv-tests: the memory that they work on.
--
-- The memory is a function from an address to the byte there. An `uintptr_t` has 8 bytes, and is
-- its 8 bytes: a copy of one reads them all before it writes. Addresses do not wrap. `none` is a
-- loop that takes more rounds than it is given.
pub mod Strings
pub mod Syscalls
pub mod Copy
pub mod Text
pub mod Print
pub mod Roundtrip
pub mod Decimal
pub mod Unrolled
pub mod Numbers
use rv32i_pipeline_fpga.Common.{
  ℕ, ◌+◌, ◌-◌, ◌≤◌, ◌<◌, ◌&&◌, ltb, leb, if◌then◌else◌, Option, none, some,
}

abbrev pub Memory : Type 0
Memory = ℕ → ℕ

-- The bytes `f 0` to `f (n - 1)` written from `d` on.
abbrev pub put_bytes : ℕ → ℕ → (ℕ → ℕ) → Memory → Memory
put_bytes d n f m k = if leb d k && ltb k (d + n) then f (k - d) else m k

-- The bytes from `s` on.
abbrev pub bytes_at : Memory → ℕ → ℕ → ℕ
bytes_at m s i = m (s + i)

infixl 5 ◌>>=◌
abbrev pub ◌>>=◌ {ℓ κ} : {A : Type ℓ} {B : Type κ} → Option A → (A → Option B) → Option B
none >>= f = none
some a >>= f = f a
