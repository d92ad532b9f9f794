-- ===== src/Runtime/Syscalls.antt =====
-- The string functions of riscv-tests/benchmarks/common/syscalls.c. All but `memcpy` and `strnlen`
-- have the text of riscv-tests/env/v/string.c.
use rv32i_pipeline_fpga.Common.{
  ℕ, zero, suc, ◌+◌, ◌-◌, ◌*◌, ◌==◌, ltb, if◌then◌else◌, Option, none, bit_and, bit_or,
}
use rv32i_pipeline_fpga.Common.Int.{ℤ}
use rv32i_pipeline_fpga.Runtime.{Memory, put_bytes, bytes_at}
use rv32i_pipeline_fpga.Runtime.Strings
use rv32i_pipeline_fpga.Runtime.Strings.{copy_loop}

-- `reg[i] = s[i]` for the eight words, then `d[i] = reg[i]`.
unfoldable pub copy_eight_words : ℕ → ℕ → Memory → Memory
copy_eight_words d s m =
    let reg : ℕ → ℕ → ℕ = λ i. bytes_at m (s + 8 * i) in
    put_bytes (d + 8 * 7) 8 (reg 7) (
      put_bytes (d + 8 * 6) 8 (reg 6) (
        put_bytes (d + 8 * 5) 8 (reg 5) (
          put_bytes (d + 8 * 4) 8 (reg 4) (
            put_bytes (d + 8 * 3) 8 (reg 3) (
              put_bytes (d + 8 * 2) 8 (reg 2)
                (put_bytes (d + 8 * 1) 8 (reg 1) (put_bytes (d + 8 * 0) 8 (reg 0) m)))))))

-- `while (d + 8 < end)`, then the loop over the words that are left.
unfoldable pub copy_unrolled : ℕ → ℕ → ℕ → ℕ → Memory → Option Memory
copy_unrolled zero d s end m = if ltb (d + 8 * 8) end then none else copy_loop 8 8 d s end m
copy_unrolled (suc fuel) d s end m =
    let rest = copy_unrolled fuel (d + 8 * 8) (s + 8 * 8) end (copy_eight_words d s m) in
    if ltb (d + 8 * 8) end then rest else copy_loop 8 8 d s end m

unfoldable pub memcpy : ℕ → ℕ → ℕ → ℕ → Memory → Option Memory
memcpy fuel dest src len m =
    if bit_and (bit_or (bit_or dest src) len) 7 == 0
    then copy_unrolled fuel dest src (dest + len) m
    else copy_loop fuel 1 dest src (dest + len) m

unfoldable pub memset : ℕ → ℕ → ℕ → ℕ → Memory → Option Memory
memset = Strings.memset

unfoldable pub strlen : ℕ → Memory → ℕ → Option ℕ
strlen = Strings.strlen

-- `while (n-- && *p) p++`, and the difference to `s`.
unfoldable pub strnlen_loop : ℕ → Memory → ℕ → ℕ → ℕ
strnlen_loop zero m s p = p - s
strnlen_loop (suc n) m s p =
    let rest = strnlen_loop n m s (p + 1) in if m p == 0 then p - s else rest

unfoldable pub strnlen : Memory → ℕ → ℕ → ℕ
strnlen m s n = strnlen_loop n m s s

unfoldable pub strcmp : ℕ → Memory → ℕ → ℕ → Option ℤ
strcmp = Strings.strcmp

unfoldable pub strcpy : ℕ → ℕ → ℕ → Memory → Option Memory
strcpy = Strings.strcpy

unfoldable pub atol : ℕ → Memory → ℕ → Option ℕ
atol = Strings.atol
