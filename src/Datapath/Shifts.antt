-- ===== src/Datapath/Shifts.antt =====
-- The arithmetic right shift of rtl/ALU.sv: filling with the sign bit is complementing, shifting
-- and complementing back.
use native.Mathlib.Nat.{
  div-eq_of_lt-le, div-add-mod, div-lt_iff_lt-mul, mod-lt, one-le-pow, pow-suc, zero-add, suc-add,
}
use rv32i_pipeline_fpga.Common.{
  ℕ, zero, suc, ◌+◌, ◌-◌, ◌*◌, ◌/◌, ◌%◌, ◌^◌, ◌<◌, ◌≤◌, ◌≡◌, sym, ◌∙◌, ap, word_mod, arith,
}
use rv32i_pipeline_fpga.Datapath.{shift_right_signed}
use rv32i_pipeline_fpga.Isa.{sra32}

mul-two-pow : (n m : ℕ) → 2 ^ n * 2 ^ m ≡ 2 ^ (n + m)
mul-two-pow zero m = omega (arith, ap (λ (t : ℕ). 2 ^ t) (zero-add m))
mul-two-pow (suc n) m = rw (pow-suc, suc-add, pow-suc) (omega (arith, mul-two-pow n m))

-- `d * (q + 1 + k) - 1`, less a number whose quotient by `d` is `q`, has the quotient `k`.
div_complement : (d q r k : ℕ) → r < d → (d * (q + 1 + k) - 1 - (d * q + r)) / d ≡ k
div_complement d q r k h = div-eq_of_lt-le d (omega arith) (omega arith)

-- The complement of `w` among the numbers below `d * e`, divided by `d`.
complement-div : (d e w : ℕ) → 0 < d → w < d * e → (d * e - 1 - w) / d ≡ e - 1 - w / d
complement-div d e w pos h =
    let q = w / d in
    let k = e - 1 - q in
    let below : w / d < e = (div-lt_iff_lt-mul pos).1 (omega arith) in
    let whole : e ≡ q + 1 + k = omega arith in
    let parts : d * q + w % d ≡ w = div-add-mod w d in
    ap (λ (t : ℕ). (d * e - 1 - t) / d) (sym parts)
    ∙ ap (λ (t : ℕ). (d * t - 1 - (d * q + w % d)) / d) whole
    ∙ div_complement d q (w % d) k (mod-lt w pos)

pub shift_right_signed_lem : (a n : ℕ) → n ≤ 31 → shift_right_signed a n ≡ sra32 a n
shift_right_signed_lem a n h =
    let w = a % word_mod in
    let width : n + (32 - n) ≡ 32 = omega arith in
    let split : 2 ^ n * 2 ^ (32 - n) ≡ word_mod =
      mul-two-pow n (32 - n) ∙ ap (λ (t : ℕ). 2 ^ t) width in
    let whole : (word_mod - 1 - w) / 2 ^ n ≡ 2 ^ (32 - n) - 1 - w / 2 ^ n =
      ap (λ (t : ℕ). (t - 1 - w) / 2 ^ n) (sym split)
      ∙ complement-div (2 ^ n) (2 ^ (32 - n)) w (one-le-pow n 2 (omega arith)) (omega arith) in
    let below : w / 2 ^ n < 2 ^ (32 - n) =
      (div-lt_iff_lt-mul (one-le-pow n 2 (omega arith))).1 (omega arith) in
    ground arith
