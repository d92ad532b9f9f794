-- ===== src/Display/Decimal.antt =====
-- rtl/BCD.sv: its loop against the decimal digits of a number.
use rv32i_pipeline_fpga.Common.{
  ℕ, zero, suc, ◌+◌, ◌*◌, ◌/◌, ◌%◌, ◌^◌, ◌<◌, ◌≡◌, refl, sym, ap, ◌∙◌, bit, slice, concat, arith,
}
use native.Mathlib.Nat.{div-div-eq-div-mul, pow-suc}
use rv32i_pipeline_fpga.Display.{Digits, adjust, shift_left, bcd_pass, bcd_loop, bcd}

-- The four low decimal digits.
abbrev pub decimal : ℕ → Digits
decimal n = record {
  thousands = n / 1000 % 10;
  hundreds = n / 100 % 10;
  tens = n / 10 % 10;
  ones = n % 10;
}

-- One digit after a pass: twice the digit and what comes in, less ten if that carries.
place : (d low : ℕ) → d < 10 → low < 2 → concat 1 (slice (adjust d) 2 0) low ≡ (d * 2 + low) % 10
unfolding adjust
place d low h k = ground arith

-- It carries from 5 on.
carry : (d : ℕ) → d < 10 → bit (adjust d) 3 ≡ d / 5
unfolding adjust
carry d h = ground arith

column :
    (d d' : ℕ)
    → d < 10
    → d' < 10
    → concat 1 (slice (adjust d) 2 0) (bit (adjust d') 3) ≡ (d * 2 + d' / 5) % 10
column d d' h h' = rw (carry d' h') (place d (d' / 5) h (omega arith))

abbrev digits : ℕ → ℕ → ℕ → ℕ → Digits
digits a b c d = record { thousands = a; hundreds = b; tens = c; ones = d }

digits-ap :
    {a a' b b' c c' d d' : ℕ}
    → a ≡ a'
    → b ≡ b'
    → c ≡ c'
    → d ≡ d'
    → digits a b c d ≡ digits a' b' c' d'
digits-ap p q r s = rw (p, q, r, s) refl

module _ (n b : ℕ) (h : b < 2) where
  -- A pass doubles the number that the digits show and adds the bit.
  bcd_pass-decimal : bcd_pass (decimal n) b ≡ decimal (n * 2 + b)
  unfolding bcd_pass shift_left
  bcd_pass-decimal =
      digits-ap (column (n / 1000 % 10) (n / 100 % 10) (omega arith) (omega arith) ∙ omega arith)
        (column (n / 100 % 10) (n / 10 % 10) (omega arith) (omega arith) ∙ omega arith)
        (column (n / 10 % 10) (n % 10) (omega arith) (omega arith) ∙ omega arith)
        (place (n % 10) b (omega arith) h ∙ omega arith)

-- Two halves of a quotient by a power of two and the bit between them.
halves : (h q : ℕ) → h / 2 ^ suc q * 2 + bit h q ≡ h / 2 ^ q
halves h q =
    let e : h / 2 ^ suc q ≡ h / 2 ^ q / 2 =
      ap (λ v. h / v) (pow-suc 2 q) ∙ sym (div-div-eq-div-mul h (2 ^ q) 2) in
    ap (λ v. v * 2 + bit h q) e ∙ omega arith

-- The passes for the low bits complete the number that the high bits have begun.
bcd_loop-decimal : (n h : ℕ) → bcd_loop n h (decimal (h / 2 ^ n)) ≡ decimal h
unfolding bcd_loop
bcd_loop-decimal zero h = ap decimal (omega arith)
bcd_loop-decimal (suc i) h =
    ap (bcd_loop i h)
      (bcd_pass-decimal (h / 2 ^ suc i) (bit h i) (omega arith) ∙ ap decimal (halves h i))
    ∙ bcd_loop-decimal i h

quotient_zero : (h : ℕ) → h < 2 ^ 16 → h / 2 ^ 16 ≡ 0
quotient_zero h k = omega arith

-- For every 16-bit value the four outputs of `BCD` are the value's four low decimal digits: 12345
-- gives 2345.
pub bcd_lem : (h : ℕ) → h < 2 ^ 16 → bcd h ≡ decimal h
unfolding bcd
bcd_lem h k = ap (λ v. bcd_loop 16 h (decimal v)) (sym (quotient_zero h k)) ∙ bcd_loop-decimal 16 h
