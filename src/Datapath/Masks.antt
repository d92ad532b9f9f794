-- ===== src/Datapath/Masks.antt =====
-- The mask of rtl/Jump_Branch_Address_Generator.sv, as arithmetic: clearing bit 0 of a word.
use native.Mathlib.Nat.{pow-suc, one-le-pow}
use rv32i_pipeline_fpga.Common.{
  ℕ, zero, suc, ◌+◌, ◌-◌, ◌*◌, ◌/◌, ◌^◌, ◌<◌, ◌≡◌, refl, ◌∙◌, ap, bit_and, arith,
}
use rv32i_pipeline_fpga.Common.Bits.{bit_and-digit}

-- A mask of `k` ones keeps a number of `k` digits.
bit_and_ones : (k a : ℕ) → a < 2 ^ k → bit_and a (2 ^ k - 1) ≡ a
bit_and_ones zero zero h = refl
bit_and_ones zero (suc a) h = absurd (omega arith)
bit_and_ones (suc k) a h =
    let odd : 2 ^ suc k - 1 ≡ (2 ^ k - 1) * 2 + 1 =
      omega (arith, pow-suc 2 k, one-le-pow k 2 (omega arith)) in
    ap (bit_and a) odd
    ∙ ground (arith, bit_and-digit a ((2 ^ k - 1) * 2 + 1), bit_and_ones k (a / 2), pow-suc 2 k)

pub bit_and_clear_low : (x : ℕ) → x < 2 ^ 32 → bit_and x 0xFFFF_FFFE ≡ x / 2 * 2
bit_and_clear_low x h = omega (arith, bit_and-digit x 0xFFFF_FFFE, bit_and_ones 31 (x / 2))
