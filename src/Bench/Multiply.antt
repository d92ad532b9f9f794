-- ===== src/Bench/Multiply.antt =====
-- riscv-tests/benchmarks/multiply/multiply.c: 32-bit multiplication by shifts and additions. An
-- `int` is its 32-bit pattern and wraps.
use rv32i_pipeline_fpga.Common.{
  ℕ, zero, suc, ◌+◌, ◌*◌, ◌/◌, ◌%◌, ◌<◌, ◌≡◌, refl, ap, ◌∙◌, ◌==◌, if◌then◌else◌, add32, word_mod,
  arith,
}

-- `x >> 1` of an `int`: the sign bit stays.
unfoldable pub shift_right_1 : ℕ → ℕ
shift_right_1 x = x / 2 + x / 0x8000_0000 * 0x8000_0000

-- `y << 1`.
unfoldable pub shift_left_1 : ℕ → ℕ
shift_left_1 y = y * 2 % word_mod

-- `n` rounds of the loop.
unfoldable pub multiply_loop : ℕ → ℕ → ℕ → ℕ → ℕ
multiply_loop zero x y result = result
multiply_loop (suc n) x y result =
    multiply_loop n (shift_right_1 x) (shift_left_1 y)
      (if x % 2 == 1 then add32 result y else result)

unfoldable pub multiply : ℕ → ℕ → ℕ
multiply x y = multiply_loop 32 x y 0

doublings : ℕ → ℕ → ℕ
doublings zero y = y
doublings (suc n) y = doublings n (shift_left_1 y)

-- Thirty-two doublings shift every bit out.
doublings-32 : (y : ℕ) → doublings 32 y ≡ 0
unfolding doublings shift_left_1
doublings-32 y = omega arith

-- Equal up to multiples of the word size.
mod_of_multiples : (a b p q : ℕ) → a + word_mod * p ≡ b + word_mod * q → a % word_mod ≡ b % word_mod
mod_of_multiples a b p q h = omega arith

-- A round keeps `result + x * y` up to multiples of the word size.
module _ (x y r : ℕ) where
  half_twice : shift_right_1 x * 2 + x % 2 ≡ x + x / 0x8000_0000 * word_mod
  unfolding shift_right_1
  half_twice = omega arith

  added :
      (if x % 2 == 1 then add32 r y else r) + word_mod * (x % 2 * ((r + y) / word_mod))
      ≡ r + x % 2 * y
  added = ground arith

  round_keeps :
      ((if x % 2 == 1 then add32 r y else r) + shift_right_1 x * shift_left_1 y) % word_mod
      ≡ (r + x * y) % word_mod
  unfolding shift_left_1
  round_keeps =
      let h = shift_right_1 x in
      let k = y * 2 / word_mod in
      let e : h * (y * 2 % word_mod + word_mod * k) ≡ h * (y * 2) =
        ap (λ (t : ℕ). h * t) (omega arith) in
      let f : (h * 2 + x % 2) * y ≡ (x + x / 0x8000_0000 * word_mod) * y =
        ap (λ (t : ℕ). t * y) half_twice in
      mod_of_multiples _ _ (x % 2 * ((r + y) / word_mod) + h * k) (x / 0x8000_0000 * y)
        (omega (arith, added, e, f))

rest_of : ℕ → ℕ → ℕ
rest_of zero x = x
rest_of (suc n) x = rest_of n (shift_right_1 x)

multiply_loop-keeps :
    (n x y r : ℕ)
    → (multiply_loop n x y r + rest_of n x * doublings n y) % word_mod ≡ (r + x * y) % word_mod
unfolding multiply_loop rest_of doublings
multiply_loop-keeps zero x y r = refl
multiply_loop-keeps (suc n) x y r =
    multiply_loop-keeps n (shift_right_1 x) (shift_left_1 y) (if x % 2 == 1 then add32 r y else r)
    ∙ round_keeps x y r

multiply_loop-lt : (n x y r : ℕ) → r < word_mod → multiply_loop n x y r < word_mod
unfolding multiply_loop
multiply_loop-lt zero x y r h = h
multiply_loop-lt (suc n) x y r h = multiply_loop-lt n _ _ _ (ground arith)

-- For any two words, `multiply` gives the low 32 bits of their product.
pub multiply_lem : (x y : ℕ) → multiply x y ≡ x * y % word_mod
unfolding multiply
multiply_lem x y =
    let r = multiply_loop 32 x y 0 in
    let small : r < word_mod = multiply_loop-lt 32 x y 0 (omega arith) in
    let e : rest_of 32 x * doublings 32 y ≡ rest_of 32 x * 0 =
      ap (λ (t : ℕ). rest_of 32 x * t) (doublings-32 y) in
    omega (arith, multiply_loop-keeps 32 x y 0, e, small)
