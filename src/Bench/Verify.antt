-- ===== src/Bench/Verify.antt =====
-- verify, verifyDouble and verifyFloat of riscv-tests/benchmarks/common/util.h: the result check
-- of the benchmarks. `same i` is what the comparison `test[i] == verify[i]` gives, a parameter,
-- since two of the functions compare floating-point numbers.
use rv32i_pipeline_fpga.Common.{
  ℕ, zero, suc, Bool, true, ◌+◌, ◌-◌, ◌*◌, ◌/◌, ◌%◌, ◌<◌, ◌≤◌, ◌≡◌, refl, ap, ◌∙◌, not, ◌&&◌, ◌==◌,
  if◌then◌else◌, bit_of, arith, Bool-cases, inl, inr,
}

module _ (same : ℕ → Bool) where
  -- What follows the unrolled loop: the last element of an odd length.
  unfoldable pub verify_last : ℕ → ℕ
  verify_last n = if not (n % 2 == 0) && not (same (n - 1)) then n else 0

  -- The loop of `verify` from the even index `i` on, `rounds` pairs left.
  unfoldable pub verify_pairs : ℕ → ℕ → ℕ → ℕ
  verify_pairs zero i n = verify_last n
  verify_pairs (suc rounds) i n =
      let rest = verify_pairs rounds (i + 2) n in
      if not (same i) then i + 1 else if not (same (i + 1)) then i + 2 else rest

  unfoldable pub verify_ints : ℕ → ℕ
  verify_ints n = verify_pairs (n / 2) 0 n

  -- The loop of `verifyDouble` and of `verifyFloat`, with its one test of both comparisons.
  unfoldable pub verify_float_pairs : ℕ → ℕ → ℕ → ℕ
  verify_float_pairs zero i n = verify_last n
  verify_float_pairs (suc rounds) i n =
      let rest = verify_float_pairs rounds (i + 2) n in
      let eq1 = same i in
      let eq2 = same (i + 1) in if not (eq1 && eq2) then i + 1 + bit_of eq1 else rest

  unfoldable pub verify_floats : ℕ → ℕ
  verify_floats n = verify_float_pairs (n / 2) 0 n

  -- One more than the index of the first difference among the `rounds` elements from `i` on, and 0
  -- if there is none.
  unfoldable pub first_difference : ℕ → ℕ → ℕ
  first_difference zero i = 0
  first_difference (suc rounds) i =
      let rest = first_difference rounds (i + 1) in if same i then rest else i + 1

  last-difference :
      (i n : ℕ) → i + n % 2 ≡ n → i % 2 ≡ 0 → verify_last n ≡ first_difference (n % 2) i
  unfolding verify_last first_difference
  last-difference i n e even = elim (Bool-cases (n % 2 == 0)) [
    | inl none_left ↦ let z : n % 2 ≡ 0 = ground arith in rw z refl
    | inr one_left ↦
        let z : n % 2 ≡ 1 = ground arith in
        let p : n - 1 ≡ i = omega arith in rw (z, p) (ground arith)
  ]

  -- Both unrolled bodies are two steps of the plain search.
  step_pairs :
      (rounds i n k : ℕ)
      → verify_pairs rounds (i + 2) n ≡ first_difference k (i + 2)
      → verify_pairs (suc rounds) i n ≡ first_difference (suc (suc k)) i
  unfolding verify_pairs first_difference
  step_pairs rounds i n k ih =
      let two : i + 1 + 1 ≡ i + 2 = omega arith in rw (two, ih) (ground arith)

  step_floats :
      (rounds i n k : ℕ)
      → verify_float_pairs rounds (i + 2) n ≡ first_difference k (i + 2)
      → verify_float_pairs (suc rounds) i n ≡ first_difference (suc (suc k)) i
  unfolding verify_float_pairs first_difference
  step_floats rounds i n k ih =
      let two : i + 1 + 1 ≡ i + 2 = omega arith in rw (two, ih) (ground arith)

  count : (rounds m : ℕ) → suc rounds * 2 + m ≡ suc (suc (rounds * 2 + m))
  count rounds m = omega arith

  none_left : (m : ℕ) → 0 * 2 + m ≡ m
  none_left m = omega arith

  pairs-difference :
      (rounds i n : ℕ)
      → i + rounds * 2 + n % 2 ≡ n
      → i % 2 ≡ 0
      → verify_pairs rounds i n ≡ first_difference (rounds * 2 + n % 2) i
  unfolding verify_pairs
  pairs-difference zero i n e even = rw (none_left (n % 2)) (last-difference i n (omega arith) even)
  pairs-difference (suc rounds) i n e even =
      rw (count rounds (n % 2))
        (step_pairs rounds i n _ (pairs-difference rounds (i + 2) n (omega arith) (omega arith)))

  floats-difference :
      (rounds i n : ℕ)
      → i + rounds * 2 + n % 2 ≡ n
      → i % 2 ≡ 0
      → verify_float_pairs rounds i n ≡ first_difference (rounds * 2 + n % 2) i
  unfolding verify_float_pairs
  floats-difference zero i n e even =
      rw (none_left (n % 2)) (last-difference i n (omega arith) even)
  floats-difference (suc rounds) i n e even =
      rw (count rounds (n % 2))
        (step_floats rounds i n _ (floats-difference rounds (i + 2) n (omega arith) (omega arith)))

  halves : (n : ℕ) → n / 2 * 2 + n % 2 ≡ n
  halves n = omega arith

  -- For every length the three checks, unrolled by two, return one more than the index of the first
  -- difference, and 0 if there is none.
  pub verify_lem :
      (n : ℕ) → (verify_ints n ≡ first_difference n 0) × (verify_floats n ≡ first_difference n 0)
  unfolding verify_ints verify_floats
  verify_lem n = (
    pairs-difference (n / 2) 0 n (omega arith) (omega arith)
        ∙ ap (λ (m : ℕ). first_difference m 0) (halves n),
    floats-difference (n / 2) 0 n (omega arith) (omega arith)
        ∙ ap (λ (m : ℕ). first_difference m 0) (halves n),
  )

  -- Where the search returns 0, all the elements compare equal.
  first_difference-zero : (n i k : ℕ) → first_difference n i ≡ 0 → i ≤ k → k < i + n → same k ≡ true
  unfolding first_difference
  first_difference-zero zero i k e low high = absurd (omega arith)
  first_difference-zero (suc n) i k e low high = ground (arith, first_difference-zero n (i + 1) k)
