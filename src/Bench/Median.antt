-- ===== src/Bench/Median.antt =====
-- riscv-tests/benchmarks/median/median.c: the median filter. An array is a function of its index,
-- an `int` its 32-bit pattern.
use rv32i_pipeline_fpga.Common.{
  ℕ, zero, suc, Bool, ◌+◌, ◌-◌, ◌<◌, ◌≤◌, ◌≡◌, refl, true, ap, ◌∙◌, Bool-cases, ◌⊎◌, inl, inr, ◌==◌,
  leb, ◌||◌, if◌then◌else◌, update, arith,
}
use rv32i_pipeline_fpga.Common.Int.{ℤ, lt_int, signed}

-- `a < b` of two `int`s.
abbrev pub lt_signed : ℕ → ℕ → Bool
lt_signed a b = lt_int (signed a) (signed b)

-- The value that the body writes for the neighbours `a`, `b`, `c`.
unfoldable pub filtered : ℕ → ℕ → ℕ → ℕ
filtered a b c =
    if lt_signed a b
    then (if lt_signed b c then b else if lt_signed c a then a else c)
    else (if lt_signed a c then a else if lt_signed c b then b else c)

-- `n` rounds of the loop from index `i` on.
unfoldable pub median_loop : ℕ → ℕ → (ℕ → ℕ) → (ℕ → ℕ) → ℕ → ℕ
median_loop zero i input results = results
median_loop (suc n) i input results =
    median_loop n (i + 1) input
      (update results i (filtered (input (i - 1)) (input i) (input (i + 1))))

-- `median`, for a length `n` of 1 or more.
unfoldable pub median : ℕ → (ℕ → ℕ) → (ℕ → ℕ) → ℕ → ℕ
median n input results = median_loop (n - 2) 1 input (update (update results 0 0) (n - 1) 0)

abbrev pub min_int : ℤ → ℤ → ℤ
min_int a b = if lt_int a b then a else b

abbrev pub max_int : ℤ → ℤ → ℤ
max_int a b = if lt_int a b then b else a

-- The middle one of three integers.
abbrev pub middle : ℤ → ℤ → ℤ → ℤ
middle a b c = max_int (min_int a b) (min_int (max_int a b) c)

filtered-middle : (a b c : ℕ) → signed (filtered a b c) ≡ middle (signed a) (signed b) (signed c)
unfolding filtered
filtered-middle a b c = ground arith

median_loop_outside :
    (n i k : ℕ) (input results : ℕ → ℕ)
    → (k < i) ⊎ (i + n ≤ k)
    → median_loop n i input results k ≡ results k
unfolding median_loop
median_loop_outside zero i k input results h = refl
median_loop_outside (suc n) i k input results h = ground (
  arith,
  median_loop_outside n (i + 1) k input
      (update results i (filtered (input (i - 1)) (input i) (input (i + 1)))),
)

median_loop_inside :
    (n i k : ℕ) (input results : ℕ → ℕ)
    → i ≤ k
    → k < i + n
    → median_loop n i input results k ≡ filtered (input (k - 1)) (input k) (input (k + 1))
unfolding median_loop
median_loop_inside zero i k input results h l = absurd (omega arith)
median_loop_inside (suc n) i k input results h l =
    let next = update results i (filtered (input (i - 1)) (input i) (input (i + 1))) in
    ground
      (arith, median_loop_inside n (i + 1) k input next, median_loop_outside n (i + 1) k input next)

median_outside :
    (n : ℕ) (input results : ℕ → ℕ) (k : ℕ)
    → 0 < n
    → (k < 1) ⊎ (1 + (n - 2) ≤ k)
    → median n input results k ≡ (if k == n - 1 then 0 else if k == 0 then 0 else results k)
unfolding median
median_outside n input results k pos out =
    median_loop_outside (n - 2) 1 k input (update (update results 0 0) (n - 1) 0) out

median_ends :
    (n : ℕ) (input results : ℕ → ℕ) (k : ℕ)
    → 0 < n
    → (k == 0 || k + 1 == n) ≡ true
    → median n input results k ≡ 0
median_ends n input results k pos end =
    median_outside n input results k pos (ground arith) ∙ ground arith

median_past :
    (n : ℕ) (input results : ℕ → ℕ) (k : ℕ)
    → 0 < n
    → leb n k ≡ true
    → median n input results k ≡ results k
median_past n input results k pos past =
    median_outside n input results k pos (inr (ground arith)) ∙ ground arith

median_inside :
    (n : ℕ) (input results : ℕ → ℕ) (k : ℕ)
    → 0 < k
    → k + 1 < n
    → median n input results k ≡ filtered (input (k - 1)) (input k) (input (k + 1))
unfolding median
median_inside n input results k low high =
    median_loop_inside (n - 2) 1 k input (update (update results 0 0) (n - 1) 0) (omega arith)
      (omega arith)

-- For a length of 1 or more: each inner result is the middle one of the input's three values
-- around it, as signed integers; the two ends are 0; nothing past the length is written.
pub median_lem :
    (n : ℕ) (input results : ℕ → ℕ) (k : ℕ)
    → 0 < n
    → signed (median n input results k) ≡ (
        if leb n k
        then signed (results k)
        else if k == 0 || k + 1 == n
        then signed 0
        else middle (signed (input (k - 1))) (signed (input k)) (signed (input (k + 1))))
median_lem n input results k pos = elim (Bool-cases (leb n k)) [
  | inl past ↦ rw past (ap signed (median_past n input results k pos past))
  | inr within ↦ rw within (elim (Bool-cases (k == 0 || k + 1 == n)) [
    | inl end ↦ rw end (ap signed (median_ends n input results k pos end))
    | inr inner ↦ rw inner (
        ap signed (median_inside n input results k (ground arith) (ground arith))
        ∙ filtered-middle (input (k - 1)) (input k) (input (k + 1)))
  ])
]
