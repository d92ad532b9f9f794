-- ===== src/Matmul/Cases.antt =====
-- riscv-tests/mt/: the variables of an unrolled group one by one, and an index of the source.
use native.Mathlib.Decide.{dec_lt}
use rv32i_pipeline_fpga.Common.{ℕ, ◌+◌, ◌<◌, ◌≡◌, subst, arith, ◌==◌, if◌then◌else◌}

below_next : (P : ℕ → Type 0) (n : ℕ) → ((t : ℕ) → t < n → P t) → P n → (t : ℕ) → t < n + 1 → P t
below_next P n below at t h = elim (dec_lt t n) [
  | yes l ↦ below t l
  | no out ↦ subst P (omega arith) at
]

below_4 : (P : ℕ → Type 0) → P 0 → P 1 → P 2 → P 3 → (t : ℕ) → t < 4 → P t
below_4 P p0 p1 p2 p3 =
    below_next P 3
      (below_next P 2 (below_next P 1 (below_next P 0 (λ t h. absurd (omega arith)) p0) p1) p2) p3

-- A statement of each number below 8.
pub below_8 :
    (P : ℕ → Type 0) → P 0 → P 1 → P 2 → P 3 → P 4 → P 5 → P 6 → P 7 → (t : ℕ) → t < 8 → P t
below_8 P p0 p1 p2 p3 p4 p5 p6 p7 =
    below_next P 7
      (below_next P 6 (below_next P 5 (below_next P 4 (below_4 P p0 p1 p2 p3) p4) p5) p6) p7

-- An index of the source: a number is not written where it is 0.
abbrev pub plus : ℕ → ℕ → ℕ
plus x n = if n == 0 then x else x + n

pub plus-add : (x n : ℕ) → plus x n ≡ x + n
plus-add x n = ground arith
