-- ===== src/Matmul/Cv/Upper.antt =====
-- riscv-tests/mt/cv_matmul.c: the upper half of the rows, which core 0 computes.
use rv32i_pipeline_fpga.Common.{ℕ, ◌+◌, ◌*◌, List, [], ◌∷◌, ◌++◌}
use rv32i_pipeline_fpga.Matmul.{Op, fetch, fetch_b, increase, for_by}

unfoldable pub cv_upper_fetches : ℕ → ℕ → ℕ → List Op
cv_upper_fetches lda j m =
    fetch 0 (j * lda + 0 + 8 * m)
    ∷ fetch 1 (j * lda + 1 + 8 * m)
    ∷ fetch 2 (j * lda + 2 + 8 * m)
    ∷ fetch 3 (j * lda + 3 + 8 * m)
    ∷ fetch 4 (j * lda + 4 + 8 * m)
    ∷ fetch 5 (j * lda + 5 + 8 * m)
    ∷ fetch 6 (j * lda + 6 + 8 * m)
    ∷ fetch 7 (j * lda + 7 + 8 * m)
    ∷ []

unfoldable pub cv_upper_products0 : ℕ → ℕ → ℕ → ℕ → List Op
cv_upper_products0 lda j m n =
    fetch_b 8 ((0 + 8 * m) * lda + 0 + 8 * n)
    ∷ fetch_b 9 ((0 + 8 * m) * lda + 1 + 8 * n)
    ∷ fetch_b 10 ((0 + 8 * m) * lda + 2 + 8 * n)
    ∷ fetch_b 11 ((0 + 8 * m) * lda + 3 + 8 * n)
    ∷ fetch_b 12 ((0 + 8 * m) * lda + 4 + 8 * n)
    ∷ fetch_b 13 ((0 + 8 * m) * lda + 5 + 8 * n)
    ∷ fetch_b 14 ((0 + 8 * m) * lda + 6 + 8 * n)
    ∷ fetch_b 15 ((0 + 8 * m) * lda + 7 + 8 * n)
    ∷ increase (0 + 8 * n + j * lda) 0 8
    ∷ increase (1 + 8 * n + j * lda) 0 9
    ∷ increase (2 + 8 * n + j * lda) 0 10
    ∷ increase (3 + 8 * n + j * lda) 0 11
    ∷ increase (4 + 8 * n + j * lda) 0 12
    ∷ increase (5 + 8 * n + j * lda) 0 13
    ∷ increase (6 + 8 * n + j * lda) 0 14
    ∷ increase (7 + 8 * n + j * lda) 0 15
    ∷ []

unfoldable pub cv_upper_products1 : ℕ → ℕ → ℕ → ℕ → List Op
cv_upper_products1 lda j m n =
    fetch_b 8 ((1 + 8 * m) * lda + 0 + 8 * n)
    ∷ fetch_b 9 ((1 + 8 * m) * lda + 1 + 8 * n)
    ∷ fetch_b 10 ((1 + 8 * m) * lda + 2 + 8 * n)
    ∷ fetch_b 11 ((1 + 8 * m) * lda + 3 + 8 * n)
    ∷ fetch_b 12 ((1 + 8 * m) * lda + 4 + 8 * n)
    ∷ fetch_b 13 ((1 + 8 * m) * lda + 5 + 8 * n)
    ∷ fetch_b 14 ((1 + 8 * m) * lda + 6 + 8 * n)
    ∷ fetch_b 15 ((1 + 8 * m) * lda + 7 + 8 * n)
    ∷ increase (0 + 8 * n + j * lda) 1 8
    ∷ increase (1 + 8 * n + j * lda) 1 9
    ∷ increase (2 + 8 * n + j * lda) 1 10
    ∷ increase (3 + 8 * n + j * lda) 1 11
    ∷ increase (4 + 8 * n + j * lda) 1 12
    ∷ increase (5 + 8 * n + j * lda) 1 13
    ∷ increase (6 + 8 * n + j * lda) 1 14
    ∷ increase (7 + 8 * n + j * lda) 1 15
    ∷ []

unfoldable pub cv_upper_products2 : ℕ → ℕ → ℕ → ℕ → List Op
cv_upper_products2 lda j m n =
    fetch_b 8 ((2 + 8 * m) * lda + 0 + 8 * n)
    ∷ fetch_b 9 ((2 + 8 * m) * lda + 1 + 8 * n)
    ∷ fetch_b 10 ((2 + 8 * m) * lda + 2 + 8 * n)
    ∷ fetch_b 11 ((2 + 8 * m) * lda + 3 + 8 * n)
    ∷ fetch_b 12 ((2 + 8 * m) * lda + 4 + 8 * n)
    ∷ fetch_b 13 ((2 + 8 * m) * lda + 5 + 8 * n)
    ∷ fetch_b 14 ((2 + 8 * m) * lda + 6 + 8 * n)
    ∷ fetch_b 15 ((2 + 8 * m) * lda + 7 + 8 * n)
    ∷ increase (0 + 8 * n + j * lda) 2 8
    ∷ increase (1 + 8 * n + j * lda) 2 9
    ∷ increase (2 + 8 * n + j * lda) 2 10
    ∷ increase (3 + 8 * n + j * lda) 2 11
    ∷ increase (4 + 8 * n + j * lda) 2 12
    ∷ increase (5 + 8 * n + j * lda) 2 13
    ∷ increase (6 + 8 * n + j * lda) 2 14
    ∷ increase (7 + 8 * n + j * lda) 2 15
    ∷ []

unfoldable pub cv_upper_products3 : ℕ → ℕ → ℕ → ℕ → List Op
cv_upper_products3 lda j m n =
    fetch_b 8 ((3 + 8 * m) * lda + 0 + 8 * n)
    ∷ fetch_b 9 ((3 + 8 * m) * lda + 1 + 8 * n)
    ∷ fetch_b 10 ((3 + 8 * m) * lda + 2 + 8 * n)
    ∷ fetch_b 11 ((3 + 8 * m) * lda + 3 + 8 * n)
    ∷ fetch_b 12 ((3 + 8 * m) * lda + 4 + 8 * n)
    ∷ fetch_b 13 ((3 + 8 * m) * lda + 5 + 8 * n)
    ∷ fetch_b 14 ((3 + 8 * m) * lda + 6 + 8 * n)
    ∷ fetch_b 15 ((3 + 8 * m) * lda + 7 + 8 * n)
    ∷ increase (0 + 8 * n + j * lda) 3 8
    ∷ increase (1 + 8 * n + j * lda) 3 9
    ∷ increase (2 + 8 * n + j * lda) 3 10
    ∷ increase (3 + 8 * n + j * lda) 3 11
    ∷ increase (4 + 8 * n + j * lda) 3 12
    ∷ increase (5 + 8 * n + j * lda) 3 13
    ∷ increase (6 + 8 * n + j * lda) 3 14
    ∷ increase (7 + 8 * n + j * lda) 3 15
    ∷ []

unfoldable pub cv_upper_products4 : ℕ → ℕ → ℕ → ℕ → List Op
cv_upper_products4 lda j m n =
    fetch_b 8 ((4 + 8 * m) * lda + 0 + 8 * n)
    ∷ fetch_b 9 ((4 + 8 * m) * lda + 1 + 8 * n)
    ∷ fetch_b 10 ((4 + 8 * m) * lda + 2 + 8 * n)
    ∷ fetch_b 11 ((4 + 8 * m) * lda + 3 + 8 * n)
    ∷ fetch_b 12 ((4 + 8 * m) * lda + 4 + 8 * n)
    ∷ fetch_b 13 ((4 + 8 * m) * lda + 5 + 8 * n)
    ∷ fetch_b 14 ((4 + 8 * m) * lda + 6 + 8 * n)
    ∷ fetch_b 15 ((4 + 8 * m) * lda + 7 + 8 * n)
    ∷ increase (0 + 8 * n + j * lda) 4 8
    ∷ increase (1 + 8 * n + j * lda) 4 9
    ∷ increase (2 + 8 * n + j * lda) 4 10
    ∷ increase (3 + 8 * n + j * lda) 4 11
    ∷ increase (4 + 8 * n + j * lda) 4 12
    ∷ increase (5 + 8 * n + j * lda) 4 13
    ∷ increase (6 + 8 * n + j * lda) 4 14
    ∷ increase (7 + 8 * n + j * lda) 4 15
    ∷ []

unfoldable pub cv_upper_products5 : ℕ → ℕ → ℕ → ℕ → List Op
cv_upper_products5 lda j m n =
    fetch_b 8 ((5 + 8 * m) * lda + 0 + 8 * n)
    ∷ fetch_b 9 ((5 + 8 * m) * lda + 1 + 8 * n)
    ∷ fetch_b 10 ((5 + 8 * m) * lda + 2 + 8 * n)
    ∷ fetch_b 11 ((5 + 8 * m) * lda + 3 + 8 * n)
    ∷ fetch_b 12 ((5 + 8 * m) * lda + 4 + 8 * n)
    ∷ fetch_b 13 ((5 + 8 * m) * lda + 5 + 8 * n)
    ∷ fetch_b 14 ((5 + 8 * m) * lda + 6 + 8 * n)
    ∷ fetch_b 15 ((5 + 8 * m) * lda + 7 + 8 * n)
    ∷ increase (0 + 8 * n + j * lda) 5 8
    ∷ increase (1 + 8 * n + j * lda) 5 9
    ∷ increase (2 + 8 * n + j * lda) 5 10
    ∷ increase (3 + 8 * n + j * lda) 5 11
    ∷ increase (4 + 8 * n + j * lda) 5 12
    ∷ increase (5 + 8 * n + j * lda) 5 13
    ∷ increase (6 + 8 * n + j * lda) 5 14
    ∷ increase (7 + 8 * n + j * lda) 5 15
    ∷ []

unfoldable pub cv_upper_products6 : ℕ → ℕ → ℕ → ℕ → List Op
cv_upper_products6 lda j m n =
    fetch_b 8 ((6 + 8 * m) * lda + 0 + 8 * n)
    ∷ fetch_b 9 ((6 + 8 * m) * lda + 1 + 8 * n)
    ∷ fetch_b 10 ((6 + 8 * m) * lda + 2 + 8 * n)
    ∷ fetch_b 11 ((6 + 8 * m) * lda + 3 + 8 * n)
    ∷ fetch_b 12 ((6 + 8 * m) * lda + 4 + 8 * n)
    ∷ fetch_b 13 ((6 + 8 * m) * lda + 5 + 8 * n)
    ∷ fetch_b 14 ((6 + 8 * m) * lda + 6 + 8 * n)
    ∷ fetch_b 15 ((6 + 8 * m) * lda + 7 + 8 * n)
    ∷ increase (0 + 8 * n + j * lda) 6 8
    ∷ increase (1 + 8 * n + j * lda) 6 9
    ∷ increase (2 + 8 * n + j * lda) 6 10
    ∷ increase (3 + 8 * n + j * lda) 6 11
    ∷ increase (4 + 8 * n + j * lda) 6 12
    ∷ increase (5 + 8 * n + j * lda) 6 13
    ∷ increase (6 + 8 * n + j * lda) 6 14
    ∷ increase (7 + 8 * n + j * lda) 6 15
    ∷ []

unfoldable pub cv_upper_products7 : ℕ → ℕ → ℕ → ℕ → List Op
cv_upper_products7 lda j m n =
    fetch_b 8 ((7 + 8 * m) * lda + 0 + 8 * n)
    ∷ fetch_b 9 ((7 + 8 * m) * lda + 1 + 8 * n)
    ∷ fetch_b 10 ((7 + 8 * m) * lda + 2 + 8 * n)
    ∷ fetch_b 11 ((7 + 8 * m) * lda + 3 + 8 * n)
    ∷ fetch_b 12 ((7 + 8 * m) * lda + 4 + 8 * n)
    ∷ fetch_b 13 ((7 + 8 * m) * lda + 5 + 8 * n)
    ∷ fetch_b 14 ((7 + 8 * m) * lda + 6 + 8 * n)
    ∷ fetch_b 15 ((7 + 8 * m) * lda + 7 + 8 * n)
    ∷ increase (0 + 8 * n + j * lda) 7 8
    ∷ increase (1 + 8 * n + j * lda) 7 9
    ∷ increase (2 + 8 * n + j * lda) 7 10
    ∷ increase (3 + 8 * n + j * lda) 7 11
    ∷ increase (4 + 8 * n + j * lda) 7 12
    ∷ increase (5 + 8 * n + j * lda) 7 13
    ∷ increase (6 + 8 * n + j * lda) 7 14
    ∷ increase (7 + 8 * n + j * lda) 7 15
    ∷ []

-- Eight products of eight elements.
unfoldable pub cv_upper_strip : ℕ → ℕ → ℕ → ℕ → List Op
cv_upper_strip lda j m n =
    cv_upper_products0 lda j m n
    ++ (cv_upper_products1 lda j m n
        ++ (cv_upper_products2 lda j m n
            ++ (cv_upper_products3 lda j m n
                ++ (cv_upper_products4 lda j m n
                    ++ (cv_upper_products5 lda j m n
                        ++ (cv_upper_products6 lda j m n ++ (cv_upper_products7 lda j m n)))))))

-- A row.
unfoldable pub cv_upper_row : ℕ → ℕ → List Op
cv_upper_row lda j =
    for_by 1 0 4 (λ m. cv_upper_fetches lda j m ++ for_by 1 0 4 (cv_upper_strip lda j m))
