-- ===== src/Heap/Cuts.antt =====
-- tiny-malloc.c, `memalign`: what a block is cut into.
use rv32i_pipeline_fpga.Common.{
  ℕ, ◌+◌, ◌-◌, ◌^◌, ◌≤◌, ◌<◌, ◌≡◌, refl, ap, ◌∙◌, some, List, arith, leb, ◌==◌, Bool-cases, inl,
  inr,
}
use rv32i_pipeline_fpga.Heap.{Block}
use rv32i_pipeline_fpga.Heap.Search.{total, found, IsAdditive}
use rv32i_pipeline_fpga.Heap.Memalign.{size_t, size_t_sub, place_block}

module _ (m : ℕ → ℕ → ℕ) (additive : IsAdditive m) where
  pub nothing_at : (a : ℕ) → m a 0 ≡ 0
  nothing_at a =
      let twice : m a 0 ≡ m a 0 + m a 0 = additive a 0 0 ∙ ap (λ x. m a 0 + m x 0) (omega arith) in
      omega (arith, twice)

  pub cut : (a n k : ℕ) → k ≤ n → m a n ≡ m a k + m (a + k) (n - k)
  cut a n k l = let parts : n ≡ k + (n - k) = omega arith in ap (m a) parts ∙ additive a k (n - k)

  -- A block of the address space and the ones it is cut into measure the same; the one that is
  -- given is past the bytes before it, and large enough.
  pub place_block-total :
      (r before : ℕ) (b : Block) (bs : List Block) (end : ℕ)
      → r + 16 < 2 ^ 64
      → b.addr + b.size < 2 ^ 64
      → r + before ≤ b.size
      → let f = place_block r before b bs end in
        (total m f.rest + found m f ≡ m b.addr b.size + total m bs)
        × (f.new_end ≡ end)
        × (f.at ≡ some (b.addr + before))
        × (r ≤ f.block_size)
  unfolding place_block
  place_block-total r before b bs end small inside fits =
      let margin : size_t (r + 16) ≡ r + 16 = omega arith in
      let second : size_t (b.addr + before) ≡ b.addr + before = omega arith in
      let left : size_t_sub b.size before ≡ b.size - before = omega arith in
      elim (Bool-cases (before == 0)) [
        | inl flush ↦
            let here : some b.addr ≡ some (b.addr + before) = ap some (ground (arith, flush)) in
            elim (Bool-cases (leb b.size (r + 16))) [
              | inl exact ↦ rw (flush, margin, exact) (omega arith, refl, here, omega arith)
              | inr split ↦
                  let next : size_t (b.addr + r) ≡ b.addr + r = omega arith in
                  let rest : size_t_sub b.size r ≡ b.size - r = omega arith in
                  rw (flush, margin, split, next, rest)
                    (omega (arith, cut b.addr b.size r (omega arith)), refl, here, omega arith)
            ]
        | inr apart ↦ elim (Bool-cases (leb (b.size - before) (r + 16))) [
          | inl exact ↦
              rw (apart, margin, left, second, exact)
                (omega (arith, cut b.addr b.size before (omega arith)), refl, refl, omega arith)
          | inr split ↦
              let third : size_t (b.addr + before + r) ≡ b.addr + before + r = omega arith in
              let rest : size_t_sub (b.size - before) r ≡ b.size - before - r = omega arith in
              rw (apart, margin, left, second, split, third, rest)
                (
                  omega (
                    arith,
                    cut b.addr b.size before (omega arith),
                    cut (b.addr + before) (b.size - before) r (omega arith),
                  ),
                  refl,
                  refl,
                  omega arith,
                )
        ]
      ]
