-- ===== src/Matmul/Eights.antt =====
-- az_matmul.c: what eight elements of a row at a time fill.
use rv32i_pipeline_fpga.Common.{
  ℕ, ◌+◌, ◌-◌, ◌*◌, ◌/◌, ◌%◌, ◌≤◌, ◌<◌, ◌≡◌, refl, ◌∙◌, arith, Bool, true,
}
use rv32i_pipeline_fpga.Matmul.{DataOps, clear, Core, exec, run, each, for_by, for_to, dot}
use rv32i_pipeline_fpga.Matmul.Cases.{below_8, plus, plus-add}
use rv32i_pipeline_fpga.Matmul.Sweep.{sweep_c, sweep_temp}
use rv32i_pipeline_fpga.Matmul.Cores.{AreOwn-each, AreOwn-tile}
use rv32i_pipeline_fpga.Matmul.Tiles.{Any, cell_of, tile-Computes}
use rv32i_pipeline_fpga.Matmul.Regions.{span, Part, Part-for_by, span-IsBand}
use rv32i_pipeline_fpga.Matmul.Az.{az_clears, az_adds, az_stores, az_block}

span-bounds : (lo hi i : ℕ) → span lo hi i ≡ true → (lo ≤ i) × (i < hi)
span-bounds lo hi i e = ground arith

bounds-span : (lo hi i : ℕ) → lo ≤ i → i < hi → span lo hi i ≡ true
bounds-span lo hi i a b = ground arith

module _ {D : Type 0} (ops : DataOps D) (A B : ℕ → D) (j k : ℕ) (s : Core D) where
  round_c : (run ops A B (az_adds j k) s).c ≡ s.c
  unfolding run exec az_adds
  round_c = refl

  abbrev Adds : ℕ → Type 0
  Adds t =
      (run ops A B (az_adds j k) s).temp t
      ≡ ops.add (ops.add (s.temp t) (ops.mul (A (k + j / 32 * 32)) (B (plus (j % 32) t + k * 32))))
          (ops.mul (A (k + 1 + j / 32 * 32)) (B (plus (j % 32) t + (k * 32 + 32))))

  round-Adds : (t : ℕ) → t < 8 → Adds t
  unfolding run exec az_adds
  round-Adds = below_8 Adds refl refl refl refl refl refl refl refl

module _ {D : Type 0} (ops : DataOps D) (A B : ℕ → D) (j : ℕ) (aligned : j % 8 ≡ 0) where
  two_products :
      (acc : D) (x x' y y' z z' w w' : ℕ)
      → x ≡ x'
      → y ≡ y'
      → z ≡ z'
      → w ≡ w'
      → ops.add (ops.add acc (ops.mul (A x) (B y))) (ops.mul (A z) (B w))
        ≡ ops.add (ops.add acc (ops.mul (A x') (B y'))) (ops.mul (A z') (B w'))
  two_products acc x x' y y' z z' w w' e f g h = rw (e, f, g, h) refl

  round_temp :
      (k t : ℕ) (s : Core D)
      → t < 8
      → (run ops A B (az_adds j k) s).temp t ≡ cell_of ops A B 32 (plus j t) k 2 (s.temp t)
  unfolding dot
  round_temp k t s bound =
      let e = plus-add j t in
      let f = plus-add (j % 32) t in
      round-Adds ops A B j k s t bound
      ∙ two_products (s.temp t) _ _ _ _ _ _ _ _ (omega (arith, e, f)) (omega (arith, e, f))
          (omega (arith, e, f)) (omega (arith, e, f))

  module _ (own : ℕ → Bool) (mine : (t : ℕ) → t < 8 → own (plus j t) ≡ true) where
    block-Part : Part ops A B 32 0 32 Any (λ v. ops.nought) own (az_block 32 j) (span j (j + 8))
    unfolding exec az_block az_adds az_clears az_stores each for_to
    block-Part = record {
      fills =
          tile-Computes ops A B 32 8 2 (plus j) (az_adds j) (λ k s. round_c ops A B j k s)
            round_temp 0 32 16 refl (λ v. ops.nought) (each 0 8 (λ t. clear t))
            (λ s. sweep_c ops A B (λ t. clear t) (λ t v c. ops.nought) (λ t s'. refl) 0 8 s)
            (λ t s bound.
              sweep_temp ops A B (λ t'. clear t') (λ t' v c. ops.nought) (λ t' s'. refl) 0 8 t s
                (omega arith) (omega arith))
            (λ v w l h e. absurd (omega (arith, e, plus-add j v, plus-add j w))) (span j (j + 8))
            (λ x. x - j)
            (λ x e.
              let (a, b) = span-bounds j (j + 8) x e in
              (omega arith, omega (arith, plus-add j (x - j))))
            (λ t bound.
              let e = plus-add j t in
              bounds-span j (j + 8) (plus j t) (omega (arith, e)) (omega (arith, e)));
      owned =
          AreOwn-tile own 8 2 0 16 (plus j) (each 0 8 (λ t. clear t)) (az_adds j) mine
            (AreOwn-each own (λ t. clear t) 0 8 (λ t l h. omega arith)) (λ k. ground arith);
    }

-- The elements from `lo` to `hi`.
pub az_span-Part :
    {D : Type 0} (ops : DataOps D) (A B : ℕ → D) (own : ℕ → Bool) (lo count hi : ℕ)
    → lo % 8 ≡ 0
    → hi ≡ lo + count * 8
    → ((x : ℕ) → lo ≤ x → x < hi → own x ≡ true)
    → Part ops A B 32 0 32 Any (λ v. ops.nought) own (for_by 8 lo count (az_block 32)) (span lo hi)
az_span-Part ops A B own lo count hi aligned end mine =
    Part-for_by ops A B 32 0 32 Any (λ v. ops.nought) own span 8 (az_block 32) (λ x. x % 8 ≡ 0)
      span-IsBand (λ x ok. omega arith) lo count hi end aligned
      (λ j ok l h.
        block-Part ops A B j ok own (λ t bound.
          let e = plus-add j t in mine (plus j t) (omega (arith, e)) (omega (arith, e))))
