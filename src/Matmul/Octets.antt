-- ===== src/Matmul/Octets.antt =====
-- bk_matmul.c and dv_matmul.c: what eight elements of a row at a time make of half of `C`, in two
-- passes.
use rv32i_pipeline_fpga.Common.{
  ℕ, ◌+◌, ◌-◌, ◌*◌, ◌/◌, ◌%◌, ◌≤◌, ◌<◌, ◌≡◌, refl, ap₂, subst, ◌∙◌, List, ◌∷◌, ◌++◌, min, arith,
  Bool, true,
}
use rv32i_pipeline_fpga.Matmul.{
  DataOps, Op, load, fetch, accumulate_by, store, Core, exec, run, each, for_by, for_to, dot,
}
use rv32i_pipeline_fpga.Matmul.Cases.{below_8, plus, plus-add}
use rv32i_pipeline_fpga.Matmul.Sweep.{sweep_c, sweep_temp}
use rv32i_pipeline_fpga.Matmul.Cores.{AreOwn-each, AreOwn-tile}
use rv32i_pipeline_fpga.Matmul.Tiles.{Any, cell_of, tile-Computes}
use rv32i_pipeline_fpga.Matmul.Regions.{
  rect, rect-bounds, bounds-rect, Part, Part-for_by, rows-IsBand, columns-IsBand,
}
use rv32i_pipeline_fpga.Matmul.Slices.{Part-slices}
use rv32i_pipeline_fpga.Matmul.Bk
use rv32i_pipeline_fpga.Matmul.Bk.{bk_upper, bk_lower}
use rv32i_pipeline_fpga.Matmul.Dv
use rv32i_pipeline_fpga.Matmul.Dv.{dv_upper, dv_lower}

-- The element of the variable `t`.
abbrev cell : ℕ → ℕ → ℕ → ℕ
cell j i t = plus (i + j * 32) t

abbrev products : ℕ → ℕ → ℕ → List Op
products j i k = fetch 8 (j * 32 + k) ∷ each 0 8 (λ t. accumulate_by t 8 (plus (k * 32 + i) t))

abbrev octet : ℕ → ℕ → ℕ → ℕ → List Op
octet n kk j i =
    each 0 8 (λ t. load t (cell j i t))
    ++ (for_by 1 kk n (products j i) ++ each 0 8 (λ t. store (cell j i t) t))

module _ {D : Type 0} (ops : DataOps D) (A B : ℕ → D) (j i k : ℕ) (s : Core D) where
  round_c : (run ops A B (products j i k) s).c ≡ s.c
  unfolding run exec each
  round_c = refl

  abbrev Adds : ℕ → Type 0
  Adds t =
      (run ops A B (products j i k) s).temp t
      ≡ ops.add (s.temp t) (ops.mul (A (j * 32 + k)) (B (plus (k * 32 + i) t)))

  round-Adds : (t : ℕ) → t < 8 → Adds t
  unfolding run exec each
  round-Adds = below_8 Adds refl refl refl refl refl refl refl refl

module _ {D : Type 0} (ops : DataOps D) (A B : ℕ → D) (j i : ℕ) (low : i + 8 ≤ 32) where
  round_temp :
      (k t : ℕ) (s : Core D)
      → t < 8
      → (run ops A B (products j i k) s).temp t ≡ cell_of ops A B 32 (cell j i t) k 1 (s.temp t)
  unfolding dot
  round_temp k t s bound =
      let e = plus-add (i + j * 32) t in
      round-Adds ops A B j i k s t bound
      ∙ ap₂ (λ x y. ops.add (s.temp t) (ops.mul (A x) (B y))) (omega (arith, e))
          (omega (arith, e, plus-add (k * 32 + i) t))

  octet-Part :
      (own : ℕ → Bool) (kk : ℕ)
      → ((t : ℕ) → t < 8 → own (cell j i t) ≡ true)
      → Part ops A B 32 kk 16 Any (λ v. v) own (octet 16 kk j i) (rect j (j + 1) i (i + 8))
  unfolding exec each
  octet-Part own kk mine = record {
    fills =
        tile-Computes ops A B 32 8 1 (cell j i) (products j i) (λ k s. round_c ops A B j i k s)
          round_temp kk 16 16 refl (λ v. v) (each 0 8 (λ t. load t (cell j i t)))
          (λ s.
            sweep_c ops A B (λ t. load t (cell j i t)) (λ t v c. c (cell j i t)) (λ t s'. refl) 0 8
              s)
          (λ t s bound.
            sweep_temp ops A B (λ t'. load t' (cell j i t')) (λ t' v c. c (cell j i t'))
              (λ t' s'. refl) 0 8 t s (omega arith) (omega arith))
          (λ v w l h e. absurd (omega (arith, e, plus-add (i + j * 32) v, plus-add (i + j * 32) w)))
          (rect j (j + 1) i (i + 8)) (λ x. x % 32 - i)
          (λ x e.
            let (a, b, c, d) = rect-bounds j (j + 1) i (i + 8) x e in
            (omega arith, omega (arith, plus-add (i + j * 32) (x % 32 - i))))
          (λ t bound.
            let e = plus-add (i + j * 32) t in
            bounds-rect j (j + 1) i (i + 8) (cell j i t) (omega (arith, e)) (omega (arith, e))
              (omega (arith, e)) (omega (arith, e)));
    owned =
        AreOwn-tile own 8 1 kk 16 (cell j i) (each 0 8 (λ t. load t (cell j i t))) (products j i)
          mine (AreOwn-each own (λ t. load t (cell j i t)) 0 8 (λ t l h. mine t (omega arith)))
          (λ k. ground arith);
  }

-- The rounds of the inner loop.
pub pass_rounds : ℕ → ℕ
pass_rounds kk = (min (kk + 16) 32 - kk + (1 - 1)) / 1

module _ {D : Type 0} (ops : DataOps D) (A B : ℕ → D) (own : ℕ → Bool) (r0 r1 : ℕ)
    (end : r1 ≡ r0 + 16 * 1) (mine : (x : ℕ) → r0 ≤ x / 32 → x / 32 < r1 → own x ≡ true) where
  row-Part :
      (kk j : ℕ)
      → r0 ≤ j
      → j < r1
      → Part ops A B 32 kk 16 Any (λ v. v) own (for_by 8 0 4 (octet 16 kk j)) (rect j (j + 1) 0 32)
  row-Part kk j above below =
      Part-for_by ops A B 32 kk 16 Any (λ v. v) own (rect j (j + 1)) 8 (octet 16 kk j) (λ x. 0 ≤ x)
        (columns-IsBand j (j + 1)) (λ x h. omega arith) 0 4 32 refl (omega arith)
        (λ i ok l h. octet-Part ops A B j i (omega arith) own kk (λ t bound.
          let e = plus-add (i + j * 32) t in
          mine (cell j i t) (omega (arith, e)) (omega (arith, e))))

  pass-Part :
      (kk : ℕ)
      → Part ops A B 32 kk 16 Any
          (λ v. v)
          own
          (for_by 1 r0 16 (λ j. for_by 8 0 4 (octet 16 kk j)))
          (rect r0 r1 0 32)
  pass-Part kk =
      Part-for_by ops A B 32 kk 16 Any (λ v. v) own (λ x y. rect x y 0 32) 1
        (λ j. for_by 8 0 4 (octet 16 kk j)) (λ x. r0 ≤ x) (rows-IsBand 0 32) (λ x h. omega arith) r0
        16 r1 end (omega arith) (λ j ok l h. row-Part kk j ok (omega arith))

  -- Both passes.
  pub octets-Part :
      Part ops A B 32 0 32 Any
        (λ v. v)
        own
        (for_by 16 0 2 (λ kk. for_by 1 r0 16 (λ j. for_by 8 0 4 (octet (pass_rounds kk) kk j))))
        (rect r0 r1 0 32)
  unfolding pass_rounds
  octets-Part =
      let pass = λ (n kk : ℕ). for_by 1 r0 16 (λ j. for_by 8 0 4 (octet n kk j)) in
      Part-slices ops A B 32 Any own (rect r0 r1 0 32) 16 16 32 (λ kk. pass (pass_rounds kk) kk)
        (λ kk. kk) (λ kk. refl)
        (λ kk low.
          let n : 16 ≡ pass_rounds kk = omega arith in
          subst (λ m. Part ops A B 32 kk 16 Any (λ v. v) own (pass m kk) (rect r0 r1 0 32)) n
            (pass-Part kk))
        0 2 (omega arith)

module _ {D : Type 0} (ops : DataOps D) (A B : ℕ → D) (own : ℕ → Bool) where
  module _ (mine : (x : ℕ) → 0 ≤ x / 32 → x / 32 < 16 → own x ≡ true) where
    pub bk_upper-Part : Part ops A B 32 0 32 Any (λ v. v) own bk_upper (rect 0 16 0 32)
    unfolding bk_upper Bk.bk_upper_block Bk.bk_upper_loads Bk.bk_upper_adds Bk.bk_upper_stores
        for_to pass_rounds each
    bk_upper-Part = octets-Part ops A B own 0 16 refl mine

    pub dv_upper-Part : Part ops A B 32 0 32 Any (λ v. v) own dv_upper (rect 0 16 0 32)
    unfolding dv_upper Dv.dv_upper_block Dv.dv_upper_loads Dv.dv_upper_adds Dv.dv_upper_stores
        for_to pass_rounds each
    dv_upper-Part = octets-Part ops A B own 0 16 refl mine

  module _ (mine : (x : ℕ) → 16 ≤ x / 32 → x / 32 < 32 → own x ≡ true) where
    pub bk_lower-Part : Part ops A B 32 0 32 Any (λ v. v) own bk_lower (rect 16 32 0 32)
    unfolding bk_lower Bk.bk_lower_block Bk.bk_lower_loads Bk.bk_lower_adds Bk.bk_lower_stores
        for_to pass_rounds each
    bk_lower-Part = octets-Part ops A B own 16 32 refl mine

    pub dv_lower-Part : Part ops A B 32 0 32 Any (λ v. v) own dv_lower (rect 16 32 0 32)
    unfolding dv_lower Dv.dv_lower_block Dv.dv_lower_loads Dv.dv_lower_adds Dv.dv_lower_stores
        for_to pass_rounds each
    dv_lower-Part = octets-Part ops A B own 16 32 refl mine
