-- ===== src/Matmul/Sweep.antt =====
-- riscv-tests/mt/: an unrolled group of assignments, one to each of some variables or elements.
use rv32i_pipeline_fpga.Common.{
  ℕ, zero, suc, ◌+◌, ◌≤◌, ◌<◌, ◌≡◌, ◌≢◌, refl, sym, ap, ap₂, ◌∙◌, List, [], ◌∷◌, ◌++◌, update,
  update-eq, update-ne, arith,
}
use native.Mathlib.Decide.{dec_lt}
use rv32i_pipeline_fpga.Matmul.{DataOps, Op, Core, exec, run, each}

module _ {D : Type 0} (ops : DataOps D) (A B : ℕ → D) where
  pub run-append :
      (p q : List Op) (s : Core D) → run ops A B (p ++ q) s ≡ run ops A B q (run ops A B p s)
  unfolding run
  run-append [] q s = refl
  run-append (op ∷ p) q s = run-append p q (exec ops A B op s)

  -- The group `f` gives each variable a value of what it held and of `C`.
  module _ (f : ℕ → Op) (value : ℕ → D → (ℕ → D) → D)
      (gives : (t : ℕ) (s : Core D)
        → exec ops A B (f t) s ≡ record s { temp = update s.temp t (value t (s.temp t) s.c) }) where
    pub sweep_c : (t n : ℕ) (s : Core D) → (run ops A B (each t n f) s).c ≡ s.c
    unfolding run each
    sweep_c t zero s = refl
    sweep_c t (suc n) s = sweep_c (t + 1) n (exec ops A B (f t) s) ∙ ap (λ s'. s'.c) (gives t s)

    pub sweep_below :
        (t n u : ℕ) (s : Core D) → u < t → (run ops A B (each t n f) s).temp u ≡ s.temp u
    unfolding run each
    sweep_below t zero u s low = refl
    sweep_below t (suc n) u s low =
        sweep_below (t + 1) n u (exec ops A B (f t) s) (omega arith)
        ∙ ap (λ s'. s'.temp u) (gives t s)
        ∙ update-ne s.temp t _ u (λ e. absurd (omega arith))

    pub sweep_temp :
        (t n u : ℕ) (s : Core D)
        → t ≤ u
        → u < t + n
        → (run ops A B (each t n f) s).temp u ≡ value u (s.temp u) s.c
    unfolding run each
    sweep_temp t zero u s low high = absurd (omega arith)
    sweep_temp t (suc n) u s low high = elim (dec_lt t u) [
      | yes later ↦
          let other : t ≢ u = λ e. absurd (omega arith) in
          let s' = exec ops A B (f t) s in
          let kept : s'.temp u ≡ s.temp u =
            ap (λ x. x.temp u) (gives t s) ∙ update-ne s.temp t _ u other in
          let same : s'.c ≡ s.c = ap (λ x. x.c) (gives t s) in
          sweep_temp (t + 1) n u s' (omega arith) (omega arith) ∙ ap₂ (value u) kept same
      | no here ↦
          let e : t ≡ u = omega arith in
          sweep_below (t + 1) n u (exec ops A B (f t) s) (omega arith)
          ∙ ap (λ x. x.temp u) (gives t s)
          ∙ update-eq s.temp t _ u e
          ∙ ap (λ x. value x (s.temp x) s.c) e
    ]

  -- The group `f` gives each of some elements of `C` a value of the variables and of what it held.
  module _ (f : ℕ → Op) (cell : ℕ → ℕ) (value : ℕ → (ℕ → D) → D → D)
      (gives : (t : ℕ) (s : Core D)
        → exec ops A B (f t) s
          ≡ record s { c = update s.c (cell t) (value t s.temp (s.c (cell t))) }) where
    pub puts_temp : (t n : ℕ) (s : Core D) → (run ops A B (each t n f) s).temp ≡ s.temp
    unfolding run each
    puts_temp t zero s = refl
    puts_temp t (suc n) s =
        puts_temp (t + 1) n (exec ops A B (f t) s) ∙ ap (λ x. x.temp) (gives t s)

    pub puts_miss :
        (t n i : ℕ) (s : Core D)
        → ((u : ℕ) → t ≤ u → u < t + n → cell u ≢ i)
        → (run ops A B (each t n f) s).c i ≡ s.c i
    unfolding run each
    puts_miss t zero i s out = refl
    puts_miss t (suc n) i s out =
        puts_miss (t + 1) n i (exec ops A B (f t) s) (λ u l h. out u (omega arith) (omega arith))
        ∙ ap (λ x. x.c i) (gives t s)
        ∙ update-ne s.c (cell t) _ i (out t (omega arith) (omega arith))

    pub puts_hit :
        (t n u : ℕ) (s : Core D)
        → ((v w : ℕ) → v < w → w < t + n → cell v ≢ cell w)
        → t ≤ u
        → u < t + n
        → (run ops A B (each t n f) s).c (cell u) ≡ value u s.temp (s.c (cell u))
    unfolding run each
    puts_hit t zero u s apart low high = absurd (omega arith)
    puts_hit t (suc n) u s apart low high = elim (dec_lt t u) [
      | yes later ↦
          let s' = exec ops A B (f t) s in
          let kept : s'.c (cell u) ≡ s.c (cell u) =
            ap (λ x. x.c (cell u)) (gives t s)
            ∙ update-ne s.c (cell t) _ (cell u) (apart t u later (omega arith)) in
          puts_hit (t + 1) n u s' (λ v w l h. apart v w l (omega arith)) (omega arith) (omega arith)
          ∙ ap₂ (value u) (ap (λ x. x.temp) (gives t s)) kept
      | no here ↦
          let e : t ≡ u = omega arith in
          puts_miss (t + 1) n (cell u) (exec ops A B (f t) s)
            (λ w l h x. apart u w (omega arith) (omega arith) (sym x))
          ∙ ap (λ x. x.c (cell u)) (gives t s)
          ∙ update-eq s.c (cell t) _ (cell u) (ap cell e)
          ∙ ap (λ x. value x s.temp (s.c (cell x))) e
    ]
