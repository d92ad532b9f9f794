-- ===== src/Bench/Towers/Solve.antt =====
-- towers_main.c: the recursion of towers_solve_h moves a tower of any height.
use native.Mathlib.Nat.{pow-suc, one-le-pow}
use mathlib.Core.List.{append_assoc}
use rv32i_pipeline_fpga.Common.{
  ℕ, zero, suc, ◌+◌, ◌-◌, ◌^◌, ◌<◌, ◌≡◌, ◌≢◌, refl, sym, ap, subst, ◌∙◌, fun_ext, List, [], ◌∷◌,
  ◌++◌, length, update, arith,
}
use rv32i_pipeline_fpga.Bench.Towers.{Store, towers_solve_h}
use rv32i_pipeline_fpga.Bench.Towers.Chains.{Holds}
use rv32i_pipeline_fpga.Bench.Towers.Steps.{Leaves, shift, move-Leaves}

-- A list of more than one value ends in one.
split_last :
    (m : ℕ) (xs : List ℕ)
    → length xs ≡ suc (suc m)
    → (ys : List ℕ) × (y : ℕ) × (xs ≡ ys ++ y ∷ []) × (length ys ≡ suc m)
split_last m [] e = absurd (omega arith)
split_last m (x ∷ []) e = absurd (omega arith)
split_last zero (x ∷ y ∷ []) e = (x ∷ [], y, refl, refl)
split_last zero (x ∷ y ∷ z ∷ xs) e = absurd (omega arith)
split_last (suc m) (x ∷ y ∷ xs) e =
    let (ys, z, at, n) = split_last m (y ∷ xs) (omega arith) in
    (x ∷ ys, z, ap (λ t. x ∷ t) at, omega arith)

-- The contents after the values `top` went from the list `p`, where `rest` stays, onto `q`.
abbrev pub carry : ℕ → ℕ → List ℕ → List ℕ → (ℕ → List ℕ) → ℕ → List ℕ
carry p q rest top content = update (update content p rest) q (top ++ content q)

abbrev pub Apart : ℕ → ℕ → ℕ → Type 0
Apart p q r = (0 < p) × (0 < q) × (0 < r) × (p ≢ q) × (q ≢ r) × (p ≢ r)

one_two : (m : ℕ) → (2 ^ suc m - 1) + 1 + (2 ^ suc m - 1) ≡ 2 ^ suc (suc m) - 1
one_two m = omega (arith, pow-suc 2 (suc m), one-le-pow (suc m) 2)

-- The three stages of the recursion carry the whole tower.
three_stages :
    (content : ℕ → List ℕ) (start temp dest y : ℕ) (rest ys : List ℕ)
    → Apart start temp dest
    → carry temp dest
        (content temp)
        ys
        (shift start dest rest y (carry start temp (y ∷ rest) ys content))
      ≡ carry start dest rest (ys ++ y ∷ []) content
three_stages content start temp dest y rest ys (_, _, _, n1, n2, n3) =
    fun_ext (λ r. ground (arith, append_assoc ys (y ∷ []) (content dest)))

solve-step :
    (m : ℕ) (s : Store) (content : ℕ → List ℕ) (start temp dest y : ℕ) (ys rest : List ℕ)
    → Apart start temp dest
    → content start ≡ ys ++ y ∷ rest
    → Holds s content
    → s.num_moves + (2 ^ suc (suc m) - 1) < 2 ^ 31
    → ((p q r : ℕ) (t : Store) (c : ℕ → List ℕ) (below : List ℕ)
        → Apart p q r
        → Holds t c
        → c p ≡ ys ++ below
        → t.num_moves + (2 ^ suc m - 1) < 2 ^ 31
        → Leaves (towers_solve_h (suc m) p q r t) t (2 ^ suc m - 1) (carry p r below ys c))
    → Leaves
        (towers_solve_h (suc (suc m)) start temp dest s)
        s
        (2 ^ suc (suc m) - 1)
        (carry start dest rest (ys ++ y ∷ []) content)
unfolding towers_solve_h
solve-step m s content start temp dest y ys rest (p1, p2, p3, n1, n2, n3) at h few ih =
    let total = one_two m in
    let c1 = carry start temp (y ∷ rest) ys content in
    let c2 = shift start dest rest y c1 in
    let (t, t_eq, t_holds, t_discs, t_moves) =
      ih start dest temp s content (y ∷ rest) (p1, p3, p2, n3, (λ e. n2 (sym e)), n1) h at
        (omega arith) in
    let top : c1 start ≡ y ∷ rest = ground arith in
    let (u, u_eq, u_holds, u_discs, u_moves) =
      move-Leaves t c1 start dest y rest t_holds p1 p3 n3 top (omega arith) in
    let under : c2 temp ≡ ys ++ content temp = ground arith in
    let (v, v_eq, v_holds, v_discs, v_moves) =
      ih temp start dest u c2 (content temp) (p2, p1, p3, (λ e. n1 (sym e)), n3, n2) u_holds under
        (omega arith) in
    (
      v,
      rw (t_eq, u_eq) v_eq,
      subst (Holds v) (three_stages content start temp dest y rest ys (p1, p2, p3, n1, n2, n3))
          v_holds,
      v_discs ∙ u_discs ∙ t_discs,
      omega (arith, one_two m),
    )

-- For a height of 1 or more, and a counter of moves that stays below 2 ^ 31, an `int`: `towers_solve_h` moves the upper discs of the start peg to the
-- destination in their order, on top of what is there, leaves everything else in place, and
-- counts 2 ^ n - 1 moves; no null pointer is followed.
pub towers_solve_h_lem :
    (n : ℕ) (s : Store) (content : ℕ → List ℕ) (start temp dest : ℕ) (top rest : List ℕ)
    → length top ≡ suc n
    → Apart start temp dest
    → Holds s content
    → content start ≡ top ++ rest
    → s.num_moves + (2 ^ suc n - 1) < 2 ^ 31
    → Leaves
        (towers_solve_h (suc n) start temp dest s)
        s
        (2 ^ suc n - 1)
        (carry start dest rest top content)
unfolding towers_solve_h
towers_solve_h_lem zero s content start temp dest [] rest len apart h at few = absurd (omega arith)
towers_solve_h_lem zero s content start temp dest (x ∷ []) rest len (p1, _, p3, _, _, n3) h at few =
    move-Leaves s content start dest x rest h p1 p3 n3 at few
towers_solve_h_lem zero s content start temp dest (x ∷ y ∷ top) rest len apart h at few =
    absurd (omega arith)
towers_solve_h_lem (suc m) s content start temp dest top rest len apart h at few =
    let (ys, y, split, n) = split_last m top len in
    subst
      (λ z.
        Leaves (towers_solve_h (suc (suc m)) start temp dest s) s (2 ^ suc (suc m) - 1)
          (carry start dest rest z content))
      (sym split)
      (solve-step m s content start temp dest y ys rest apart
        (at ∙ ap (λ z. z ++ rest) split ∙ append_assoc ys (y ∷ []) rest) h few
        (λ p q r t c below a k e f. towers_solve_h_lem m t c p q r ys below n a k e f))
