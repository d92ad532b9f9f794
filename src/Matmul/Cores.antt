-- ===== src/Matmul/Cores.antt =====
-- riscv-tests/mt/: two cores that run at the same time. Each has its own variables; an assignment
-- is one step, and the cores' steps come in any order.
use rv32i_pipeline_fpga.Common.{
  ℕ, zero, suc, ◌+◌, ◌*◌, ◌≤◌, ◌<◌, ◌≡◌, refl, ap, ap₂, ◌∙◌, List, [], ◌∷◌, ◌++◌, update, update-ne,
  arith, Bool, true, false, not, Bool-cases, inl, inr, ◌==◌, if◌then◌else◌,
}
use native.Mathlib.Nat.{suc-mul}
use rv32i_pipeline_fpga.Matmul.{
  DataOps, Op, load, fetch, fetch_b, clear, accumulate, accumulate_by, store, increase, Core, exec,
  run, each, for_by,
}

-- The elements of `C` that an assignment uses are the core's own.
abbrev pub IsOwn : (ℕ → Bool) → Op → Type 0
IsOwn own (load t i) = own i ≡ true
IsOwn own (fetch t x) = 0 ≤ 0
IsOwn own (fetch_b t y) = 0 ≤ 0
IsOwn own (clear t) = 0 ≤ 0
IsOwn own (accumulate t x y) = 0 ≤ 0
IsOwn own (accumulate_by t u y) = 0 ≤ 0
IsOwn own (store i t) = own i ≡ true
IsOwn own (increase i u v) = own i ≡ true

abbrev pub AreOwn : (ℕ → Bool) → List Op → Type 0
AreOwn own [] = 0 ≤ 0
AreOwn own (op ∷ p) = IsOwn own op × AreOwn own p

pub AreOwn-append :
    (own : ℕ → Bool) (p q : List Op) → AreOwn own p → AreOwn own q → AreOwn own (p ++ q)
AreOwn-append own [] q hp hq = hq
AreOwn-append own (op ∷ p) q (h, hp) hq = (h, AreOwn-append own p q hp hq)

pub AreOwn-each :
    (own : ℕ → Bool) (f : ℕ → Op) (t n : ℕ)
    → ((u : ℕ) → t ≤ u → u < t + n → IsOwn own (f u))
    → AreOwn own (each t n f)
unfolding each
AreOwn-each own f t zero h = omega arith
AreOwn-each own f t (suc n) h = (
  h t (omega arith) (omega arith),
  AreOwn-each own f (t + 1) n (λ u l b. h u (omega arith) (omega arith)),
)

pub AreOwn-for_by :
    (own : ℕ → Bool) (stride : ℕ) (body : ℕ → List Op) (ok : ℕ → Type 0)
    → ((x : ℕ) → ok x → ok (x + stride))
    → (x count hi : ℕ) → hi ≡ x + count * stride
    → ok x
    → ((y : ℕ) → ok y → x ≤ y → y + stride ≤ hi → AreOwn own (body y))
    → AreOwn own (for_by stride x count body)
unfolding for_by
AreOwn-for_by own stride body ok next x zero hi end start h = omega arith
AreOwn-for_by own stride body ok next x (suc count) hi end start h =
    let hi' : hi ≡ x + stride + count * stride = omega (arith, suc-mul count stride) in
    AreOwn-append own (body x) (for_by stride (x + stride) count body)
      (h x start (omega arith) (omega arith))
      (AreOwn-for_by own stride body ok next (x + stride) count hi hi' (next x start)
        (λ y at l b. h y at (omega arith) b))

-- A block of elements that are the core's own.
pub AreOwn-tile :
    (own : ℕ → Bool) (T stride k count : ℕ) (cell : ℕ → ℕ) (init : List Op) (round : ℕ → List Op)
    → ((t : ℕ) → t < T → own (cell t) ≡ true)
    → AreOwn own init
    → ((x : ℕ) → AreOwn own (round x))
    → AreOwn own (init ++ (for_by stride k count round ++ each 0 T (λ t. store (cell t) t)))
AreOwn-tile own T stride k count cell init round mine first rounds =
    AreOwn-append own init _ first (
      AreOwn-append own (for_by stride k count round) _
        (AreOwn-for_by own stride round (λ x. 0 ≤ x) (λ x h. omega arith) k count
          (k + count * stride) refl (omega arith) (λ y ok l h. rounds y))
        (AreOwn-each own (λ t. store (cell t) t) 0 T (λ u l h. mine u (omega arith))))

-- The variables of the two cores, and `C`.
pub record Cores (D : Type 0) : Type 0 where
  pub temp0 : ℕ → D
  pub temp1 : ℕ → D
  pub c : ℕ → D

module _ {D : Type 0} where
  abbrev pub core0 : Cores D → Core D
  core0 s = record { temp = s.temp0; c = s.c }

  abbrev pub core1 : Cores D → Core D
  core1 s = record { temp = s.temp1; c = s.c }

module _ {D : Type 0} where
  update-both :
      (a a' : ℕ → D) (t : ℕ) (v v' : D) (u : ℕ)
      → v ≡ v'
      → a u ≡ a' u
      → update a t v u ≡ update a' t v' u
  update-both a a' t v v' u e e' = ap₂ (λ x y. if u == t then x else y) e e'

module _ {D : Type 0} (ops : DataOps D) (A B : ℕ → D) where
  abbrev pub exec0 : Op → Cores D → Cores D
  exec0 op s =
      let r = exec ops A B op (core0 s) in record { temp0 = r.temp; temp1 = s.temp1; c = r.c }

  abbrev pub exec1 : Op → Cores D → Cores D
  exec1 op s =
      let r = exec ops A B op (core1 s) in record { temp0 = s.temp0; temp1 = r.temp; c = r.c }

  -- The two cores go through their assignments, in some order.
  pub data Runs : List Op → List Op → Cores D → Cores D → Type 0 where
    done : (s : Cores D) → Runs [] [] s s
    first :
        (op : Op) (p q : List Op) (s s' : Cores D) → Runs p q (exec0 op s) s' → Runs (op ∷ p) q s s'
    second :
        (op : Op) (p q : List Op) (s s' : Cores D) → Runs p q (exec1 op s) s' → Runs p (op ∷ q) s s'

  -- Two states that a core cannot tell apart.
  pub record Alike (own : ℕ → Bool) (s s' : Core D) : Type 0 where
    pub temp : (t : ℕ) → s.temp t ≡ s'.temp t
    pub c : (i : ℕ) → own i ≡ true → s.c i ≡ s'.c i

  exec-Alike :
      (own : ℕ → Bool) (op : Op) (s s' : Core D)
      → IsOwn own op
      → Alike own s s'
      → Alike own (exec ops A B op s) (exec ops A B op s')
  unfolding exec
  exec-Alike own (load t i) s s' h e = record {
    temp = λ u. update-both s.temp s'.temp t (s.c i) (s'.c i) u (e.c i h) (e.temp u);
    c = e.c;
  }
  exec-Alike own (fetch t x) s s' h e = record {
    temp = λ u. update-both s.temp s'.temp t (A x) (A x) u refl (e.temp u);
    c = e.c;
  }
  exec-Alike own (fetch_b t y) s s' h e = record {
    temp = λ u. update-both s.temp s'.temp t (B y) (B y) u refl (e.temp u);
    c = e.c;
  }
  exec-Alike own (clear t) s s' h e = record {
    temp = λ u. update-both s.temp s'.temp t ops.nought ops.nought u refl (e.temp u);
    c = e.c;
  }
  exec-Alike own (accumulate t x y) s s' h e = record {
    temp = λ u.
        update-both s.temp s'.temp t _ _ u (ap (λ v. ops.add v (ops.mul (A x) (B y))) (e.temp t))
          (e.temp u);
    c = e.c;
  }
  exec-Alike own (accumulate_by t v y) s s' h e = record {
    temp = λ u.
        update-both s.temp s'.temp t _ _ u
          (ap₂ (λ a b. ops.add a (ops.mul b (B y))) (e.temp t) (e.temp v)) (e.temp u);
    c = e.c;
  }
  exec-Alike own (store i t) s s' h e = record {
    temp = e.temp;
    c = λ j b. update-both s.c s'.c i (s.temp t) (s'.temp t) j (e.temp t) (e.c j b);
  }
  exec-Alike own (increase i v w) s s' h e = record {
    temp = e.temp;
    c = λ j b.
        update-both s.c s'.c i _ _ j (ap₂ ops.add (e.c i h) (ap₂ ops.mul (e.temp v) (e.temp w)))
          (e.c j b);
  }

  run-Alike :
      (own : ℕ → Bool) (p : List Op) (s s' : Core D)
      → AreOwn own p
      → Alike own s s'
      → Alike own (run ops A B p s) (run ops A B p s')
  unfolding run
  run-Alike own [] s s' h e = e
  run-Alike own (op ∷ p) s s' (h, hp) e =
      run-Alike own p (exec ops A B op s) (exec ops A B op s') hp (exec-Alike own op s s' h e)

  -- A step leaves what is not the core's own.
  exec-other :
      (own : ℕ → Bool) (op : Op) (s : Core D) (i : ℕ)
      → IsOwn own op
      → own i ≡ false
      → (exec ops A B op s).c i ≡ s.c i
  unfolding exec
  exec-other own (load t j) s i h out = refl
  exec-other own (fetch t x) s i h out = refl
  exec-other own (fetch_b t y) s i h out = refl
  exec-other own (clear t) s i h out = refl
  exec-other own (accumulate t x y) s i h out = refl
  exec-other own (accumulate_by t u y) s i h out = refl
  exec-other own (store j t) s i h out =
      update-ne s.c j (s.temp t) i (λ e. absurd (ground (arith, ap own e)))
  exec-other own (increase j u v) s i h out =
      update-ne s.c j (ops.add (s.c j) (ops.mul (s.temp u) (s.temp v))) i
        (λ e. absurd (ground (arith, ap own e)))

  -- The elements of each core, in the end.
  Runs-each :
      (own : ℕ → Bool) (p q : List Op) (s s' : Cores D)
      → Runs p q s s'
      → AreOwn own p
      → AreOwn (λ i. not (own i)) q
      → (i : ℕ)
      → (own i ≡ true → s'.c i ≡ (run ops A B p (core0 s)).c i)
        × (own i ≡ false → s'.c i ≡ (run ops A B q (core1 s)).c i)
  unfolding run
  Runs-each own _ _ _ _ (done s) hp hq i = (λ _. refl, λ _. refl)
  Runs-each own _ _ _ _ (first op p q s s' r) (h, hp) hq i =
      let (mine, theirs) = Runs-each own p q (exec0 op s) s' r hp hq i in
      let same : Alike (λ j. not (own j)) (core1 (exec0 op s)) (core1 s) = record {
        temp = λ t. refl;
        c = λ j b. exec-other own op (core0 s) j h (ground arith);
      } in
      (mine, λ b. theirs b ∙ (run-Alike (λ j. not (own j)) q _ (core1 s) hq same).c i (ap not b))
  Runs-each own _ _ _ _ (second op p q s s' r) hp (h, hq) i =
      let (mine, theirs) = Runs-each own p q (exec1 op s) s' r hp hq i in
      let same : Alike own (core0 (exec1 op s)) (core0 s) = record {
        temp = λ t. refl;
        c = λ j b. exec-other (λ i'. not (own i')) op (core1 s) j h (ap not b);
      } in
      (λ b. mine b ∙ (run-Alike own p _ (core0 s) hp same).c i b, theirs)

  -- When each core uses elements of its own only, an element of `C` is in the end what its core
  -- alone would have made it, whatever the order of the steps was.
  pub Runs-lem :
      (own : ℕ → Bool) (p q : List Op) (s s' : Cores D)
      → Runs p q s s'
      → AreOwn own p
      → AreOwn (λ i. not (own i)) q
      → (i : ℕ)
      → s'.c i ≡ (if own i then (run ops A B p (core0 s)).c i else (run ops A B q (core1 s)).c i)
  Runs-lem own p q s s' r hp hq i =
      let (mine, theirs) = Runs-each own p q s s' r hp hq i in
      elim (Bool-cases (own i)) [ inl b ↦ rw (b) (mine b) | inr b ↦ rw (b) (theirs b) ]
