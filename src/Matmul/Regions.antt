-- ===== src/Matmul/Regions.antt =====
-- riscv-tests/mt/: parts of `C` that are computed one after another.
use rv32i_pipeline_fpga.Common.{
  ℕ, zero, suc, ◌+◌, ◌*◌, ◌/◌, ◌%◌, ◌≤◌, ◌<◌, ◌≡◌, refl, sym, subst, ap, ◌∙◌, List, [], ◌++◌, arith,
  Bool, true, false, leb, ltb, ◌&&◌, ◌||◌, Bool-cases, inl, inr, not, if◌then◌else◌,
}
use native.Mathlib.Nat.{suc-mul}
use rv32i_pipeline_fpga.Matmul.{DataOps, Op, Core, run, for_by}
use rv32i_pipeline_fpga.Matmul.Cores.{
  AreOwn, AreOwn-append, AreOwn-for_by, Cores, Runs, Runs-lem, core0, core1,
}
use rv32i_pipeline_fpga.Matmul.Sweep.{run-append}
use rv32i_pipeline_fpga.Matmul.Tiles.{Any, Computes, cell_of}

-- The elements in the rows from `r0` to `r1` and the columns from `c0` to `c1`, of 32 columns.
abbrev pub rect : ℕ → ℕ → ℕ → ℕ → ℕ → Bool
rect r0 r1 c0 c1 i = leb r0 (i / 32) && ltb (i / 32) r1 && leb c0 (i % 32) && ltb (i % 32) c1

pub rect-bounds :
    (r0 r1 c0 c1 i : ℕ)
    → rect r0 r1 c0 c1 i ≡ true
    → (r0 ≤ i / 32) × (i / 32 < r1) × (c0 ≤ i % 32) × (i % 32 < c1)
rect-bounds r0 r1 c0 c1 i e = ground arith

pub bounds-rect :
    (r0 r1 c0 c1 i : ℕ)
    → r0 ≤ i / 32
    → i / 32 < r1
    → c0 ≤ i % 32
    → i % 32 < c1
    → rect r0 r1 c0 c1 i ≡ true
bounds-rect r0 r1 c0 c1 i a b c d = ground arith

-- The elements from `lo` to `hi`.
abbrev pub span : ℕ → ℕ → ℕ → Bool
span lo hi i = leb lo i && ltb i hi

-- Parts that are made up of bands.
pub record IsBand (band : ℕ → ℕ → ℕ → Bool) : Type 0 where
  pub empty : (x i : ℕ) → band x x i ≡ false
  pub apart : (x y z : ℕ) → x ≤ y → y ≤ z → (i : ℕ) → (band x y i && band y z i) ≡ false
  pub join : (x y z : ℕ) → x ≤ y → y ≤ z → (i : ℕ) → band x z i ≡ (band x y i || band y z i)

pub rows-IsBand : (c0 c1 : ℕ) → IsBand (λ r0 r1. rect r0 r1 c0 c1)
rows-IsBand c0 c1 = record {
  empty = λ x i. ground arith;
  apart = λ x y z l h i. ground arith;
  join = λ x y z l h i. ground arith;
}

pub columns-IsBand : (r0 r1 : ℕ) → IsBand (rect r0 r1)
columns-IsBand r0 r1 = record {
  empty = λ x i. ground arith;
  apart = λ x y z l h i. ground arith;
  join = λ x y z l h i. ground arith;
}

pub span-IsBand : IsBand span
span-IsBand = record {
  empty = λ x i. ground arith;
  apart = λ x y z l h i. ground arith;
  join = λ x y z l h i. ground arith;
}

module _ {D : Type 0} (ops : DataOps D) (A B : ℕ → D) (lda k n : ℕ) (pre : Core D → Type 0)
    (from : D → D) where
  abbrev pub Fills : List Op → (ℕ → Bool) → Type 0
  Fills p inside = Computes ops A B lda k n pre from p inside

  pub Fills-nil : (inside : ℕ → Bool) → ((i : ℕ) → inside i ≡ false) → Fills [] inside
  unfolding run
  Fills-nil inside none_in = record {
    hit = λ s i holds e. absurd (ground (arith, none_in i));
    miss = λ s i holds e. refl;
    keeps = λ s holds. holds;
  }

  pub Fills-append :
      (p q : List Op) (f g h : ℕ → Bool)
      → Fills p f
      → Fills q g
      → ((i : ℕ) → (f i && g i) ≡ false)
      → ((i : ℕ) → h i ≡ (f i || g i))
      → Fills (p ++ q) h
  Fills-append p q f g h first second apart whole = record {
    hit = λ s i holds e. elim (Bool-cases (g i)) [
      | inl in_q ↦
          let not_p : f i ≡ false = ground (arith, apart i) in
          ap (λ s'. s'.c i) (run-append ops A B p q s)
          ∙ second.hit (run ops A B p s) i (first.keeps s holds) in_q
          ∙ ap (λ x. cell_of ops A B lda i k n (from x)) (first.miss s i holds not_p)
      | inr not_q ↦
          let in_p : f i ≡ true = ground (arith, whole i) in
          ap (λ s'. s'.c i) (run-append ops A B p q s)
          ∙ second.miss (run ops A B p s) i (first.keeps s holds) not_q
          ∙ first.hit s i holds in_p
    ];
    miss = λ s i holds e.
        let not_p : f i ≡ false = ground (arith, whole i) in
        let not_q : g i ≡ false = ground (arith, whole i) in
        ap (λ s'. s'.c i) (run-append ops A B p q s)
        ∙ second.miss (run ops A B p s) i (first.keeps s holds) not_q
        ∙ first.miss s i holds not_p;
    keeps = λ s holds.
        subst pre (sym (run-append ops A B p q s))
          (second.keeps (run ops A B p s) (first.keeps s holds));
  }

  -- A loop over the bands of a part of `C`, at the places `ok`.
  pub for_by-Fills :
      (band : ℕ → ℕ → ℕ → Bool) (stride : ℕ) (body : ℕ → List Op) (ok : ℕ → Type 0)
      → IsBand band
      → ((x : ℕ) → ok x → ok (x + stride))
      → (x count hi : ℕ) → hi ≡ x + count * stride
      → ok x
      → ((y : ℕ) → ok y → x ≤ y → y + stride ≤ hi → Fills (body y) (band y (y + stride)))
      → Fills (for_by stride x count body) (band x hi)
  unfolding for_by
  for_by-Fills band stride body ok parts next x zero hi end start fills =
      Fills-nil (band x hi)
        (λ i. ap (λ y. band x y i) end ∙ ap (λ y. band x y i) (omega arith) ∙ parts.empty x i)
  for_by-Fills band stride body ok parts next x (suc count) hi end start fills =
      let hi' : hi ≡ x + stride + count * stride = omega (arith, suc-mul count stride) in
      Fills-append (body x) (for_by stride (x + stride) count body) (band x (x + stride))
        (band (x + stride) hi) (band x hi) (fills x start (omega arith) (omega arith))
        (for_by-Fills band stride body ok parts next (x + stride) count hi hi' (next x start)
          (λ y at l h. fills y at (omega arith) h))
        (parts.apart x (x + stride) hi (omega arith) (omega arith))
        (parts.join x (x + stride) hi (omega arith) (omega arith))

-- The part of `C` that a program fills, and the elements that it may use.
module _ {D : Type 0} (ops : DataOps D) (A B : ℕ → D) (lda k n : ℕ) (pre : Core D → Type 0)
    (from : D → D) (own : ℕ → Bool) where
  pub record Part (p : List Op) (inside : ℕ → Bool) : Type 0 where
    pub fills : Fills ops A B lda k n pre from p inside
    pub owned : AreOwn own p

  pub Part-append :
      (p q : List Op) (f g h : ℕ → Bool)
      → Part p f
      → Part q g
      → ((i : ℕ) → (f i && g i) ≡ false)
      → ((i : ℕ) → h i ≡ (f i || g i))
      → Part (p ++ q) h
  Part-append p q f g h first second apart whole = record {
    fills = Fills-append ops A B lda k n pre from p q f g h first.fills second.fills apart whole;
    owned = AreOwn-append own p q first.owned second.owned;
  }

  pub Part-same : (p : List Op) (f g : ℕ → Bool) → Part p f → ((i : ℕ) → f i ≡ g i) → Part p g
  Part-same p f g part same = record {
    fills = record {
      hit = λ s i holds e. part.fills.hit s i holds (same i ∙ e);
      miss = λ s i holds e. part.fills.miss s i holds (same i ∙ e);
      keeps = part.fills.keeps;
    };
    owned = part.owned;
  }

  pub Part-then_nothing : (p : List Op) (f : ℕ → Bool) → Part p f → Part (p ++ []) f
  Part-then_nothing p f part =
      Part-append p [] f (λ i. false) f part
        (record {
          fills = Fills-nil ops A B lda k n pre from (λ i. false) (λ i. refl);
          owned = omega arith;
        })
        (λ i. ground arith) (λ i. ground arith)

  pub Part-for_by :
      (band : ℕ → ℕ → ℕ → Bool) (stride : ℕ) (body : ℕ → List Op) (ok : ℕ → Type 0)
      → IsBand band
      → ((x : ℕ) → ok x → ok (x + stride))
      → (x count hi : ℕ) → hi ≡ x + count * stride
      → ok x
      → ((y : ℕ) → ok y → x ≤ y → y + stride ≤ hi → Part (body y) (band y (y + stride)))
      → Part (for_by stride x count body) (band x hi)
  Part-for_by band stride body ok parts next x count hi end start part = record {
    fills =
        for_by-Fills ops A B lda k n pre from band stride body ok parts next x count hi end start
          (λ y at l h. (part y at l h).fills);
    owned =
        AreOwn-for_by own stride body ok next x count hi end start
          (λ y at l h. (part y at l h).owned);
  }

-- The product of two matrices of 32 rows, from `from` of what `C` held.
module _ {D : Type 0} (ops : DataOps D) (A B : ℕ → D) (from : D → D) where
  abbrev pub product : (ℕ → D) → ℕ → D
  product c i = if ltb i 1024 then cell_of ops A B 32 i 0 32 (from (c i)) else c i

  Fills-product :
      (p : List Op) (inside : ℕ → Bool) (s : Core D) (i : ℕ)
      → Fills ops A B 32 0 32 Any from p inside
      → inside i ≡ ltb i 1024
      → (run ops A B p s).c i ≡ product s.c i
  Fills-product p inside s i fills same = elim (Bool-cases (ltb i 1024)) [
    | inl b ↦ rw (b) (fills.hit s i (omega arith) (same ∙ b))
    | inr b ↦ rw (b) (fills.miss s i (omega arith) (same ∙ b))
  ]

  -- A core alone that fills `C`.
  pub Part-run :
      (own : ℕ → Bool) (p : List Op) (inside : ℕ → Bool)
      → Part ops A B 32 0 32 Any from own p inside
      → ((i : ℕ) → inside i ≡ ltb i 1024)
      → (s : Core D) (i : ℕ) → (run ops A B p s).c i ≡ product s.c i
  Part-run own p inside part all s i = Fills-product p inside s i part.fills (all i)

  -- Two cores that fill the elements of their own.
  pub Part-Runs :
      (own : ℕ → Bool) (p q : List Op) (f g : ℕ → Bool)
      → Part ops A B 32 0 32 Any from own p f
      → Part ops A B 32 0 32 Any from (λ i. not (own i)) q g
      → ((i : ℕ) → f i ≡ (own i && ltb i 1024))
      → ((i : ℕ) → g i ≡ (not (own i) && ltb i 1024))
      → (s s' : Cores D) → Runs ops A B p q s s'
      → (i : ℕ) → s'.c i ≡ product s.c i
  Part-Runs own p q f g first second mine theirs s s' r i =
      let last = Runs-lem ops A B own p q s s' r first.owned second.owned i in
      elim (Bool-cases (own i)) [
        | inl b ↦
            let e : f i ≡ ltb i 1024 = mine i ∙ ap (λ o. o && ltb i 1024) b in
            (rw b at last) ∙ Fills-product p f (core0 s) i first.fills e
        | inr b ↦
            let e : g i ≡ ltb i 1024 = theirs i ∙ ap (λ o. not o && ltb i 1024) b in
            (rw b at last) ∙ Fills-product q g (core1 s) i second.fills e
      ]
