-- ===== src/Bench/Towers/Chains.antt =====
-- towers_main.c: what a linked list of the pool holds, and what a push and a pop do to all of them.
use rv32i_pipeline_fpga.Common.{
  ℕ, ◌%◌, ◌^◌, ◌<◌, ◌≤◌, ◌≡◌, ◌≢◌, refl, sym, ap, ◌∙◌, Option, none, some, List, [], ◌∷◌, length,
  ◌==◌, update, arith, Bool-cases, subst, update-eq, update-ne, inl, inr,
}
use rv32i_pipeline_fpga.Bench.Towers.{Store}

-- Where each node is: in which list, and over how many others.
pub record Places : Type 0 where
  pub place : ℕ → ℕ
  pub depth : ℕ → ℕ

-- The nodes from `ptr` on hold `vs`, and are those of the list `q`.
abbrev pub Chain : Places → (ℕ → ℕ) → (ℕ → Option ℕ) → ℕ → Option ℕ → List ℕ → Type 0
Chain w val next q ptr [] = ptr ≡ none
Chain w val next q ptr (v ∷ vs) =
    (i : ℕ) × (ptr ≡ some i)
    × (w.place i ≡ q)
    × (w.depth i ≡ length vs)
    × (val i ≡ v)
    × Chain w val next q (next i) vs

-- What the four lists hold; the program does not keep the free list's size.
pub record Holds (s : Store) (content : ℕ → List ℕ) : Type 0 where
  pub places : Places
  pub chains : (q : ℕ) → Chain places s.val s.next q (s.head q) (content q)
  pub sizes : (q : ℕ) → 0 < q → s.size q ≡ length (content q) % 2 ^ 32

abbrev pub put_place : ℕ → ℕ → ℕ → Places → Places
put_place node q n w = record { place = update w.place node q; depth = update w.depth node n }

-- A chain does not see a change of a node that is no part of it.
frame :
    (w : Places) (val : ℕ → ℕ) (next : ℕ → Option ℕ) (q : ℕ) (vs : List ℕ) (ptr : Option ℕ)
    (node v p n : ℕ) (after : Option ℕ)
    → (w.place node ≡ q → length vs ≤ w.depth node)
    → Chain w val next q ptr vs
    → Chain (put_place node p n w) (update val node v) (update next node after) q ptr vs
frame w val next q [] ptr node v p n after apart c = c
frame w val next q (x ∷ vs) ptr node v p n after apart (i, at, own, deep, holds, more) =
    let other : node ≢ i = λ e. absurd (omega (arith, apart (ap w.place e ∙ own), ap w.depth e)) in
    (
      i,
      at,
      update-ne w.place node p i other ∙ own,
      update-ne w.depth node n i other ∙ deep,
      update-ne val node v i other ∙ holds,
      subst (λ t. Chain (put_place node p n w) (update val node v) (update next node after) q t vs)
          (sym (update-ne next node after i other))
          (frame w val next q vs (next i) node v p n after (λ e. omega (arith, apart e)) more),
    )

-- The node at the head of the list `p` becomes the head of the list `q`, with the value `x`.
module _ (w : Places) (val : ℕ → ℕ) (next head : ℕ → Option ℕ) (content : ℕ → List ℕ) (p q x v : ℕ)
    (vs : List ℕ) (i : ℕ) (differ : p ≢ q)
    (chains : (r : ℕ) → Chain w val next r (head r) (content r)) (at : head p ≡ some i)
    (top : content p ≡ v ∷ vs) where
  abbrev pub w' : Places
  w' = put_place i q (length (content q)) w

  abbrev pub Chain' : ℕ → Option ℕ → List ℕ → Type 0
  Chain' = Chain w' (update val i x) (update next i (head q))

  opened : Chain w val next p (head p) (v ∷ vs)
  opened = subst (Chain w val next p (head p)) top (chains p)

  same : opened.0 ≡ i
  same = ground arith

  own : w.place i ≡ p
  own = ap w.place (sym same) ∙ opened.2

  deep : w.depth i ≡ length vs
  deep = ap w.depth (sym same) ∙ opened.3

  rest : Chain w val next p (next i) vs
  rest = subst (λ j. Chain w val next p (next j) vs) same opened.5

  at_q : Chain' q (some i) (x ∷ content q)
  at_q = (
    i,
    refl,
    update-eq w.place i q i refl,
    update-eq w.depth i (length (content q)) i refl,
    update-eq val i x i refl,
    subst (λ t. Chain' q t (content q)) (sym (update-eq next i (head q) i refl))
        (frame w val next q (content q) (head q) i x q (length (content q)) (head q)
          (λ e. absurd (differ (sym own ∙ e))) (chains q)),
  )

  at_p : Chain' p (next i) vs
  at_p =
      frame w val next p vs (next i) i x q (length (content q)) (head q) (λ e. omega (arith, deep))
        rest

  elsewhere : (r : ℕ) → p ≢ r → Chain' r (head r) (content r)
  elsewhere r ne =
      frame w val next r (content r) (head r) i x q (length (content q)) (head q)
        (λ e. absurd (ne (sym own ∙ e))) (chains r)

  pub transfer :
      (r : ℕ)
      → Chain' r
          (update (update head p (next i)) q (some i) r)
          (update (update content p vs) q (x ∷ content q) r)
  transfer r = elim (Bool-cases (r == q)) [
    | inl is_q ↦
        let e : q ≡ r = ground arith in
        rw is_q (subst (λ t. Chain' t (some i) (x ∷ content q)) e at_q)
    | inr not_q ↦ rw not_q (elim (Bool-cases (r == p)) [
      | inl is_p ↦
          let e : p ≡ r = ground arith in rw is_p (subst (λ t. Chain' t (next i) vs) e at_p)
      | inr not_p ↦ let ne : p ≢ r = ground arith in rw not_p (elsewhere r ne)
    ])
  ]
