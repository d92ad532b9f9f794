-- ===== src/Heap/Release.antt =====
-- tiny-malloc.c, `free`: the block joins the list.
use rv32i_pipeline_fpga.Common.{
  ℕ, ◌+◌, ◌%◌, ◌≤◌, ◌<◌, ◌≡◌, ap, List, [], ◌∷◌, arith, ltb, ◌==◌, Bool-cases, inl, inr, subst, ◌⊎◌,
  ◌≢◌,
}
use native.Mathlib.Decide.{dec_lt}
use rv32i_pipeline_fpga.Heap.{Block, block, free_insert, join_next}
use rv32i_pipeline_fpga.Heap.Search.{IsFreeList, covers, total, IsAdditive}

-- No byte of the `n` at `a` is in the list.
abbrev pub IsApart : ℕ → ℕ → List Block → Type 0
IsApart a n bs = (k : ℕ) → covers k a n ≡ 1 → total (covers k) bs ≡ 0

-- The ways in which the block joins the list.
pub data Joined (a n : ℕ) : List Block → List Block → Type 0 where
  alone : Joined a n [] (block a n ∷ [])
  after_last :
      (t : Block) → t.addr + t.size ≡ a → Joined a n (t ∷ []) (block t.addr (t.size + n) ∷ [])
  after :
      (t u : Block) (us : List Block)
      → t.addr + t.size ≡ a
      → a + n ≢ u.addr
      → Joined a n (t ∷ u ∷ us) (block t.addr (t.size + n) ∷ u ∷ us)
  between :
      (t u : Block) (us : List Block)
      → t.addr + t.size ≡ a
      → a + n ≡ u.addr
      → Joined a n (t ∷ u ∷ us) (block t.addr (t.size + n + u.size) ∷ us)
  before :
      (t : Block) (ts : List Block)
      → a + n ≡ t.addr
      → Joined a n (t ∷ ts) (block a (n + t.size) ∷ ts)
  insert :
      (t : Block) (ts : List Block)
      → a < t.addr
      → a + n ≢ t.addr
      → Joined a n (t ∷ ts) (block a n ∷ t ∷ ts)
  past :
      (t : Block) (ts us : List Block)
      → t.addr ≤ a
      → t.addr + t.size ≢ a
      → Joined a n ts us
      → Joined a n (t ∷ ts) (t ∷ us)

module _ (a n : ℕ) where
  join_cases :
      (t : Block) (ts : List Block)
      → t.addr + t.size ≡ a
      → Joined a n (t ∷ ts) (join_next (block t.addr (t.size + n)) (a + n) ts)
  unfolding join_next
  join_cases t [] meets = after_last t meets
  join_cases t (u ∷ us) meets = elim (Bool-cases (a + n == u.addr)) [
    | inl e ↦ rw (e) (between t u us meets (ground arith))
    | inr e ↦ rw (e) (after t u us meets (ground arith))
  ]

  pub free_insert_cases : (bs : List Block) → Joined a n bs (free_insert a n bs)
  unfolding free_insert
  free_insert_cases [] = alone
  free_insert_cases (t ∷ ts) = elim (Bool-cases (t.addr + t.size == a)) [
    | inl e ↦ rw (e) (join_cases t ts (ground arith))
    | inr e ↦ elim (Bool-cases (t.addr == a + n)) [
      | inl e' ↦ rw (e, e') (before t ts (ground arith))
      | inr e' ↦ elim (Bool-cases (ltb a t.addr)) [
        | inl l ↦ rw (e, e', l) (insert t ts (ground arith) (ground arith))
        | inr l ↦
            rw (e, e', l)
              (past t ts (free_insert a n ts) (ground arith) (ground arith) (free_insert_cases ts))
      ]
    ]
  ]

  -- The list measures what it did, with the block.
  pub Joined-total :
      (m : ℕ → ℕ → ℕ) (additive : IsAdditive m) (bs cs : List Block)
      → Joined a n bs cs
      → total m cs ≡ total m bs + m a n
  Joined-total m additive _ _ alone = omega arith
  Joined-total m additive _ _ (after_last t e) =
      let place : m (t.addr + t.size) n ≡ m a n = ap (λ x. m x n) e in
      omega (arith, place, additive t.addr t.size n)
  Joined-total m additive _ _ (after t u us e _) =
      let place : m (t.addr + t.size) n ≡ m a n = ap (λ x. m x n) e in
      omega (arith, place, additive t.addr t.size n)
  Joined-total m additive _ _ (between t u us e e') =
      let place : m (t.addr + t.size) n ≡ m a n = ap (λ x. m x n) e in
      let next : m (t.addr + (t.size + n)) u.size ≡ m u.addr u.size =
        ap (λ x. m x u.size) (omega arith) in
      omega (arith, place, next, additive t.addr t.size n, additive t.addr (t.size + n) u.size)
  Joined-total m additive _ _ (before t ts e) =
      let place : m (a + n) t.size ≡ m t.addr t.size = ap (λ x. m x t.size) e in
      omega (arith, place, additive a n t.size)
  Joined-total m additive _ _ (insert t ts _ _) = omega arith
  Joined-total m additive _ _ (past t ts us _ _ j) = omega (arith, Joined-total m additive ts us j)

module _ (a n end : ℕ) where
  tail-IsApart : (t : Block) (ts : List Block) → IsApart a n (t ∷ ts) → IsApart a n ts
  tail-IsApart t ts apart k c = omega (arith, apart k c)

  -- The block ends before the first block of the list, or starts past it.
  sides :
      (t : Block) (ts : List Block)
      → 16 ≤ n
      → 16 ≤ t.size
      → IsApart a n (t ∷ ts)
      → (a + n ≤ t.addr) ⊎ (t.addr + t.size ≤ a)
  sides t ts least s apart = elim (dec_lt t.addr (a + n)) [
    | no z ↦ inl (omega arith)
    | yes x ↦ elim (dec_lt a (t.addr + t.size)) [
      | no z ↦ inr (omega arith)
      | yes y ↦ elim (dec_lt t.addr a) [
        | yes z ↦ absurd (ground (arith, apart a))
        | no z ↦ absurd (ground (arith, apart t.addr))
      ]
    ]
  ]

  pub Joined-IsFreeList :
      (low : ℕ) (bs cs : List Block)
      → 16 ≤ n
      → low < a
      → a % 8 ≡ 0
      → n % 8 ≡ 0
      → a + n ≤ end
      → Joined a n bs cs
      → IsFreeList low end bs
      → IsApart a n bs
      → IsFreeList low end cs
  Joined-IsFreeList low _ _ least above aligned whole fits alone w apart =
      (above, least, aligned, whole, fits)
  Joined-IsFreeList low _ _ least above aligned whole fits (after_last t e) (l, s, al, wh, w)
        apart =
      (l, omega arith, al, omega arith, omega arith)
  Joined-IsFreeList low _ _ least above aligned whole fits (after t u us e d)
        (l, s, al, wh, (l', s', al', wh', w)) apart =
      (
        l,
        omega arith,
        al,
        omega arith,
        (omega (arith, sides u us least s' (tail-IsApart t (u ∷ us) apart)), s', al', wh', w),
      )
  Joined-IsFreeList low _ _ least above aligned whole fits (between t u us e e')
        (l, s, al, wh, (l', s', al', wh', w)) apart =
      (l, omega arith, al, omega arith, subst (λ x. IsFreeList x end us) (omega arith) w)
  Joined-IsFreeList low _ _ least above aligned whole fits (before t ts e) (l, s, al, wh, w) apart =
      (above, omega arith, aligned, omega arith, subst (λ x. IsFreeList x end ts) (omega arith) w)
  Joined-IsFreeList low _ _ least above aligned whole fits (insert t ts b d) (l, s, al, wh, w)
        apart =
      (above, least, aligned, whole, (omega (arith, sides t ts least s apart), s, al, wh, w))
  Joined-IsFreeList low _ _ least above aligned whole fits (past t ts us b d j) (l, s, al, wh, w)
        apart =
      (
        l,
        s,
        al,
        wh,
        Joined-IsFreeList (t.addr + t.size) ts us least (omega (arith, sides t ts least s apart))
            aligned whole fits j w (tail-IsApart t ts apart),
      )
