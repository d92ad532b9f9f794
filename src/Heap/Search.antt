-- ===== src/Heap/Search.antt =====
-- tiny-malloc.c, `malloc`: where the block comes from, and the free list it leaves.
use rv32i_pipeline_fpga.Common.{
  ℕ, ◌+◌, ◌-◌, ◌%◌, ◌≤◌, ◌<◌, ◌≡◌, ap, none, some, List, [], ◌∷◌, ◌++◌, ◌∙◌, ap₂, arith, leb, ltb,
  not, ◌==◌, ◌&&◌, if◌then◌else◌, true, false, Bool-cases, inl, inr, subst,
}
use rv32i_pipeline_fpga.Heap.{Block, block, Found, malloc_search, can_alloc}

-- 1 where the `n` bytes at `a` hold the address `k`.
abbrev pub covers : ℕ → ℕ → ℕ → ℕ
covers k a n = if leb a k && ltb k (a + n) then 1 else 0

-- The sum over a list of what the blocks measure: with `covers k`, how many hold the address `k`.
abbrev pub total : (ℕ → ℕ → ℕ) → List Block → ℕ
total m [] = 0
total m (b ∷ bs) = m b.addr b.size + total m bs

-- A measure of a block is the sum of those of two parts.
abbrev pub IsAdditive : (ℕ → ℕ → ℕ) → Type 0
IsAdditive m = (a n n' : ℕ) → m a (n + n') ≡ m a n + m (a + n) n'

pub covers-IsAdditive : (k : ℕ) → IsAdditive (covers k)
covers-IsAdditive k a n n' = ground arith

pub total-append :
    (m : ℕ → ℕ → ℕ) (xs ys : List Block) → total m (xs ++ ys) ≡ total m xs + total m ys
total-append m [] ys = omega arith
total-append m (x ∷ xs) ys = omega (arith, total-append m xs ys)

-- A free list above `low` and up to `end`: blocks in order, aligned, with room for an entry, and
-- no two that meet.
abbrev pub IsFreeList : ℕ → ℕ → List Block → Type 0
IsFreeList low end [] = low ≤ end
IsFreeList low end (b ∷ bs) =
    (low < b.addr)
    × (16 ≤ b.size)
    × (b.addr % 8 ≡ 0)
    × (b.size % 8 ≡ 0)
    × IsFreeList (b.addr + b.size) end bs

pub IsFreeList-bound : (low end : ℕ) (bs : List Block) → IsFreeList low end bs → low ≤ end
IsFreeList-bound low end [] w = w
IsFreeList-bound low end (b ∷ bs) (a, s, _, _, w) =
    omega (arith, IsFreeList-bound (b.addr + b.size) end bs w)

pub IsFreeList-lower :
    (low mid end : ℕ) (bs : List Block) → low ≤ mid → IsFreeList mid end bs → IsFreeList low end bs
IsFreeList-lower low mid end [] bound w = omega arith
IsFreeList-lower low mid end (b ∷ bs) bound (a, s, m, n, w) = (omega arith, s, m, n, w)

-- The ways in which the search ends.
abbrev pub nothing : List Block → ℕ → Found
nothing bs end = record { at = none; block_size = 0; rest = bs; new_end = end }

abbrev pub taken : ℕ → ℕ → List Block → ℕ → Found
taken addr n bs end = record { at = some addr; block_size = n; rest = bs; new_end = end }

abbrev pub taken_from : ℕ → ℕ → Block → List Block → Found
taken_from r end b bs =
    if ltb b.size (r + 16)
    then taken b.addr b.size bs end
    else taken b.addr r (block (b.addr + r) (b.size - r) ∷ bs) end

abbrev pub keep : Block → Found → Found
keep b f = record f { rest = b ∷ f.rest }

pub data Outcome (r limit end : ℕ) : List Block → Found → Type 0 where
  full : can_alloc limit end r ≡ false → Outcome r limit end [] (nothing [] end)
  fresh : can_alloc limit end r ≡ true → Outcome r limit end [] (taken end r [] (end + r))
  whole :
      (b : Block) (bs : List Block)
      → r ≤ b.size
      → Outcome r limit end (b ∷ bs) (taken b.addr b.size bs end)
  split :
      (b : Block) (bs : List Block)
      → r + 16 ≤ b.size
      → Outcome r limit end (b ∷ bs) (taken b.addr r (block (b.addr + r) (b.size - r) ∷ bs) end)
  stuck :
      (b : Block)
      → b.size < r
      → end ≡ b.addr + b.size
      → can_alloc limit end (r - b.size) ≡ false
      → Outcome r limit end (b ∷ []) (nothing (b ∷ []) end)
  grown :
      (b : Block)
      → b.size < r
      → end ≡ b.addr + b.size
      → can_alloc limit end (r - b.size) ≡ true
      → Outcome r limit end (b ∷ []) (taken b.addr r [] (b.addr + r))
  later :
      (b : Block) (bs : List Block) (f : Found)
      → b.size < r
      → Outcome r limit end bs f
      → Outcome r limit end (b ∷ bs) (keep b f)

module _ (r limit end : ℕ) where
  at_block :
      (b : Block) (bs : List Block) (other : Found)
      → (b.size < r → Outcome r limit end (b ∷ bs) other)
      → Outcome r limit end (b ∷ bs) (if leb r b.size then taken_from r end b bs else other)
  at_block b bs other else_case = elim (Bool-cases (leb r b.size)) [
    | inl fits ↦ elim (Bool-cases (ltb b.size (r + 16))) [
      | inl t ↦ rw (fits, t) (whole b bs (ground arith))
      | inr t ↦ rw (fits, t) (split b bs (ground arith))
    ]
    | inr t ↦ rw (t) (else_case (ground arith))
  ]

  at_last :
      (b : Block) (f : Found)
      → Outcome r limit end [] f
      → b.size < r
      → Outcome r limit end (b ∷ []) (
          if end == b.addr + b.size
          then (if not (can_alloc limit end (r - b.size))
              then nothing (b ∷ []) end
              else taken b.addr r [] (b.addr + r))
          else keep b f)
  at_last b f more small = elim (Bool-cases (end == b.addr + b.size)) [
    | inl t ↦ elim (Bool-cases (can_alloc limit end (r - b.size))) [
      | inl u ↦ rw (t, u) (grown b small (ground arith) u)
      | inr u ↦ rw (t, u) (stuck b small (ground arith) u)
    ]
    | inr t ↦ rw (t) (later b [] f small more)
  ]

  pub malloc_search_cases :
      (bs : List Block) → Outcome r limit end bs (malloc_search r limit end bs)
  unfolding malloc_search
  malloc_search_cases [] = elim (Bool-cases (can_alloc limit end r)) [
    | inl t ↦ rw (t) (fresh t)
    | inr t ↦ rw (t) (full t)
  ]
  malloc_search_cases (b ∷ []) = at_block b [] _ (at_last b _ (malloc_search_cases []))
  malloc_search_cases (b ∷ c ∷ bs) =
      at_block b (c ∷ bs) _ (λ small. later b (c ∷ bs) _ small (malloc_search_cases (c ∷ bs)))

module _ (r limit end : ℕ) (least : 16 ≤ r) (whole_words : r % 8 ≡ 0) where
  pub Outcome-IsFreeList :
      (low : ℕ) (bs : List Block) (f : Found)
      → Outcome r limit end bs f
      → IsFreeList low end bs
      → IsFreeList low f.new_end f.rest
  Outcome-IsFreeList low _ _ (full _) w = w
  Outcome-IsFreeList low _ _ (fresh ok) w = omega arith
  Outcome-IsFreeList low _ _ (whole b bs fits) (a, s, _, _, w) =
      IsFreeList-lower low (b.addr + b.size) end bs (omega arith) w
  Outcome-IsFreeList low _ _ (split b bs fits) (a, s, m, n, w) = (
    omega arith,
    omega arith,
    omega arith,
    omega arith,
    subst (λ x. IsFreeList x end bs) (omega arith) w,
  )
  Outcome-IsFreeList low _ _ (stuck b small meets _) w = w
  Outcome-IsFreeList low _ _ (grown b small meets ok) (a, s, m, n, w) = omega arith
  Outcome-IsFreeList low _ _ (later b bs f small o) (a, s, m, n, w) =
      (a, s, m, n, Outcome-IsFreeList (b.addr + b.size) bs f o w)

-- The measure of what was found.
abbrev pub found : (ℕ → ℕ → ℕ) → Found → ℕ
found m f = elim f.at [ none ↦ 0 | some p ↦ m p f.block_size ]

module _ (m : ℕ → ℕ → ℕ) (additive : IsAdditive m) (r limit end : ℕ) where
  nothing_more : m end (end - end) ≡ 0
  nothing_more =
      let same : m end (end - end) ≡ m end 0 = ap (m end) (omega arith) in
      let twice : m end 0 ≡ m end 0 + m end 0 =
        additive end 0 0 ∙ ap (λ x. m end 0 + m x 0) (omega arith) in
      omega (arith, same, twice)

  -- The block and the list that is left measure what the list did, with what the heap grew by.
  pub Outcome-total :
      (low : ℕ) (bs : List Block) (f : Found)
      → Outcome r limit end bs f
      → IsFreeList low end bs
      → total m f.rest + found m f ≡ total m bs + m end (f.new_end - end)
  Outcome-total low _ _ (full _) w = omega (arith, nothing_more)
  Outcome-total low _ _ (fresh ok) w =
      let new : m end (end + r - end) ≡ m end r = ap (m end) (omega arith) in omega (arith, new)
  Outcome-total low _ _ (whole b bs fits) (a, s, _, _, w) = omega (arith, nothing_more)
  Outcome-total low _ _ (split b bs fits) (a, s, _, _, w) =
      let parts : m b.addr b.size ≡ m b.addr (r + (b.size - r)) = ap (m b.addr) (omega arith) in
      omega (arith, nothing_more, parts, additive b.addr r (b.size - r))
  Outcome-total low _ _ (stuck b small meets _) w = omega (arith, nothing_more)
  Outcome-total low _ _ (grown b small meets ok) w =
      let parts : m b.addr r ≡ m b.addr (b.size + (r - b.size)) = ap (m b.addr) (omega arith) in
      let more : m end (b.addr + r - end) ≡ m (b.addr + b.size) (r - b.size) =
        ap₂ m meets (omega arith) in
      omega (arith, parts, more, additive b.addr b.size (r - b.size))
  Outcome-total low _ _ (later b bs f small o) (a, s, _, _, w) =
      omega (arith, Outcome-total (b.addr + b.size) bs f o w)
