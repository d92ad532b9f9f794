-- ===== src/Heap/Calls.antt =====
-- tiny-malloc.c: a call that fails, the limit of the heap, and a block that is freed at once.
use rv32i_pipeline_fpga.Common.{
  ℕ, ◌+◌, ◌-◌, ◌%◌, ◌^◌, ◌≤◌, ◌<◌, ◌≡◌, refl, ap, sym, ◌∙◌, Option-cases, none, some, List, [], ◌∷◌,
  arith, true, inl, inr, subst, ◌↔◌, update-eq,
}
use rv32i_pipeline_fpga.Heap.{
  Block, block, Heap, Found, malloc, free, free_insert, real_size_of, can_alloc,
}
use rv32i_pipeline_fpga.Heap.Search.{IsFreeList, Outcome, malloc_search_cases}
use rv32i_pipeline_fpga.Heap.Usage.{
  searched, malloc-none, malloc-some, malloc_found, real_size_of_bounds, IsHeap,
}
use mathlib.Core.Option.{some-injective}

-- Every block of the list is smaller.
abbrev pub IsSmall : ℕ → List Block → Type 0
IsSmall r [] = 0 ≤ 0
IsSmall r (b ∷ bs) = (b.size < r) × IsSmall r bs

module _ (r limit end : ℕ) (bound : limit < 2 ^ 64) (room : end + 32 ≤ limit) where
  can_alloc-bound : (n : ℕ) → (can_alloc limit end n ≡ true) ↔ (end + n + 32 ≤ limit)
  unfolding can_alloc
  can_alloc-bound n =
      let e : (limit + 2 ^ 64 - end + 2 ^ 64 - 32) % 2 ^ 64 ≡ limit - end - 32 = omega arith in
      rw (e) (ground arith)

  Outcome-none :
      (bs : List Block) (f : Found)
      → Outcome r limit end bs f
      → f.at ≡ none
      → IsSmall r bs × (limit < end + r + 32)
  Outcome-none _ _ (Outcome.full x) at = ground (arith, can_alloc-bound r)
  Outcome-none _ _ (Outcome.fresh _) at = ground arith
  Outcome-none _ _ (Outcome.whole b bs fits) at = ground arith
  Outcome-none _ _ (Outcome.split b bs fits) at = ground arith
  Outcome-none _ _ (Outcome.stuck b small meets x) at = ground (arith, can_alloc-bound (r - b.size))
  Outcome-none _ _ (Outcome.grown b small meets x) at = ground arith
  Outcome-none _ _ (Outcome.later b bs f small o) at =
      let (all, reached) = Outcome-none bs f o at in ((small, all), reached)

  Outcome-limit : (bs : List Block) (f : Found) → Outcome r limit end bs f → f.new_end + 32 ≤ limit
  Outcome-limit _ _ (Outcome.full x) = room
  Outcome-limit _ _ (Outcome.fresh x) = ground (arith, can_alloc-bound r)
  Outcome-limit _ _ (Outcome.whole b bs fits) = room
  Outcome-limit _ _ (Outcome.split b bs fits) = room
  Outcome-limit _ _ (Outcome.stuck b small meets x) = room
  Outcome-limit _ _ (Outcome.grown b small meets x) = ground (arith, can_alloc-bound (r - b.size))
  Outcome-limit _ _ (Outcome.later b bs f small o) = Outcome-limit bs f o

-- The block goes back to where it was found.
module _ (r limit end : ℕ) (least : 16 ≤ r) where
  insert_first :
      (b : Block) (bs : List Block)
      → IsFreeList (b.addr + b.size) end bs
      → free_insert b.addr b.size bs ≡ b ∷ bs
  unfolding free_insert
  insert_first b [] w = refl
  insert_first b (t ∷ ts) (l, s, _, _, w) = ground arith

  Outcome-above :
      (low p : ℕ) (bs : List Block) (f : Found)
      → Outcome r limit end bs f
      → IsFreeList low end bs
      → f.at ≡ some p
      → f.new_end ≡ end
      → low < p
  Outcome-above low p _ _ (Outcome.full x) w at same = ground arith
  Outcome-above low p _ _ (Outcome.fresh x) w at same = ground arith
  Outcome-above low p _ _ (Outcome.whole b bs fits) w at same = ground arith
  Outcome-above low p _ _ (Outcome.split b bs fits) w at same = ground arith
  Outcome-above low p _ _ (Outcome.stuck b small meets x) w at same = ground arith
  Outcome-above low p _ _ (Outcome.grown b small meets x) w at same = ground arith
  Outcome-above low p _ _ (Outcome.later b bs f small o) (l, s, _, _, w) at same =
      omega (arith, Outcome-above (b.addr + b.size) p bs f o w at same)

  -- A block past the first one of a list is freed past it.
  insert_later :
      (a n : ℕ) (b : Block) (bs cs : List Block)
      → b.addr + b.size < a
      → free_insert a n cs ≡ bs
      → free_insert a n (b ∷ cs) ≡ b ∷ bs
  unfolding free_insert
  insert_later a n b bs cs l e = ground arith

  insert_rest :
      (b : Block) (bs : List Block)
      → r + 16 ≤ b.size
      → free_insert b.addr r (block (b.addr + r) (b.size - r) ∷ bs) ≡ b ∷ bs
  unfolding free_insert
  insert_rest b bs fits =
      let grown_back : block b.addr (r + (b.size - r)) ≡ b = ap (block b.addr) (omega arith) in
      ground arith

  Outcome-free :
      (low p : ℕ) (bs : List Block) (f : Found)
      → Outcome r limit end bs f
      → IsFreeList low end bs
      → f.at ≡ some p
      → f.new_end ≡ end
      → free_insert p f.block_size f.rest ≡ bs
  Outcome-free low p _ _ (Outcome.full x) w at same = absurd (ground arith)
  Outcome-free low p _ _ (Outcome.fresh x) w at same = absurd (ground arith)
  Outcome-free low p _ _ (Outcome.whole b bs fits) (l, s, _, _, w) at same =
      subst (λ q. free_insert q b.size bs ≡ b ∷ bs) (some-injective _ _ at) (insert_first b bs w)
  Outcome-free low p _ _ (Outcome.split b bs fits) (l, s, _, _, w) at same =
      subst (λ q. free_insert q r (block (b.addr + r) (b.size - r) ∷ bs) ≡ b ∷ bs)
        (some-injective _ _ at) (insert_rest b bs fits)
  Outcome-free low p _ _ (Outcome.stuck b small meets x) w at same = absurd (ground arith)
  Outcome-free low p _ _ (Outcome.grown b small meets x) w at same = absurd (ground arith)
  Outcome-free low p _ _ (Outcome.later b bs f small o) (l, s, _, _, w) at same =
      insert_later p f.block_size b bs f.rest (Outcome-above (b.addr + b.size) p bs f o w at same)
        (Outcome-free (b.addr + b.size) p bs f o w at same)

-- A call fails only when no free block is large enough, and the heap cannot grow by so much; it
-- changes nothing.
pub malloc-fails :
    (limit sz : ℕ) (h : Heap)
    → limit < 2 ^ 64
    → h.malloc_end + 32 ≤ limit
    → (malloc limit sz h).0 ≡ none
    → ((malloc limit sz h).1 ≡ h)
      × IsSmall (real_size_of sz) h.freelist
      × (limit < h.malloc_end + real_size_of sz + 32)
malloc-fails limit sz h bound room e = elim (Option-cases (searched limit sz h).at) [
  | inl x ↦
      let (small, reached) =
        Outcome-none (real_size_of sz) limit h.malloc_end bound room h.freelist
          (searched limit sz h) (malloc_search_cases _ limit _ _) x in
      (ap (λ r. r.1) (malloc-none limit sz h x), small, reached)
  | inr (a, x) ↦ absurd (ground (arith, malloc-some limit sz h a x))
]

-- A call that returns a pointer keeps the end of the heap 32 bytes below the frame.
pub malloc-limit :
    (limit sz p : ℕ) (h : Heap)
    → limit < 2 ^ 64
    → h.malloc_end + 32 ≤ limit
    → (malloc limit sz h).0 ≡ some p
    → (malloc limit sz h).1.malloc_end + 32 ≤ limit
malloc-limit limit sz p h bound room e =
    let at = malloc_found limit sz h p e in
    rw (malloc-some limit sz h (p - 8) at) (
      Outcome-limit (real_size_of sz) limit h.malloc_end bound room h.freelist (searched limit sz h)
        (malloc_search_cases _ limit _ _))

-- To free the block that a call has returned without growing the heap gives the free list back.
pub free-malloc :
    (start limit sz p : ℕ) (h : Heap) (used : List Block)
    → sz < 2 ^ 63
    → IsHeap start h used
    → (malloc limit sz h).0 ≡ some p
    → (malloc limit sz h).1.malloc_end ≡ h.malloc_end
    → (free (some p) (malloc limit sz h).1).freelist ≡ h.freelist
unfolding free
free-malloc start limit sz p h used bound heap e same =
    let at = malloc_found limit sz h p e in
    let (least, _, _, _) = real_size_of_bounds sz bound in
    let word = update-eq h.size (p - 8) (searched limit sz h).block_size (p - 8) refl in
    let whole = malloc-some limit sz h (p - 8) at in
    let end_same : (searched limit sz h).new_end ≡ h.malloc_end =
      ap (λ r. r.1.malloc_end) (sym whole) ∙ same in
    rw (whole, word)
      (Outcome-free (real_size_of sz) limit h.malloc_end least (start - 1) (p - 8) h.freelist
        (searched limit sz h) (malloc_search_cases _ limit _ _) heap.listed at end_same)
