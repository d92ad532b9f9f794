-- ===== src/Heap/Usage.antt =====
-- tiny-malloc.c: what the heap and the blocks in use make up together.
use rv32i_pipeline_fpga.Common.{
  ℕ, ◌+◌, ◌-◌, ◌*◌, ◌/◌, ◌%◌, ◌^◌, ◌≤◌, ◌<◌, ◌≡◌, ◌≢◌, refl, ◌∙◌, none, some, List, [], ◌∷◌, ◌++◌,
  arith, ltb, Bool-cases, inl, inr, Option-cases, update, update-eq, update-ne,
}
use rv32i_pipeline_fpga.Heap.{
  Block, block, Heap, Found, malloc_search, malloc, free, free_insert, real_size_of, m_align,
}
use rv32i_pipeline_fpga.Heap.Search.{
  IsFreeList, covers, total, covers-IsAdditive, total-append, Outcome, Outcome-IsFreeList,
  Outcome-total, found, malloc_search_cases,
}
use rv32i_pipeline_fpga.Heap.Release.{IsApart, free_insert_cases, Joined-total, Joined-IsFreeList}

-- The blocks in use, with the size words that the heap holds for them.
abbrev pub IsUsed : (ℕ → ℕ) → List Block → Type 0
IsUsed size [] = 0 ≤ 0
IsUsed size (b ∷ bs) =
    (size b.addr ≡ b.size) × (16 ≤ b.size) × (b.addr % 8 ≡ 0) × (b.size % 8 ≡ 0) × IsUsed size bs

-- The free list and the blocks `used` make up the heap from `start` on: each address of it is in
-- one block.
pub record IsHeap (start : ℕ) (h : Heap) (used : List Block) : Type 0 where
  pub above : 0 < start
  pub ordered : start ≤ h.malloc_end
  pub aligned : h.malloc_end % 8 ≡ 0
  pub listed : IsFreeList (start - 1) h.malloc_end h.freelist
  pub sized : IsUsed h.size used
  pub tiles :
      (k : ℕ)
      → total (covers k) h.freelist + total (covers k) used ≡ covers k start (h.malloc_end - start)

-- The size that is asked for is rounded up to whole words, with the size word.
pub real_size_of_bounds :
    (sz : ℕ)
    → sz < 2 ^ 63
    → (16 ≤ real_size_of sz)
      × (real_size_of sz % 8 ≡ 0)
      × (sz + 8 ≤ real_size_of sz)
      × (real_size_of sz < sz + 24)
unfolding real_size_of m_align
real_size_of_bounds sz bound = elim (Bool-cases (ltb sz 8)) [
  | inl small ↦ ground arith
  | inr large ↦
      let whole : (sz + 8 + (2 ^ 64 - sz % 2 ^ 64) % 8) % 2 ^ 64 ≡ (sz + 15) / 8 * 8 =
        omega arith in
      ground (arith, whole)
]

IsUsed-append-left : (size : ℕ → ℕ) (xs ys : List Block) → IsUsed size (xs ++ ys) → IsUsed size ys
IsUsed-append-left size [] ys u = u
IsUsed-append-left size (x ∷ xs) ys (_, _, _, _, u) = IsUsed-append-left size xs ys u

IsUsed-append-drop :
    (size : ℕ → ℕ) (xs : List Block) (b : Block) (ys : List Block)
    → IsUsed size (xs ++ b ∷ ys)
    → IsUsed size (xs ++ ys)
IsUsed-append-drop size [] b ys (_, _, _, _, u) = u
IsUsed-append-drop size (x ∷ xs) b ys (e, l, al, wh, u) =
    (e, l, al, wh, IsUsed-append-drop size xs b ys u)

module _ (start : ℕ) (h : Heap) (before after : List Block) (b : Block)
    (heap : IsHeap start h (before ++ b ∷ after)) where
  own_entry : IsUsed h.size (b ∷ after)
  own_entry = IsUsed-append-left h.size before (b ∷ after) heap.sized

  at_word :
      (k : ℕ)
      → total (covers k) h.freelist
          + (total (covers k) before + total (covers k) after)
          + covers k b.addr b.size
        ≡ covers k start (h.malloc_end - start)
  at_word k = omega (arith, heap.tiles k, total-append (covers k) before (b ∷ after))

  -- The block is inside the heap.
  inside : (start ≤ b.addr) × (b.addr + b.size ≤ h.malloc_end)
  inside =
      let (e, l, _, _, _) = own_entry in
      let first : start ≤ b.addr = ground (arith, at_word b.addr, heap.ordered) in
      let last : b.addr + b.size ≤ h.malloc_end =
        ground (arith, at_word (b.addr + b.size - 1), heap.ordered) in
      (first, last)

  IsApart-from_list : IsApart b.addr b.size h.freelist
  IsApart-from_list k c =
      let once : covers k start (h.malloc_end - start) ≤ 1 = ground arith in
      omega (arith, at_word k)

  free_at :
      free (some (b.addr + 8)) h ≡ record h { freelist = free_insert b.addr b.size h.freelist }
  unfolding free
  free_at = let place : b.addr + 8 - 8 ≡ b.addr = omega arith in rw (place, own_entry.0) refl

  -- Freeing a block in use leaves the others, and a heap.
  pub free-IsHeap : IsHeap start (free (some (b.addr + 8)) h) (before ++ after)
  free-IsHeap = rw (free_at) (
      let (e, l, al, wh, _) = own_entry in
      let j = free_insert_cases b.addr b.size h.freelist in
      record {
        above = heap.above;
        ordered = heap.ordered;
        aligned = heap.aligned;
        listed =
            Joined-IsFreeList b.addr b.size h.malloc_end (start - 1) h.freelist _ l
              (omega (arith, inside, heap.above)) al wh inside.1 j heap.listed IsApart-from_list;
        sized = IsUsed-append-drop h.size before b after heap.sized;
        tiles = λ k. omega (
          arith,
          at_word k,
          total-append (covers k) before after,
          Joined-total b.addr b.size (covers k) (covers-IsAdditive k) h.freelist _ j,
        );
      })

-- A block that is not in use gets a size word.
IsUsed-update :
    (size : ℕ → ℕ) (a n : ℕ) (used : List Block)
    → total (covers a) used ≡ 0
    → IsUsed size used
    → IsUsed (update size a n) used
IsUsed-update size a n [] free u = u
IsUsed-update size a n (b ∷ bs) free (e, l, al, wh, u) =
    let other : a ≢ b.addr = λ same. absurd (ground arith) in
    (update-ne size a n b.addr other ∙ e, l, al, wh, IsUsed-update size a n bs (omega arith) u)

-- What the search finds is aligned and large enough, and the heap only grows.
Outcome-found :
    (r limit end : ℕ) (low p : ℕ) (bs : List Block) (f : Found)
    → 16 ≤ r
    → r % 8 ≡ 0
    → end % 8 ≡ 0
    → Outcome r limit end bs f
    → IsFreeList low end bs
    → f.at ≡ some p
    → (p % 8 ≡ 0)
      × (r ≤ f.block_size)
      × (f.block_size % 8 ≡ 0)
      × (end ≤ f.new_end)
      × (f.new_end % 8 ≡ 0)
Outcome-found r limit end low p _ _ least whole_words whole_end (Outcome.full _) w at = ground arith
Outcome-found r limit end low p _ _ least whole_words whole_end (Outcome.fresh ok) w at =
    ground arith
Outcome-found r limit end low p _ _ least whole_words whole_end (Outcome.whole b bs fits) w at =
    ground arith
Outcome-found r limit end low p _ _ least whole_words whole_end (Outcome.split b bs fits) w at =
    ground arith
Outcome-found r limit end low p _ _ least whole_words whole_end (Outcome.stuck b small meets _) w
      at =
    ground arith
Outcome-found r limit end low p _ _ least whole_words whole_end (Outcome.grown b small meets ok) w
      at =
    ground arith
Outcome-found r limit end low p _ _ least whole_words whole_end (Outcome.later b bs f small o)
      (_, _, _, _, w) at =
    Outcome-found r limit end (b.addr + b.size) p bs f least whole_words whole_end o w at

-- What the search of `malloc` ends with.
abbrev pub searched : ℕ → ℕ → Heap → Found
searched limit sz h = malloc_search (real_size_of sz) limit h.malloc_end h.freelist

-- The heap after the block at `a` is found.
abbrev pub heap_with : ℕ → Found → Heap → Heap
heap_with a f h = record h {
  freelist = f.rest;
  malloc_end = f.new_end;
  size = update h.size a f.block_size;
}

module _ (limit sz : ℕ) (h : Heap) where
  pub malloc-none : (searched limit sz h).at ≡ none → malloc limit sz h ≡ (none, h)
  unfolding malloc
  malloc-none e = rw (malloc, e) refl

  pub malloc-some :
      (a : ℕ)
      → (searched limit sz h).at ≡ some a
      → malloc limit sz h ≡ (some (a + 8), heap_with a (searched limit sz h) h)
  unfolding malloc
  malloc-some a e = rw (malloc, e) refl

  -- A pointer is 8 past the block that was found.
  pub malloc_found :
      (p : ℕ) → (malloc limit sz h).0 ≡ some p → (searched limit sz h).at ≡ some (p - 8)
  malloc_found p e = elim (Option-cases (searched limit sz h).at) [
    | inl x ↦ absurd (ground (arith, malloc-none x))
    | inr (a, x) ↦ ground (arith, malloc-some a x)
  ]

module _ (start limit sz a : ℕ) (h : Heap) (used : List Block) (bound : sz < 2 ^ 63)
    (heap : IsHeap start h used) (at : (searched limit sz h).at ≡ some a) where
  abbrev f : Found
  f = searched limit sz h

  facts :
      (a % 8 ≡ 0)
      × (real_size_of sz ≤ f.block_size)
      × (f.block_size % 8 ≡ 0)
      × (h.malloc_end ≤ f.new_end)
      × (f.new_end % 8 ≡ 0)
  facts =
      let (least, whole_words, _, _) = real_size_of_bounds sz bound in
      Outcome-found (real_size_of sz) limit h.malloc_end (start - 1) a h.freelist f least
        whole_words heap.aligned (malloc_search_cases _ limit _ _) heap.listed at

  measured :
      (k : ℕ)
      → total (covers k) f.rest + covers k a f.block_size
        ≡ total (covers k) h.freelist + covers k h.malloc_end (f.new_end - h.malloc_end)
  measured k =
      let e =
        Outcome-total (covers k) (covers-IsAdditive k) (real_size_of sz) limit h.malloc_end
          (start - 1) h.freelist f (malloc_search_cases _ limit _ _) heap.listed in
      let here : found (covers k) f ≡ covers k a f.block_size = rw (at) refl in
      omega (arith, e, here)

  unused : total (covers a) used ≡ 0
  unused =
      let (_, _, s, _, _) = facts in
      let (least, _, _, _) = real_size_of_bounds sz bound in
      ground (arith, measured a, heap.tiles a, facts)

  still_IsHeap : IsHeap start (heap_with a f h) (block a f.block_size ∷ used)
  still_IsHeap =
      let (least, whole_words, _, _) = real_size_of_bounds sz bound in
      record {
        above = heap.above;
        ordered = omega (arith, heap.ordered, facts);
        aligned = facts.4;
        listed =
            Outcome-IsFreeList (real_size_of sz) limit h.malloc_end least whole_words (start - 1)
              h.freelist f (malloc_search_cases _ limit _ _) heap.listed;
        sized = (
          update-eq h.size a f.block_size a refl,
          omega (arith, facts, least),
          facts.0,
          facts.2,
          IsUsed-update h.size a f.block_size used unused heap.sized,
        );
        tiles = λ k. ground (arith, measured k, heap.tiles k, heap.ordered, facts);
      }

-- For a size below 2^63, a block that `malloc` returns from a heap is aligned, large enough and
-- disjoint from the blocks in use, and the heap with it is one: free and used blocks tile it.
pub malloc-IsHeap :
    (start limit sz p : ℕ) (h : Heap) (used : List Block)
    → sz < 2 ^ 63
    → IsHeap start h used
    → (malloc limit sz h).0 ≡ some p
    → (let h' = (malloc limit sz h).1 in
        let n = h'.size (p - 8) in
        IsHeap start h' (block (p - 8) n ∷ used) × (sz + 8 ≤ n) × ((p - 8) % 8 ≡ 0))
malloc-IsHeap start limit sz p h used bound heap e =
    let at = malloc_found limit sz h p e in
    let word = update-eq h.size (p - 8) (searched limit sz h).block_size (p - 8) refl in
    let (aligned, room, _, _, _) = facts start limit sz (p - 8) h used bound heap at in
    rw (malloc-some limit sz h (p - 8) at, word)
      (
        still_IsHeap start limit sz (p - 8) h used bound heap at,
        omega (arith, room, real_size_of_bounds sz bound),
        aligned,
      )
