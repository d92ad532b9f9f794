-- ===== src/Heap/Totals.antt =====
-- tiny-malloc.c: what mallinfo counts.
use rv32i_pipeline_fpga.Common.{
  ℕ, zero, suc, ◌+◌, ◌-◌, ◌≤◌, ◌≡◌, refl, sym, ap₂, ◌∙◌, List, [], ◌∷◌, arith, leb, if◌then◌else◌,
}
use rv32i_pipeline_fpga.Heap.{Block, Heap, Info, mallinfo, mallinfo_loop}
use rv32i_pipeline_fpga.Heap.Search.{covers, total}
use rv32i_pipeline_fpga.Heap.Usage.{IsHeap}

-- The size of a block, and where it ends.
abbrev pub size_in : ℕ → ℕ → ℕ
size_in a n = n

abbrev end_of : ℕ → ℕ → ℕ
end_of a n = a + n

-- The sum over the addresses below `n`.
sum_below : (ℕ → ℕ) → ℕ → ℕ
sum_below f zero = 0
sum_below f (suc n) = sum_below f n + f n

sum_below-ext : (f g : ℕ → ℕ) (n : ℕ) → ((k : ℕ) → f k ≡ g k) → sum_below f n ≡ sum_below g n
unfolding sum_below
sum_below-ext f g zero e = refl
sum_below-ext f g (suc n) e = ap₂ (λ x y. x + y) (sum_below-ext f g n e) (e n)

sum_below_add : (f g : ℕ → ℕ) (n : ℕ) → sum_below (λ k. f k + g k) n ≡ sum_below f n + sum_below g n
unfolding sum_below
sum_below_add f g zero = refl
sum_below_add f g (suc n) = omega (arith, sum_below_add f g n)

sum_below_zero : (n : ℕ) → sum_below (λ k. 0) n ≡ 0
unfolding sum_below
sum_below_zero zero = refl
sum_below_zero (suc n) = omega (arith, sum_below_zero n)

-- A block's addresses below `n`.
sum_below-covers :
    (a size n : ℕ)
    → sum_below (λ k. covers k a size) n
      ≡ (if leb n a then 0 else if leb n (a + size) then n - a else size)
unfolding sum_below
sum_below-covers a size zero = ground arith
sum_below-covers a size (suc n) = ground (arith, sum_below-covers a size n)

sum_below-whole : (a size n : ℕ) → a + size ≤ n → sum_below (λ k. covers k a size) n ≡ size
sum_below-whole a size n fits = ground (arith, sum_below-covers a size n)

sum_below-total :
    (n : ℕ) (bs : List Block)
    → total end_of bs ≤ n
    → sum_below (λ k. total (covers k) bs) n ≡ total size_in bs
sum_below-total n [] fits = sum_below_zero n
sum_below-total n (b ∷ bs) fits =
    sum_below_add (λ k. covers k b.addr b.size) (λ k. total (covers k) bs) n
    ∙ ap₂ (λ x y. x + y) (sum_below-whole b.addr b.size n (omega arith))
        (sum_below-total n bs (omega arith))

-- The blocks' sizes add up to the heap.
sizes-IsHeap :
    (start : ℕ) (h : Heap) (used : List Block)
    → IsHeap start h used
    → total size_in h.freelist + total size_in used ≡ h.malloc_end - start
sizes-IsHeap start h used heap =
    let n = total end_of h.freelist + total end_of used + h.malloc_end in
    ap₂ (λ x y. x + y) (sym (sum_below-total n h.freelist (omega arith)))
      (sym (sum_below-total n used (omega arith)))
    ∙ sym (sum_below_add (λ k. total (covers k) h.freelist) (λ k. total (covers k) used) n)
    ∙ sum_below-ext (λ k. total (covers k) h.freelist + total (covers k) used)
        (λ k. covers k start (h.malloc_end - start)) n heap.tiles
    ∙ sum_below-whole start (h.malloc_end - start) n (omega (arith, heap.ordered))

mallinfo_loop_lem :
    (end : ℕ) (bs : List Block) (i : Info)
    → (mallinfo_loop end bs i).free_size ≡ i.free_size + total size_in bs
unfolding mallinfo_loop
mallinfo_loop_lem end [] i = omega arith
mallinfo_loop_lem end (b ∷ bs) i = mallinfo_loop_lem end bs _ ∙ omega arith

-- On a heap that the free list and the blocks in use tile, mallinfo's counts are right: the bytes
-- in the free blocks, the bytes in the blocks in use, and both together the arena.
pub mallinfo-IsHeap :
    (start : ℕ) (h : Heap) (used : List Block)
    → IsHeap start h used
    → (let i = mallinfo start h in
        (i.fordblks ≡ total size_in h.freelist)
        × (i.uordblks ≡ total size_in used)
        × (i.arena ≡ i.fordblks + i.uordblks))
unfolding mallinfo
mallinfo-IsHeap start h used heap =
    let counted =
      mallinfo_loop_lem h.malloc_end h.freelist
        (record { free_size = 0; free_blocks = 0; keepcost = 0 }) in
    let whole = sizes-IsHeap start h used heap in
    (omega (arith, counted), omega (arith, counted, whole), omega (arith, counted, whole))
