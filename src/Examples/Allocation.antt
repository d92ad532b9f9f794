-- ===== src/Examples/Allocation.antt =====
-- Tests of the allocator's and the page handler's models, and the properties at inputs that meet
-- their hypotheses.
use mathlib.Core.List.{List, [], ◌∷◌, ◌++◌}
use rv32i_pipeline_fpga.Common.{
  false, ℕ, ◌+◌, ◌-◌, ◌/◌, ◌%◌, ◌^◌, ◌≤◌, ◌<◌, ◌≡◌, ◌≢◌, refl, inl, ◌==◌, if◌then◌else◌, arith,
  none, some, Option,
}
use rv32i_pipeline_fpga.Heap.Totals.{mallinfo-IsHeap}
use rv32i_pipeline_fpga.Heap.Aligned.{given, IsPlaced, memalign-tiles}
use rv32i_pipeline_fpga.Heap.Search.{total, covers}
use rv32i_pipeline_fpga.Heap.Memalign.{
  memalign, memalign_search, memalign_block, before_size_of, m_align_to, place_block,
}
use rv32i_pipeline_fpga.Heap.{
  mallinfo, Heap, block, malloc, malloc_search, m_align, can_alloc, free, real_size_of,
}
use rv32i_pipeline_fpga.Heap.Usage.{IsHeap, malloc-IsHeap, free-IsHeap}
use rv32i_pipeline_fpga.Heap.Calls.{malloc-fails, malloc-limit, free-malloc, IsSmall}
use rv32i_pipeline_fpga.Paging.{
  handle_trap, terminate, Trapframe, Vm, mapped, append_node, handle_fault, boot_pool, frame_of,
  max_test_pages, home,
}
use rv32i_pipeline_fpga.Paging.Frames.{IsPaged, view}
use rv32i_pipeline_fpga.Paging.Faults.{handle_fault-maps}
use rv32i_pipeline_fpga.Paging.Exit.{handle_trap-exit}
use rv32i_pipeline_fpga.Paging.Boot.{boot_pool-IsPaged, boot_frames}

-- 16 bytes that are free, 16 in use, and 32 that are free.
abbrev heap : Heap
heap = record {
  freelist = block 0x1000 16 ∷ block 0x1020 32 ∷ [];
  malloc_end = 0x1040;
  size = λ a. if a == 0x1010 then 16 else 0;
  bytes = λ a. 0;
}

heap-IsHeap : IsHeap 0x1000 heap (block 0x1010 16 ∷ [])
heap-IsHeap = record {
  above = omega arith;
  ordered = omega arith;
  aligned = refl;
  listed =
      (omega arith, omega arith, refl, refl, (omega arith, omega arith, refl, refl, omega arith));
  sized = (refl, omega arith, refl, refl, omega arith);
  tiles = λ k. ground arith;
}

malloc-IsHeap_example :
    let h' = (malloc 0x8000 24 heap).1 in
    let n = h'.size (0x1028 - 8) in
    IsHeap 0x1000 h' (block (0x1028 - 8) n ∷ block 0x1010 16 ∷ [])
    × (24 + 8 ≤ n)
    × ((0x1028 - 8) % 8 ≡ 0)
unfolding malloc malloc_search real_size_of m_align can_alloc
malloc-IsHeap_example =
    malloc-IsHeap 0x1000 0x8000 24 0x1028 heap (block 0x1010 16 ∷ []) (omega arith) heap-IsHeap refl

-- A size near 2^64 wraps to a block of 8 bytes, and so does a product of the sizes of `calloc`.
wrapped_size : real_size_of (2 ^ 64 - 8) ≡ 0
unfolding real_size_of m_align
wrapped_size = refl

free-IsHeap_example : IsHeap 0x1000 (free (some (0x1010 + 8)) heap) ([] ++ [])
free-IsHeap_example = free-IsHeap 0x1000 heap [] [] (block 0x1010 16) heap-IsHeap

free-malloc_example : (free (some 0x1028) (malloc 0x8000 24 heap).1).freelist ≡ heap.freelist
unfolding malloc malloc_search real_size_of m_align can_alloc
free-malloc_example =
    free-malloc 0x1000 0x8000 24 0x1028 heap (block 0x1010 16 ∷ []) (omega arith) heap-IsHeap refl
      refl

mallinfo-IsHeap_example :
    (let i = mallinfo 0x1000 heap in
      (i.fordblks ≡ 48) × (i.uordblks ≡ 16) × (i.arena ≡ i.fordblks + i.uordblks))
mallinfo-IsHeap_example = mallinfo-IsHeap 0x1000 heap (block 0x1010 16 ∷ []) heap-IsHeap

memalign-tiles_example :
    (r : Option ℕ) × (h' : Heap) × (memalign 1 0x8000 64 24 heap ≡ some (r, h'))
    × ((k : ℕ)
        → total (covers k) h'.freelist
            + total (covers k) (given r h')
            + total (covers k) (block 0x1010 16 ∷ [])
          ≡ covers k 0x1000 (h'.malloc_end - 0x1000))
    × IsPlaced 64 24 0x6fc0 r h'
memalign-tiles_example =
    memalign-tiles 0 0x8000 64 24 0x1000 heap (block 0x1010 16 ∷ []) (omega arith) (omega arith)
      (omega arith) (omega arith) heap-IsHeap

-- The last block of the list grows, and its first 24 bytes stay free.
abbrev call_of : Option (Option ℕ × Heap) → List ℕ
call_of none = []
call_of (some (none, h)) = 0 ∷ h.malloc_end ∷ []
call_of (some (some p, h)) = p ∷ h.malloc_end ∷ h.size (p - 8) ∷ []

aligned_pointer : call_of (memalign 1 0x8000 64 24 heap) ≡ 0x1040 ∷ 0x1058 ∷ 32 ∷ []
unfolding memalign memalign_search memalign_block before_size_of m_align_to place_block can_alloc
    real_size_of m_align
aligned_pointer = refl

malloc-limit_example : (malloc 0x8000 24 heap).1.malloc_end + 32 ≤ 0x8000
unfolding malloc malloc_search real_size_of m_align can_alloc
malloc-limit_example = malloc-limit 0x8000 24 0x1028 heap (omega arith) (omega arith) refl

malloc-fails_example :
    ((malloc 0x1068 80 heap).1 ≡ heap)
    × IsSmall (real_size_of 80) heap.freelist
    × (0x1068 < heap.malloc_end + real_size_of 80 + 32)
unfolding malloc malloc_search real_size_of m_align can_alloc
malloc-fails_example = malloc-fails 0x1068 80 heap (omega arith) (omega arith) refl

-- A pool of one frame, and no page that is mapped.
abbrev unmapped : Vm
unmapped = record {
  user_llpt = λ page. 0;
  node_addr = λ node. if node == 63 then 0x8010_0000 else 0;
  node_next = λ node. none;
  freelist_head = some 63;
  freelist_tail = some 63;
  phys = λ frame offset. frame;
}

unmapped-IsPaged : IsPaged unmapped (0x80100 ∷ [])
unmapped-IsPaged = record {
  pool = (63, refl, omega arith, refl, refl);
  distinct = (
    omega arith,
    omega arith,
    omega arith,
    λ page bound. (omega arith, λ present. absurd (present refl)),
    omega arith,
  );
  unmapped = λ page bound e. ground arith;
}

abbrev no_filter : ℕ → Option ℕ
no_filter addr = none

-- With two frames in the pool, the first fault sets the tail to null, and a page that is then
-- evicted takes the place of the frame that is left.
abbrev two_frames : Vm
two_frames = record unmapped {
  node_next = λ node. if node == 63 then some 64 else none;
  freelist_tail = some 64;
}

lost_tail :
    (let vm' = mapped no_filter 3 63 two_frames in
      (vm'.freelist_head ≡ some 64)
      × (vm'.freelist_tail ≡ none)
      × ((append_node 5 vm').freelist_head ≡ some 5)
      × ((append_node 5 vm').node_next 5 ≡ none))
unfolding mapped append_node
lost_tail = (refl, refl, refl, refl)

handle_fault-maps_example :
    (vm' : Vm) × (handle_fault no_filter 0x3004 13 unmapped ≡ some vm')
    × IsPaged vm' []
    × (frame_of (vm'.user_llpt (0x3004 / 4096)) ≡ 0x80100)
    × ((page : ℕ) → page < max_test_pages → view vm' page ≡ view unmapped page)
handle_fault-maps_example =
    handle_fault-maps no_filter (λ addr flags e. absurd (ground arith)) unmapped 0x80100 [] 0x3004
      13 (omega arith) (omega arith) refl unmapped-IsPaged

-- Every page has the frame 0x80100; the flags are V, R, W, X and U.
abbrev shared : Vm
shared = record unmapped { user_llpt = λ page. 0x2004_001f }

-- The same with A and D, and a node that each page is mapped by.
abbrev dirty : Vm
dirty = record unmapped { user_llpt = λ page. 0x2004_00df; node_addr = λ node. 0x8010_0000 }

abbrev call_frame : Trapframe
call_frame = record { a0 = 1; epc = 0x2000; badvaddr = 0; cause = 8; is_fssr = false }

handle_trap-exit_example :
    (vm' : Vm) × (handle_trap no_filter false call_frame dirty ≡ terminate (1 % 2 ^ 32) vm')
    × ((page i : ℕ)
        → 1 ≤ page
        → page < max_test_pages
        → dirty.node_addr page ≢ 0
        → i < 4096
        → vm'.phys (home page) i ≡ dirty.phys (frame_of (dirty.user_llpt page)) i)
unfolding frame_of
handle_trap-exit_example = handle_trap-exit no_filter call_frame dirty refl (λ page l b t. record {
  used = refl;
  evictable = inl refl;
  away = λ other small e. absurd (ground arith);
})

boot_pool-IsPaged_example :
    IsPaged
      (boot_pool 0x1234 (record unmapped { node_addr = λ node. 0 }))
      (boot_frames (1 + 0x1234 % max_test_pages) max_test_pages)
boot_pool-IsPaged_example =
    boot_pool-IsPaged 0x1234 (record unmapped { node_addr = λ node. 0 }) (λ page bound. refl)
      (λ page bound. refl)
