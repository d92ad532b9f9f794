-- ===== src/Heap/Memalign.antt =====
-- riscv-tests/debug/programs/tiny-malloc.c: memalign, valloc and pvalloc, for a heap that grows
-- upwards. `fuel` bounds the rounds past the end of the free list.
use rv32i_pipeline_fpga.Common.{
  ℕ, zero, suc, not, ◌&&◌, ◌||◌, ◌+◌, ◌-◌, ◌%◌, ◌^◌, ltb, leb, ◌==◌, if◌then◌else◌, Option, none,
  some, List, [], ◌∷◌, bit_and, update,
}
use rv32i_pipeline_fpga.Runtime.{◌>>=◌}
use rv32i_pipeline_fpga.Heap.{
  Block, block, Heap, Found, entry_size, real_size_of, can_alloc, is_last,
}

-- Sums and differences of `size_t`, which wrap.
abbrev pub size_t : ℕ → ℕ
size_t n = n % 2 ^ 64

abbrev pub size_t_sub : ℕ → ℕ → ℕ
size_t_sub n m = (n + 2 ^ 64 - m) % 2 ^ 64

-- `M_ALIGN`.
unfoldable pub m_align_to : ℕ → ℕ → ℕ
m_align_to x align = bit_and ((2 ^ 64 - x % 2 ^ 64) % 2 ^ 64) (align - 1)

-- The bytes of a block at `addr` that stay free before the aligned one.
unfoldable pub before_size_of : ℕ → ℕ → ℕ
before_size_of align addr =
    if m_align_to (addr + 8) align == 0
    then 0
    else size_t (entry_size + m_align_to (addr + 16 + 8) align)

-- The block will do.
unfoldable pub place_block : ℕ → ℕ → Block → List Block → ℕ → Found
place_block real_size before b bs end =
    if before == 0
    then (if leb b.size (size_t (real_size + entry_size))
        then record { at = some b.addr; block_size = b.size; rest = bs; new_end = end }
        else record {
          at = some b.addr;
          block_size = real_size;
          rest = block (size_t (b.addr + real_size)) (size_t_sub b.size real_size) ∷ bs;
          new_end = end;
        })
    else if leb (size_t_sub b.size before) (size_t (real_size + entry_size))
    then record {
      at = some (size_t (b.addr + before));
      block_size = size_t_sub b.size before;
      rest = block b.addr before ∷ bs;
      new_end = end;
    }
    else record {
      at = some (size_t (b.addr + before));
      block_size = real_size;
      rest =
          block b.addr before
          ∷ block (size_t (size_t (b.addr + before) + real_size))
              (size_t_sub (size_t_sub b.size before) real_size)
          ∷ bs;
      new_end = end;
    }

-- A round of the loop at the block `b`; `none` goes on to the next one.
unfoldable pub memalign_block : ℕ → ℕ → ℕ → ℕ → Block → List Block → Option Found
memalign_block align real_size limit end b bs =
    let before = before_size_of align b.addr in
    if is_last bs && ltb b.size (size_t (real_size + before)) && end == size_t (b.addr + b.size)
    then (if not (can_alloc limit end (size_t_sub (size_t (before + real_size)) b.size))
        then some (record { at = none; block_size = 0; rest = b ∷ bs; new_end = end })
        else some (
            place_block real_size before (block b.addr (size_t (before + real_size))) bs
              (size_t (size_t (b.addr + before) + real_size))))
    else if leb (size_t (real_size + before)) b.size
    then some (place_block real_size before b bs end)
    else none

-- The rounds past the end of the list, each of which adds a block.
unfoldable pub memalign_fresh : ℕ → ℕ → ℕ → ℕ → ℕ → Option Found
memalign_fresh zero align real_size limit end = none
memalign_fresh (suc fuel) align real_size limit end =
    let old_size = size_t (real_size + m_align_to (end + 8) align) in
    let new_end = size_t (end + old_size) in
    let later = memalign_fresh fuel align real_size limit new_end in
    if not (can_alloc limit end old_size)
    then some (record { at = none; block_size = 0; rest = []; new_end = end })
    else elim (memalign_block align real_size limit new_end (block end old_size) []) [
      | some f ↦ some f
      | none ↦ do f ← later; some (record f { rest = block end old_size ∷ f.rest })
    ]

-- The loop from a place in the list on.
unfoldable pub memalign_search : ℕ → ℕ → ℕ → ℕ → ℕ → List Block → Option Found
memalign_search fuel align real_size limit end [] = memalign_fresh fuel align real_size limit end
memalign_search fuel align real_size limit end (b ∷ bs) =
    let later = memalign_search fuel align real_size limit end bs in
    elim (memalign_block align real_size limit end b bs) [
      | some f ↦ some f
      | none ↦ do f ← later; some (record f { rest = b ∷ f.rest })
    ]

unfoldable pub memalign : ℕ → ℕ → ℕ → ℕ → Heap → Option (Option ℕ × Heap)
memalign fuel limit align sz h =
    if not (bit_and align (align - 1) == 0) || leb align 0 then some (none, h) else do
      f ← memalign_search fuel align (real_size_of sz) limit h.malloc_end h.freelist
      let h' = record h { freelist = f.rest; malloc_end = f.new_end } in
          elim f.at [
            | none ↦ some (none, h')
            | some addr ↦
                some (some (addr + 8), record h' { size = update h.size addr f.block_size })
          ]

unfoldable pub valloc : ℕ → ℕ → ℕ → Heap → Option (Option ℕ × Heap)
valloc fuel limit sz h = memalign fuel limit 128 sz h

unfoldable pub pvalloc : ℕ → ℕ → ℕ → Heap → Option (Option ℕ × Heap)
pvalloc fuel limit sz h = memalign fuel limit 128 (size_t (sz + m_align_to sz 128)) h
