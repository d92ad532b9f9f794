-- ===== src/Heap.antt =====
-- riscv-tests/debug/programs/tiny-malloc.c: the first-fit allocator, for a heap that grows upwards
-- (`MALLOC_DIRECTION` 1). A `size_t` has 8 bytes.
--
-- The free list is the list of its blocks in order; the `nextfree` pointer of a loop is the place
-- in that list. `size` is the size word at the head of a block in use, by the block's address. A
-- pointer that `malloc` returns is 8 past the block's address; `none` is `NULL`. The words that
-- the allocator keeps in a free block are not in `bytes`.
pub mod Search
pub mod Release
pub mod Usage
pub mod Calls
pub mod Totals
pub mod Memalign
pub mod Aligned
pub mod Alignment
pub mod Cuts
pub mod Rounds
use rv32i_pipeline_fpga.Common.{
  ℕ, zero, suc, Bool, true, false, not, ◌&&◌, ◌||◌, ◌+◌, ◌-◌, ◌*◌, ◌/◌, ◌%◌, ◌^◌, ltb, leb, ◌==◌,
  if◌then◌else◌, Option, none, some, List, [], ◌∷◌, bit_and, update,
}
use rv32i_pipeline_fpga.Runtime.{Memory, ◌>>=◌}
use rv32i_pipeline_fpga.Runtime.Strings.{memcpy, memset}

-- A block of the free list.
pub record Block : Type 0 where
  pub addr : ℕ
  pub size : ℕ

abbrev pub block : ℕ → ℕ → Block
block a n = record { addr = a; size = n }

pub record Heap : Type 0 where
  pub freelist : List Block
  pub malloc_end : ℕ
  pub size : ℕ → ℕ
  pub bytes : Memory

-- `sizeof (struct freelist_entry)`.
abbrev pub entry_size : ℕ
entry_size = 16

-- `M_ALIGN (x, sizeof (size_t))`: `-x & 7`.
unfoldable pub m_align : ℕ → ℕ
m_align x = (2 ^ 64 - x % 2 ^ 64) % 8

-- `REAL_SIZE`, which wraps.
unfoldable pub real_size_of : ℕ → ℕ
real_size_of sz = if ltb sz (entry_size - 8) then entry_size else (sz + 8 + m_align sz) % 2 ^ 64

-- `CAN_ALLOC_P`, with the frame's address as the limit; the subtractions wrap.
unfoldable pub can_alloc : ℕ → ℕ → ℕ → Bool
can_alloc limit malloc_end required =
    leb required ((limit + 2 ^ 64 - malloc_end + 2 ^ 64 - 32) % 2 ^ 64)

-- What the search of `malloc` ends with: the block, its size word, the list and `malloc_end`.
pub record Found : Type 0 where
  pub at : Option ℕ
  pub block_size : ℕ
  pub rest : List Block
  pub new_end : ℕ

-- `! block->next`.
abbrev pub is_last : List Block → Bool
is_last [] = true
is_last (b ∷ bs) = false

-- The loop of `malloc` from a place in the list on, and what follows it.
unfoldable pub malloc_search : ℕ → ℕ → ℕ → List Block → Found
malloc_search real_size limit malloc_end [] =
    if not (can_alloc limit malloc_end real_size)
    then record { at = none; block_size = 0; rest = []; new_end = malloc_end }
    else record {
      at = some malloc_end;
      block_size = real_size;
      rest = [];
      new_end = malloc_end + real_size;
    }
malloc_search real_size limit malloc_end (b ∷ bs) =
    let later = malloc_search real_size limit malloc_end bs in
    if leb real_size b.size
    then (if ltb b.size (real_size + entry_size)
        then record { at = some b.addr; block_size = b.size; rest = bs; new_end = malloc_end }
        else record {
          at = some b.addr;
          block_size = real_size;
          rest = block (b.addr + real_size) (b.size - real_size) ∷ bs;
          new_end = malloc_end;
        })
    else if is_last bs && malloc_end == b.addr + b.size
    then (if not (can_alloc limit malloc_end (real_size - b.size))
        then record { at = none; block_size = 0; rest = b ∷ bs; new_end = malloc_end }
        else record {
          at = some b.addr;
          block_size = real_size;
          rest = [];
          new_end = b.addr + real_size;
        })
    else record later { rest = b ∷ later.rest }

-- The pointer, and the heap after.
unfoldable pub malloc : ℕ → ℕ → Heap → Option ℕ × Heap
malloc limit sz h =
    let f = malloc_search (real_size_of sz) limit h.malloc_end h.freelist in
    elim f.at [
      | none ↦ (none, h)
      | some addr ↦ (
        some (addr + 8),
        record h {
          freelist = f.rest;
          malloc_end = f.new_end;
          size = update h.size addr f.block_size;
        },
      )
    ]

-- The block `t` of the list has grown up to `a`'s end: it takes in the next one if they meet.
unfoldable pub join_next : Block → ℕ → List Block → List Block
join_next t end [] = t ∷ []
join_next t end (n ∷ ns) = if end == n.addr then block t.addr (t.size + n.size) ∷ ns else t ∷ n ∷ ns

-- The loop of `free` for the block of `n` bytes at `a`, from a place in the list on.
unfoldable pub free_insert : ℕ → ℕ → List Block → List Block
free_insert a n [] = block a n ∷ []
free_insert a n (t ∷ ts) =
    let later = free_insert a n ts in
    if t.addr + t.size == a
    then join_next (block t.addr (t.size + n)) (a + n) ts
    else if t.addr == a + n
    then block a (n + t.size) ∷ ts
    else if ltb a t.addr
    then block a n ∷ t ∷ ts
    else t ∷ later

unfoldable pub free : Option ℕ → Heap → Heap
free none h = h
free (some p) h = record h { freelist = free_insert (p - 8) (h.size (p - 8)) h.freelist }

-- `fuel` bounds the rounds of the copy.
unfoldable pub realloc : ℕ → ℕ → Option ℕ → ℕ → Heap → Option (Option ℕ × Heap)
realloc fuel limit none sz h = some (malloc limit sz h)
realloc fuel limit (some p) sz h =
    let real_size = real_size_of sz in
    let old_real_size = h.size (p - 8) in
    let old_size = old_real_size - 8 in
    if ltb old_real_size real_size
    then (let (r, h') = malloc limit sz h in
        elim r [
          | none ↦ some (none, h')
          | some result ↦ do
            bytes ← memcpy fuel result p (if ltb old_size sz then old_size else sz) h'.bytes
            some (some result, free (some p) (record h' { bytes = bytes }))
        ])
    else if leb entry_size (old_real_size - real_size)
    then (let new_block = p - 8 + real_size in
        some (
          some p,
          free (some (new_block + 8)) (record h {
            size = update (update h.size (p - 8) real_size) new_block (old_real_size - real_size);
          }),
        ))
    else some (some p, h)

unfoldable pub calloc : ℕ → ℕ → ℕ → ℕ → Heap → Option (Option ℕ × Heap)
calloc fuel limit n elem_size h =
    let sz = n * elem_size % 2 ^ 64 in
    let (r, h') = malloc limit sz h in
    elim r [
      | none ↦ some (none, h')
      | some result ↦ do
        bytes ← memset fuel result 0 sz h'.bytes
        some (some result, record h' { bytes = bytes })
    ]

unfoldable pub cfree : Option ℕ → Heap → Heap
cfree p h = free p h

unfoldable pub malloc_usable_size : ℕ → Heap → ℕ
malloc_usable_size p h = h.size (p - 8) - 8

-- The sums of the loop of `mallinfo`, and its `keepcost`.
pub record Info : Type 0 where
  pub free_size : ℕ
  pub free_blocks : ℕ
  pub keepcost : ℕ

unfoldable pub mallinfo_loop : ℕ → List Block → Info → Info
mallinfo_loop malloc_end [] i = i
mallinfo_loop malloc_end (b ∷ bs) i = mallinfo_loop malloc_end bs (record {
  free_size = i.free_size + b.size;
  free_blocks = i.free_blocks + 1;
  keepcost = if is_last bs && b.addr + b.size == malloc_end then b.size else i.keepcost;
})

-- The fields of `struct mallinfo` that are set.
pub record Mallinfo : Type 0 where
  pub arena : ℕ
  pub fordblks : ℕ
  pub uordblks : ℕ
  pub ordblks : ℕ
  pub keepcost : ℕ

unfoldable pub mallinfo : ℕ → Heap → Mallinfo
mallinfo malloc_start h =
    let i =
      mallinfo_loop h.malloc_end h.freelist
        (record { free_size = 0; free_blocks = 0; keepcost = 0 }) in
    let total_size = h.malloc_end - malloc_start in
    record {
      arena = total_size;
      fordblks = i.free_size;
      uordblks = total_size - i.free_size;
      ordblks = i.free_blocks;
      keepcost = i.keepcost;
    }
