-- ===== src/Paging.antt =====
-- riscv-tests/env/v/vm.c and riscv_test.h: the page tables of the virtual-memory environment, its
-- pool of page frames, the handler of page faults and the write-back of a page.
--
-- Physical memory is given by frame and offset. A node of the pool is a number: that of
-- `user_mapping[i]` is `i`, that of `freelist_nodes[i]` is `max_test_pages + i`; `none` is a null
-- pointer. A whole page is compared and copied at once, and the copy of `handle_fault` goes to the
-- frame of the page's entry, whatever the entry permits. `pf_filter` is the tests' own:
-- `pf_filter addr` is the encodings that it sets where it returns other than 0. `none` as a result
-- is an assertion that failed.
pub mod Entries
pub mod Faults
pub mod Frames
pub mod Eviction
pub mod Boot
pub mod Exit
use rv32i_pipeline_fpga.Common.{
  ℕ, zero, suc, Bool, true, false, not, ◌&&◌, ◌||◌, ◌+◌, ◌-◌, ◌*◌, ◌/◌, ◌%◌, ◌^◌, ltb, leb, ◌==◌,
  if◌then◌else◌, Option, none, some, bit_and, bit_or, bit_xor, update,
}
use rv32i_pipeline_fpga.Runtime.{◌>>=◌}

abbrev pub max_test_pages : ℕ
max_test_pages = 63

abbrev pub page_size : ℕ
page_size = 4096

abbrev pub dram_base : ℕ
dram_base = 0x80000000

-- `PTE_V | PTE_U | PTE_R | PTE_W | PTE_X`, `PTE_A` and `PTE_D`.
abbrev pub pte_user : ℕ
pte_user = 0x1f

abbrev pub pte_a : ℕ
pte_a = 0x40

abbrev pub pte_d : ℕ
pte_d = 0x80

abbrev pub cause_store_page_fault : ℕ
cause_store_page_fault = 0xf

pub record Vm : Type 0 where
  pub user_llpt : ℕ → ℕ
  pub node_addr : ℕ → ℕ
  pub node_next : ℕ → Option ℕ
  pub freelist_head : Option ℕ
  pub freelist_tail : Option ℕ
  pub phys : ℕ → ℕ → ℕ

-- The frame that an entry points to.
unfoldable pub frame_of : ℕ → ℕ
frame_of pte = pte / 2 ^ 10 % 2 ^ 44

-- The frame that `uva2kva` reaches for a user page.
abbrev pub home : ℕ → ℕ
home page = dram_base / page_size + page

abbrev pub has_flag : ℕ → ℕ → Bool
has_flag pte flag = not (bit_and pte flag == 0)

abbrev pub same_pointer : Option ℕ → Option ℕ → Bool
same_pointer none none = true
same_pointer none (some j) = false
same_pointer (some i) none = false
same_pointer (some i) (some j) = i == j

-- `memcmp` of `n` bytes, other than 0.
unfoldable pub differs : (ℕ → ℕ) → (ℕ → ℕ) → ℕ → Bool
differs a b zero = false
differs a b (suc n) = differs a b n || not (a n == b n)

abbrev pub in_range : ℕ → Bool
in_range addr = leb page_size addr && ltb addr (max_test_pages * page_size)

-- The node goes to the end of the list.
unfoldable pub append_node : ℕ → Vm → Vm
append_node node vm = elim vm.freelist_tail [
  | none ↦ record vm { freelist_head = some node; freelist_tail = some node }
  | some tail ↦ record vm {
    node_next = update vm.node_next tail (some node);
    freelist_tail = some node;
  }
]

-- The changes are written back to where the page came from.
unfoldable pub write_back : ℕ → Vm → Option Vm
write_back page vm =
    let pte = vm.user_llpt page in
    let user = vm.phys (frame_of pte) in
    if differs user (vm.phys (home page)) page_size
    then (if has_flag pte pte_d
        then some (record vm { phys = update vm.phys (home page) user })
        else none)
    else some vm

unfoldable pub evict : ℕ → Vm → Option Vm
evict addr vm =
    let page = addr / page_size in
    if not (in_range addr)
    then none
    else if vm.node_addr page == 0
    then some vm
    else if not (has_flag (vm.user_llpt page) pte_a)
    then none
    else do
      vm' ← write_back page vm
      some (append_node page (record vm' { node_addr = update vm'.node_addr page 0 }))

-- A fault at a page that is mapped sets the accessed or the dirty bit.
unfoldable pub set_flag : ℕ → ℕ → Vm → Option Vm
set_flag page cause vm =
    let pte = vm.user_llpt page in
    if not (has_flag pte pte_a)
    then some (record vm { user_llpt = update vm.user_llpt page (bit_or pte pte_a) })
    else if not (has_flag pte pte_d) && cause == cause_store_page_fault
    then some (record vm { user_llpt = update vm.user_llpt page (bit_or pte pte_d) })
    else none

-- The entry for a frame.
unfoldable pub entry : ℕ → ℕ → ℕ
entry frame_addr flags = bit_or (frame_addr / 2 ^ 12 * 2 ^ 10) flags

-- The flags of a new entry.
unfoldable pub page_flags : (ℕ → Option ℕ) → ℕ → ℕ
page_flags pf_filter page = elim (pf_filter (page * page_size)) [
  | none ↦ pte_user
  | some filter_encodings ↦ filter_encodings
]

-- The page gets the frame of the node at the head of the list.
unfoldable pub mapped : (ℕ → Option ℕ) → ℕ → ℕ → Vm → Vm
mapped pf_filter page node vm =
    let next = vm.node_next node in
    let frame_addr = vm.node_addr node in
    let new_pte = entry frame_addr (page_flags pf_filter page) in
    let open_pte = bit_or (bit_or new_pte pte_a) pte_d in
    record {
      user_llpt = update vm.user_llpt page new_pte;
      node_addr = update vm.node_addr page frame_addr;
      node_next = update vm.node_next page next;
      freelist_head = next;
      freelist_tail = if same_pointer next vm.freelist_tail then none else vm.freelist_tail;
      phys = update vm.phys (frame_of open_pte) (vm.phys (home page));
    }

unfoldable pub map_page : (ℕ → Option ℕ) → ℕ → ℕ → Vm → Option Vm
map_page pf_filter page node vm =
    if vm.node_addr page == 0 then some (mapped pf_filter page node vm) else none

unfoldable pub handle_fault : (ℕ → Option ℕ) → ℕ → ℕ → Vm → Option Vm
handle_fault pf_filter addr cause vm =
    let page = addr / page_size in
    if not (in_range addr)
    then none
    else if not (vm.user_llpt page == 0)
    then set_flag page cause vm
    else elim vm.freelist_head [ none ↦ none | some node ↦ map_page pf_filter page node vm ]

-- The loop of `handle_trap` that evicts `count` pages, from the page `i` on.
unfoldable pub evict_pages : ℕ → ℕ → Vm → Option Vm
evict_pages i zero vm = some vm
evict_pages i (suc count) vm = do vm' ← evict (i * page_size) vm; evict_pages (i + 1) count vm'

-- What `handle_trap` ends in: back in the user's code, the end of the test with its code, or an
-- assertion that failed.
pub data TrapResult : Type 0 where
  pop_tf : Vm → TrapResult
  terminate : ℕ → Vm → TrapResult
  failed : TrapResult

-- The fields of the trap frame that `handle_trap` reads; `is_fssr` is that the word at `epc` is an
-- `fssr x0`.
pub record Trapframe : Type 0 where
  pub a0 : ℕ
  pub epc : ℕ
  pub badvaddr : ℕ
  pub cause : ℕ
  pub is_fssr : Bool

abbrev pub cause_illegal_instruction : ℕ
cause_illegal_instruction = 0x2

abbrev pub cause_user_ecall : ℕ
cause_user_ecall = 0x8

abbrev pub is_page_fault : ℕ → Bool
is_page_fault cause = cause == 0xc || cause == 0xd || cause == 0xf

-- `filtered` is that the tests' own `trap_filter` returns other than 0.
unfoldable pub handle_trap : (ℕ → Option ℕ) → Bool → Trapframe → Vm → TrapResult
handle_trap pf_filter filtered tf vm =
    if filtered
    then pop_tf vm
    else if tf.cause == cause_user_ecall
    then elim (evict_pages 1 (max_test_pages - 1) vm) [
      | none ↦ failed
      | some vm' ↦ terminate (tf.a0 % 2 ^ 32) vm'
    ]
    else if tf.cause == cause_illegal_instruction
    then (if tf.epc % 4 == 0 && tf.is_fssr then terminate 1 vm else failed)
    else if is_page_fault tf.cause
    then elim (handle_fault pf_filter tf.badvaddr tf.cause vm) [
      | none ↦ failed
      | some vm' ↦ pop_tf vm'
    ]
    else failed

-- `LFSR_NEXT`.
unfoldable pub lfsr_next : ℕ → ℕ
lfsr_next x = bit_or (bit_and (bit_xor x (x / 2)) 1 * 2 ^ 5) (x / 2)

unfoldable pub lfsr63 : ℕ → ℕ
lfsr63 x = let bit = bit_and (bit_xor x (x / 2)) 1 in bit_or (x / 2) (bit * 2 ^ 62)

-- The loop of `vm_boot` that fills the list, from the `i`-th node on, for `count` nodes.
unfoldable pub boot_nodes : ℕ → ℕ → ℕ → Vm → Vm
boot_nodes i random zero vm = vm
boot_nodes i random (suc count) vm = boot_nodes (i + 1) (lfsr_next random) count (record vm {
  node_addr =
      update vm.node_addr (max_test_pages + i) (dram_base + (max_test_pages + random) * page_size);
  node_next = update vm.node_next (max_test_pages + i) (some (max_test_pages + (i + 1)));
})

-- The part of `vm_boot` that sets up the pool; `entropy` is `ENTROPY`.
unfoldable pub boot_pool : ℕ → Vm → Vm
boot_pool entropy vm =
    let filled = boot_nodes 0 (1 + entropy % max_test_pages) max_test_pages (record vm {
      freelist_head = some max_test_pages;
      freelist_tail = some (max_test_pages + (max_test_pages - 1));
    }) in
    record filled {
      node_next = update filled.node_next (max_test_pages + (max_test_pages - 1)) none;
    }
