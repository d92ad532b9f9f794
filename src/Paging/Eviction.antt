-- ===== src/Paging/Eviction.antt =====
-- vm.c, `evict`: a page's changes go back to where it came from.
use rv32i_pipeline_fpga.Common.{
  ℕ, zero, suc, ◌*◌, ◌/◌, ◌≤◌, ◌<◌, ◌≡◌, ◌≢◌, ap, sym, ◌∙◌, arith, Option-cases, some, ◌==◌, true,
  false, update, update-eq, update-ne, ◌⊎◌, Bool-cases, inl, inr, refl,
}
use native.Mathlib.Decide.{dec_lt}
use rv32i_pipeline_fpga.Paging.{
  Vm, frame_of, home, max_test_pages, page_size, in_range, pte_a, pte_d, has_flag, evict,
  write_back, append_node, differs,
}

-- `memcmp` returns 0 only for equal bytes.
differs_lem : (a b : ℕ → ℕ) (n i : ℕ) → differs a b n ≡ false → i < n → a i ≡ b i
unfolding differs
differs_lem a b zero i same bound = absurd (omega arith)
differs_lem a b (suc n) i same bound = elim (dec_lt i n) [
  | yes earlier ↦ differs_lem a b n i (ground arith) earlier
  | no later ↦ let e : i ≡ n = omega arith in rw (e) (ground arith)
]

append_node-phys : (node : ℕ) (vm : Vm) → (append_node node vm).phys ≡ vm.phys
unfolding append_node
append_node-phys node vm = elim (Option-cases vm.freelist_tail) [
  | inl e ↦ rw (e) refl
  | inr (tail, e) ↦ rw (e) refl
]

append_node-addr : (node : ℕ) (vm : Vm) (i : ℕ) → (append_node node vm).node_addr i ≡ vm.node_addr i
unfolding append_node
append_node-addr node vm i = elim (Option-cases vm.freelist_tail) [
  | inl e ↦ rw (e) refl
  | inr (tail, e) ↦ rw (e) refl
]

-- The page may be evicted: it is dirty, or it has not changed.
abbrev pub IsEvictable : Vm → ℕ → Type 0
IsEvictable vm page =
    (has_flag (vm.user_llpt page) pte_d ≡ true)
    ⊎ (differs (vm.phys (frame_of (vm.user_llpt page))) (vm.phys (home page)) page_size ≡ false)

module _ (vm : Vm) (page : ℕ) where
  abbrev user : ℕ → ℕ
  user = vm.phys (frame_of (vm.user_llpt page))

  write_back_lem :
      IsEvictable vm page
      → (vm' : Vm) × (write_back page vm ≡ some vm')
        × ((i : ℕ) → i < page_size → vm'.phys (home page) i ≡ user i)
        × ((f : ℕ) → f ≢ home page → vm'.phys f ≡ vm.phys f)
        × (vm'.user_llpt ≡ vm.user_llpt)
        × (vm'.node_addr ≡ vm.node_addr)
  unfolding write_back
  write_back_lem allowed = elim (Bool-cases (differs user (vm.phys (home page)) page_size)) [
    | inl changed ↦
        let dirty : has_flag (vm.user_llpt page) pte_d ≡ true = ground (arith, allowed) in
        (
          record vm { phys = update vm.phys (home page) user },
          rw (changed, dirty) refl,
          λ i bound. ap (λ p. p i) (update-eq vm.phys (home page) user (home page) refl),
          λ f other. update-ne vm.phys (home page) user f (λ e. other (sym e)),
          refl,
          refl,
        )
    | inr same ↦ (
      vm,
      rw (same) refl,
      λ i bound. sym (differs_lem user (vm.phys (home page)) page_size i same bound),
      λ f other. refl,
      refl,
      refl,
    )
  ]

append_node-llpt : (node : ℕ) (vm : Vm) → (append_node node vm).user_llpt ≡ vm.user_llpt
unfolding append_node
append_node-llpt node vm = elim (Option-cases vm.freelist_tail) [
  | inl e ↦ rw (e) refl
  | inr (tail, e) ↦ rw (e) refl
]

-- What `evict` leaves of a page that it takes out.
pub record Evicted (page : ℕ) (vm vm' : Vm) : Type 0 where
  pub back :
      (i : ℕ) → i < page_size → vm'.phys (home page) i ≡ vm.phys (frame_of (vm.user_llpt page)) i
  pub kept : (f : ℕ) → f ≢ home page → vm'.phys f ≡ vm.phys f
  pub cleared : vm'.node_addr page ≡ 0
  pub entries : vm'.user_llpt ≡ vm.user_llpt
  pub others : (q : ℕ) → q ≢ page → vm'.node_addr q ≡ vm.node_addr q

-- To evict a page that was used, and is dirty or unchanged, succeeds: what the user had in it is
-- then where it came from, no other frame changes, and the page's node is taken out of the mapping.
pub evict_page :
    (vm : Vm) (addr page : ℕ)
    → addr / page_size ≡ page
    → page_size ≤ addr
    → addr < max_test_pages * page_size
    → vm.node_addr page ≢ 0
    → has_flag (vm.user_llpt page) pte_a ≡ true
    → IsEvictable vm page
    → (vm' : Vm) × (evict addr vm ≡ some vm') × Evicted page vm vm'
unfolding evict
evict_page vm addr page at low high taken used allowed =
    let inside : in_range addr ≡ true = ground arith in
    let test : (vm.node_addr page == 0) ≡ false = ground arith in
    let (w, done, back, kept, same, nodes) = write_back_lem vm page allowed in
    let cleared : Vm = record w { node_addr = update w.node_addr page 0 } in
    let memory : (append_node page cleared).phys ≡ w.phys = append_node-phys page cleared in
    (
      append_node page cleared,
      rw (inside, at, test, used, done) refl,
      record {
        back = λ i bound. ap (λ m. m (home page) i) memory ∙ back i bound;
        kept = λ f other. ap (λ m. m f) memory ∙ kept f other;
        cleared = append_node-addr page cleared page ∙ update-eq w.node_addr page 0 page refl;
        entries = append_node-llpt page cleared ∙ same;
        others = λ q other.
            append_node-addr page cleared q
            ∙ update-ne w.node_addr page 0 q (λ e. other (sym e))
            ∙ ap (λ m. m q) nodes;
      },
    )

-- A page that is not mapped is left alone.
pub evict_unmapped :
    (vm : Vm) (addr page : ℕ)
    → addr / page_size ≡ page
    → page_size ≤ addr
    → addr < max_test_pages * page_size
    → vm.node_addr page ≡ 0
    → evict addr vm ≡ some vm
unfolding evict
evict_unmapped vm addr page at low high free =
    let inside : in_range addr ≡ true = ground arith in rw (inside, at, free) refl
