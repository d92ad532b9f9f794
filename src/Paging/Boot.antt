-- ===== src/Paging/Boot.antt =====
-- vm.c, `vm_boot`: the pool that it sets up, for every value of `ENTROPY`.
use rv32i_pipeline_fpga.Common.{
  ℕ, zero, suc, ◌+◌, ◌-◌, ◌*◌, ◌/◌, ◌%◌, ◌≤◌, ◌<◌, ◌≡◌, ◌≢◌, ap, sym, ◌∙◌, arith, none, some, Bool,
  ◌&&◌, ◌||◌, ltb, ◌==◌, not, true, false, update, update-eq, update-ne, refl, List, [], ◌∷◌, subst,
  table_passes, table_passes-at,
}
use rv32i_pipeline_fpga.Paging.{
  Vm, max_test_pages, page_size, dram_base, lfsr_next, boot_nodes, boot_pool,
}
use rv32i_pipeline_fpga.Paging.Frames.{Pool, IsNew, AreFrames, IsPaged}

-- The frames of `count` nodes, from the value `random` on.
unfoldable pub boot_frames : ℕ → ℕ → List ℕ
boot_frames random zero = []
boot_frames random (suc count) =
    (dram_base / page_size + max_test_pages + random) ∷ boot_frames (lfsr_next random) count

-- `count` values of the register, from `x` on, none of which is `r`.
avoids : ℕ → ℕ → ℕ → Bool
avoids r x zero = true
avoids r x (suc count) = not (r == x) && avoids r (lfsr_next x) count

passes : ℕ → Bool
unfolding avoids lfsr_next
passes r = r == 0 || (ltb 0 (lfsr_next r) && ltb (lfsr_next r) 64 && avoids r (lfsr_next r) 62)

-- The register takes no value twice in 63 steps.
lfsr_period : table_passes passes 64 ≡ true
unfolding table_passes passes avoids lfsr_next
lfsr_period = refl

-- What the table holds of a value.
conjuncts :
    (zero_test : Bool) (low high new : Bool)
    → (zero_test || (low && high && new)) ≡ true
    → zero_test ≡ false
    → (low ≡ true) × (high ≡ true) × (new ≡ true)
conjuncts false true true true e z = (refl, refl, refl)
conjuncts false true true false e z = absurd (ground arith)
conjuncts false true false new e z = absurd (ground arith)
conjuncts false false high new e z = absurd (ground arith)
conjuncts true low high new e z = absurd (ground arith)

positive : (r : ℕ) → 0 < r → (r == 0) ≡ false
positive r low = ground arith

ltb_lem : (a b : ℕ) → ltb a b ≡ true → a < b
ltb_lem a b e = ground arith

period_at :
    (r : ℕ)
    → 0 < r
    → r < 64
    → (ltb 0 (lfsr_next r) ≡ true)
      × (ltb (lfsr_next r) 64 ≡ true)
      × (avoids r (lfsr_next r) 62 ≡ true)
unfolding passes
period_at r low high =
    conjuncts (r == 0) (ltb 0 (lfsr_next r)) (ltb (lfsr_next r) 64) (avoids r (lfsr_next r) 62)
      (table_passes-at passes 64 r high lfsr_period) (positive r low)

avoids-IsNew :
    (r x count most : ℕ)
    → count ≤ most
    → avoids r x most ≡ true
    → IsNew (dram_base / page_size + max_test_pages + r) (boot_frames x count)
unfolding avoids boot_frames
avoids-IsNew r x zero most bound ok = omega arith
avoids-IsNew r x (suc count) zero bound ok = absurd (omega arith)
avoids-IsNew r x (suc count) (suc most) bound ok =
    (ground arith, avoids-IsNew r (lfsr_next x) count most (omega arith) (ground arith))

module _ (llpt : ℕ → ℕ) (unmapped : (page : ℕ) → page < max_test_pages → llpt page ≡ 0) where
  boot_frames-AreFrames :
      (random count : ℕ)
      → 0 < random
      → random < 64
      → count ≤ 63
      → AreFrames llpt (boot_frames random count)
  unfolding boot_frames
  boot_frames-AreFrames random zero low high most = omega arith
  boot_frames-AreFrames random (suc count) low high most =
      let (above, below, new) = period_at random low high in
      (
        omega arith,
        omega arith,
        avoids-IsNew random (lfsr_next random) count 62 (omega arith) new,
        λ page bound. (omega arith, λ present. absurd (present (unmapped page bound))),
        boot_frames-AreFrames (lfsr_next random) count (ltb_lem 0 (lfsr_next random) above)
            (ltb_lem (lfsr_next random) 64 below) (omega arith),
      )

-- The state after the `i`-th round, and before the first.
abbrev with_node : ℕ → ℕ → Vm → Vm
with_node i random vm = record vm {
  node_addr =
      update vm.node_addr (max_test_pages + i) (dram_base + (max_test_pages + random) * page_size);
  node_next = update vm.node_next (max_test_pages + i) (some (max_test_pages + (i + 1)));
}

abbrev with_list : Vm → Vm
with_list vm = record vm {
  freelist_head = some max_test_pages;
  freelist_tail = some (max_test_pages + (max_test_pages - 1));
}

boot_nodes-keeps :
    (i random count j : ℕ) (vm : Vm)
    → j < max_test_pages + i
    → ((boot_nodes i random count vm).node_addr j ≡ vm.node_addr j)
      × ((boot_nodes i random count vm).node_next j ≡ vm.node_next j)
unfolding boot_nodes
boot_nodes-keeps i random zero j vm bound = (refl, refl)
boot_nodes-keeps i random (suc count) j vm bound =
    let other : max_test_pages + i ≢ j = λ e. absurd (omega arith) in
    let (addr, next) = boot_nodes-keeps (i + 1) (lfsr_next random) count j _ (omega arith) in
    (
      addr ∙ update-ne vm.node_addr (max_test_pages + i) _ j other,
      next ∙ update-ne vm.node_next (max_test_pages + i) _ j other,
    )

-- What the loop does not change.
boot_nodes-rest :
    (i random count : ℕ) (vm : Vm)
    → ((boot_nodes i random count vm).user_llpt ≡ vm.user_llpt)
      × ((boot_nodes i random count vm).freelist_head ≡ vm.freelist_head)
      × ((boot_nodes i random count vm).phys ≡ vm.phys)
unfolding boot_nodes
boot_nodes-rest i random zero vm = (refl, refl, refl)
boot_nodes-rest i random (suc count) vm = boot_nodes-rest (i + 1) (lfsr_next random) count _

abbrev last_node : ℕ
last_node = max_test_pages + (max_test_pages - 1)

boot_nodes-Pool :
    (i random count : ℕ) (vm : Vm)
    → i + suc count ≡ max_test_pages
    → (let filled = boot_nodes i random (suc count) vm in
        Pool filled.node_addr
          (update filled.node_next last_node none)
          (some (max_test_pages + i))
          (boot_frames random (suc count)))
unfolding boot_nodes boot_frames
boot_nodes-Pool i random zero vm last = (
  max_test_pages + i,
  refl,
  omega arith,
  update-eq vm.node_addr (max_test_pages + i) _ (max_test_pages + i) refl ∙ omega arith,
  update-eq (with_node i random vm).node_next last_node none (max_test_pages + i) (omega arith),
)
boot_nodes-Pool i random (suc count) vm last =
    let v = with_node i random vm in
    let more = boot_nodes (i + 1) (lfsr_next random) (suc count) v in
    let (addr, next) =
      boot_nodes-keeps (i + 1) (lfsr_next random) (suc count) (max_test_pages + i) v
        (omega arith) in
    let other : last_node ≢ max_test_pages + i = λ e. absurd (omega arith) in
    let following : update more.node_next last_node none (max_test_pages + i)
        ≡ some (max_test_pages + (i + 1)) =
      update-ne more.node_next last_node none (max_test_pages + i) other
      ∙ next
      ∙ update-eq vm.node_next (max_test_pages + i) _ (max_test_pages + i) refl in
    (
      max_test_pages + i,
      refl,
      omega arith,
      addr ∙ update-eq vm.node_addr (max_test_pages + i) _ (max_test_pages + i) refl ∙ omega arith,
      subst
          (λ p.
            Pool more.node_addr (update more.node_next last_node none) p
              (boot_frames (lfsr_next random) (suc count)))
          (sym following) (boot_nodes-Pool (i + 1) (lfsr_next random) count v (omega arith)),
    )

-- From cleared page tables, and whatever `ENTROPY` is, the pool that is set up has 63 frames: no two
-- are the same, and none is one that a user page comes from.
pub boot_pool-IsPaged :
    (entropy : ℕ) (vm : Vm)
    → ((page : ℕ) → page < max_test_pages → vm.user_llpt page ≡ 0)
    → ((page : ℕ) → page < max_test_pages → vm.node_addr page ≡ 0)
    → IsPaged (boot_pool entropy vm) (boot_frames (1 + entropy % max_test_pages) max_test_pages)
unfolding boot_pool
boot_pool-IsPaged entropy vm unmapped no_node =
    let random = 1 + entropy % max_test_pages in
    let started = with_list vm in
    let filled = boot_nodes 0 random max_test_pages started in
    let (llpt, head, _) = boot_nodes-rest 0 random max_test_pages started in
    let cleared : (page : ℕ) → page < max_test_pages → filled.user_llpt page ≡ 0 =
      λ page bound. ap (λ t. t page) llpt ∙ unmapped page bound in
    record {
      pool =
          subst
            (λ p.
              Pool filled.node_addr (update filled.node_next last_node none) p
                (boot_frames random max_test_pages))
            (sym head) (boot_nodes-Pool 0 random 62 started refl);
      distinct =
          boot_frames-AreFrames filled.user_llpt cleared random max_test_pages (omega arith)
            (omega arith) (omega arith);
      unmapped = λ page bound _.
          (boot_nodes-keeps 0 random max_test_pages page started (omega arith)).0
          ∙ no_node page bound;
    }
