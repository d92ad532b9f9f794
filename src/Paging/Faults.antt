-- ===== src/Paging/Faults.antt =====
-- vm.c, `handle_fault`: what the user sees of the pages does not change.
use rv32i_pipeline_fpga.Common.{
  ℕ, ◌*◌, ◌/◌, ◌^◌, ◌≤◌, ◌<◌, ◌≡◌, ◌≢◌, ap, sym, ◌∙◌, arith, Option, Option-cases, some, List, ◌∷◌,
  if◌then◌else◌, ◌==◌, true, false, bit_or, update, update-eq, update-ne, subst, Bool-cases, inl,
  inr, refl,
}
use rv32i_pipeline_fpga.Paging.{
  Vm, frame_of, home, max_test_pages, page_size, page_flags, entry, mapped, map_page, handle_fault,
  in_range, pte_a, pte_d, set_flag, has_flag, cause_store_page_fault,
}
use rv32i_pipeline_fpga.Paging.Entries.{
  frame_of-bit_or, frame_of-entry, open_pte-frame, frame_of-nonzero,
}
use rv32i_pipeline_fpga.Paging.Frames.{
  IsNew, view-home, view-frame, view, IsPaged, Pool-update, AreFrames-update,
}
use rv32i_pipeline_fpga.Common.Bits.{bit_or-le}

-- The encodings that `pf_filter` sets are flags.
module _ (pf_filter : ℕ → Option ℕ)
    (are_flags : (addr flags : ℕ) → pf_filter addr ≡ some flags → flags < 2 ^ 10) where
  page_flags-bound : (page : ℕ) → page_flags pf_filter page < 2 ^ 10
  unfolding page_flags
  page_flags-bound page = elim (Option-cases (pf_filter (page * page_size))) [
    | inl e ↦ rw (page_flags, e) (omega arith)
    | inr (flags, e) ↦ rw (page_flags, e) (are_flags (page * page_size) flags e)
  ]

  module _ (vm : Vm) (frame : ℕ) (frames : List ℕ) (page : ℕ) (bound : page < max_test_pages)
      (missing : vm.user_llpt page ≡ 0) (paged : IsPaged vm (frame ∷ frames)) where
    abbrev node : ℕ
    node = paged.pool.0

    abbrev pte : ℕ
    pte = entry (vm.node_addr node) (page_flags pf_filter page)

    abbrev vm' : Vm
    vm' = mapped pf_filter page node vm

    pte-frame : frame_of pte ≡ frame
    pte-frame =
        let (above, small, _, _, _) = paged.distinct in
        let (_, _, _, holds, _) = paged.pool in
        ap (λ a. frame_of (entry a (page_flags pf_filter page))) holds
        ∙ frame_of-entry frame (page_flags pf_filter page) small (page_flags-bound page)

    pte-nonzero : pte ≢ 0
    pte-nonzero = frame_of-nonzero pte (omega (arith, pte-frame, paged.distinct.0))

    opened-frame : frame_of (bit_or (bit_or pte pte_a) pte_d) ≡ frame
    opened-frame = open_pte-frame pte ∙ pte-frame

    mapped-IsPaged : IsPaged vm' frames
    unfolding mapped
    mapped-IsPaged =
        let (_, _, high, holds, rest) = paged.pool in
        let (_, _, alone, _, all) = paged.distinct in
        record {
          pool = Pool-update vm.node_addr vm.node_next _ frames page _ _ bound rest;
          distinct =
              AreFrames-update vm.user_llpt frames page pte
                (subst (λ f. IsNew f frames) (sym pte-frame) alone) all;
          unmapped = λ q small e. elim (Bool-cases (page == q)) [
            | inl here ↦
                let same : page ≡ q = ground arith in
                absurd (pte-nonzero (sym (update-eq vm.user_llpt page pte q same) ∙ e))
            | inr there ↦
                let other : page ≢ q = ground arith in
                update-ne vm.node_addr page _ q other
                ∙ paged.unmapped q small (sym (update-ne vm.user_llpt page pte q other) ∙ e)
          ];
        }

    update_at : (q : ℕ) → page ≡ q → vm'.user_llpt q ≡ pte
    unfolding mapped
    update_at q same = update-eq vm.user_llpt page pte q same

    update_not_at : (q : ℕ) → page ≢ q → vm'.user_llpt q ≡ vm.user_llpt q
    unfolding mapped
    update_not_at q other = update-ne vm.user_llpt page pte q other

    copied : vm'.phys (frame_of (bit_or (bit_or pte pte_a) pte_d)) ≡ vm.phys (home page)
    unfolding mapped
    copied = update-eq vm.phys _ (vm.phys (home page)) _ refl

    kept : (f : ℕ) → f ≢ frame → vm'.phys f ≡ vm.phys f
    unfolding mapped
    kept f other = update-ne vm.phys _ (vm.phys (home page)) f (λ e. other (sym e ∙ opened-frame))

    mapped-view : (q : ℕ) → q < max_test_pages → view vm' q ≡ view vm q
    mapped-view q small = elim (Bool-cases (page == q)) [
      | inl here ↦
          let same : page ≡ q = ground arith in
          let at : vm'.user_llpt q ≡ pte = update_at q same in
          view-frame vm' q (λ e. pte-nonzero (sym at ∙ e))
          ∙ ap vm'.phys (ap frame_of at ∙ pte-frame ∙ sym opened-frame)
          ∙ copied
          ∙ ap (λ p. vm.phys (home p)) same
          ∙ sym (view-home vm q (ap vm.user_llpt (sym same) ∙ missing))
      | inr there ↦
          let at = update_not_at q (ground arith) in
          let (not_home, not_frame) = paged.distinct.3 q small in
          elim (Bool-cases (vm.user_llpt q == 0)) [
            | inl none_there ↦
                let e : vm.user_llpt q ≡ 0 = ground arith in
                view-home vm' q (at ∙ e) ∙ kept (home q) not_home ∙ sym (view-home vm q e)
            | inr some_there ↦
                let e : vm.user_llpt q ≢ 0 = ground arith in
                view-frame vm' q (λ x. e (sym at ∙ x))
                ∙ ap (λ t. vm'.phys (frame_of t)) at
                ∙ kept (frame_of (vm.user_llpt q)) (not_frame e)
                ∙ sym (view-frame vm q e)
          ]
    ]

  -- A fault at a page that is not mapped succeeds while the pool has a frame: the page gets the
  -- first one, the pool keeps the rest, and what every user page holds is what it was.
  pub handle_fault-maps :
      (vm : Vm) (frame : ℕ) (frames : List ℕ) (addr cause : ℕ)
      → page_size ≤ addr
      → addr < max_test_pages * page_size
      → vm.user_llpt (addr / page_size) ≡ 0
      → IsPaged vm (frame ∷ frames)
      → (vm' : Vm) × (handle_fault pf_filter addr cause vm ≡ some vm')
        × IsPaged vm' frames
        × (frame_of (vm'.user_llpt (addr / page_size)) ≡ frame)
        × ((page : ℕ) → page < max_test_pages → view vm' page ≡ view vm page)
  unfolding handle_fault map_page mapped
  handle_fault-maps vm frame frames addr cause low high missing paged =
      let page = addr / page_size in
      let bound : page < max_test_pages = omega arith in
      let (node, at, _, _, _) = paged.pool in
      let free : vm.node_addr page ≡ 0 = paged.unmapped page bound missing in
      let inside : in_range addr ≡ true = ground arith in
      (
        mapped pf_filter page node vm,
        rw (inside, missing, at, free) refl,
        mapped-IsPaged vm frame frames page bound missing paged,
        ap frame_of (update_at vm frame frames page bound missing paged page refl)
            ∙ pte-frame vm frame frames page bound missing paged,
        mapped-view vm frame frames page bound missing paged,
      )

-- Setting a flag of an entry changes no page.
module _ (vm : Vm) (page flag : ℕ) (low : flag < 2 ^ 10) (present : vm.user_llpt page ≢ 0) where
  abbrev flagged : Vm
  flagged = record vm { user_llpt = update vm.user_llpt page (bit_or (vm.user_llpt page) flag) }

  flagged_entry : (q : ℕ) → page ≡ q → flagged.user_llpt q ≡ bit_or (vm.user_llpt q) flag
  flagged_entry q same =
      update-eq vm.user_llpt page _ q same ∙ ap (λ p. bit_or (vm.user_llpt p) flag) same

  flagged-view : (q : ℕ) → view flagged q ≡ view vm q
  flagged-view q = elim (Bool-cases (page == q)) [
    | inl here ↦
        let same : page ≡ q = ground arith in
        let there : vm.user_llpt q ≢ 0 = λ e. present (ap vm.user_llpt same ∙ e) in
        view-frame flagged q
          (λ e. there (omega (arith, bit_or-le (vm.user_llpt q) flag, flagged_entry q same)))
        ∙ ap vm.phys
            (ap frame_of (flagged_entry q same) ∙ frame_of-bit_or (vm.user_llpt q) flag low)
        ∙ sym (view-frame vm q there)
    | inr there ↦
        let e = update-ne vm.user_llpt page (bit_or (vm.user_llpt page) flag) q (ground arith) in
        ap (λ pte. if pte == 0 then vm.phys (home q) else vm.phys (frame_of pte)) e
  ]

-- The entries that a fault finds a flag to set in.
pub data Allows (pte cause : ℕ) : Type 0 where
  first_use : has_flag pte pte_a ≡ false → Allows pte cause
  first_store :
      has_flag pte pte_a ≡ true
      → has_flag pte pte_d ≡ false
      → cause ≡ cause_store_page_fault
      → Allows pte cause

-- A fault at a page that is mapped succeeds where the entry wants the accessed flag, or the dirty
-- flag for a store: the entry gets the flag, and what every user page holds is what it was.
pub handle_fault-flags :
    (pf_filter : ℕ → Option ℕ) (vm : Vm) (addr cause : ℕ)
    → page_size ≤ addr
    → addr < max_test_pages * page_size
    → vm.user_llpt (addr / page_size) ≢ 0
    → Allows (vm.user_llpt (addr / page_size)) cause
    → (vm' : Vm) × (handle_fault pf_filter addr cause vm ≡ some vm')
      × ((page : ℕ) → view vm' page ≡ view vm page)
unfolding handle_fault set_flag
handle_fault-flags pf_filter vm addr cause low high present (first_use clear) =
    let inside : in_range addr ≡ true = ground arith in
    let test : (vm.user_llpt (addr / page_size) == 0) ≡ false = ground arith in
    (
      flagged vm (addr / page_size) pte_a (omega arith) present,
      rw (inside, test, clear) refl,
      flagged-view vm (addr / page_size) pte_a (omega arith) present,
    )
handle_fault-flags pf_filter vm addr cause low high present (first_store used clear store) =
    let inside : in_range addr ≡ true = ground arith in
    let test : (vm.user_llpt (addr / page_size) == 0) ≡ false = ground arith in
    (
      flagged vm (addr / page_size) pte_d (omega arith) present,
      rw (inside, test, used, clear, store) refl,
      flagged-view vm (addr / page_size) pte_d (omega arith) present,
    )
