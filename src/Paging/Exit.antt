-- ===== src/Paging/Exit.antt =====
-- vm.c, `handle_trap`: the end of a test writes every page back.
use rv32i_pipeline_fpga.Common.{
  ℕ, zero, suc, ◌+◌, ◌-◌, ◌*◌, ◌%◌, ◌^◌, ◌≤◌, ◌<◌, ◌≡◌, ◌≢◌, ap, sym, ap₂, ◌∙◌, arith, Option, some,
  ◌==◌, true, false, Bool-cases, inl, inr, refl,
}
use rv32i_pipeline_fpga.Paging.{
  Vm, frame_of, home, max_test_pages, page_size, pte_a, pte_d, has_flag, evict_pages, differs,
  handle_trap, terminate, Trapframe, cause_user_ecall,
}
use rv32i_pipeline_fpga.Paging.Eviction.{IsEvictable, Evicted, evict_page, evict_unmapped}

-- A mapped page was used, is dirty or unchanged, and has a frame that no page comes from.
pub record IsReady (vm : Vm) (page : ℕ) : Type 0 where
  pub used : has_flag (vm.user_llpt page) pte_a ≡ true
  pub evictable : IsEvictable vm page
  pub away : (other : ℕ) → other < max_test_pages → frame_of (vm.user_llpt page) ≢ home other

-- A page is still ready when another one is evicted.
Evicted-IsReady :
    (page q : ℕ) (vm vm' : Vm)
    → page < max_test_pages
    → page < q
    → Evicted page vm vm'
    → IsReady vm q
    → IsReady vm' q
Evicted-IsReady page q vm vm' bound later e ready =
    let entry = ap (λ t. t q) e.entries in
    let frame : vm'.phys (frame_of (vm'.user_llpt q)) ≡ vm.phys (frame_of (vm.user_llpt q)) =
      ap (λ t. vm'.phys (frame_of t)) entry
      ∙ e.kept (frame_of (vm.user_llpt q)) (ready.away page bound) in
    let origin : vm'.phys (home q) ≡ vm.phys (home q) =
      e.kept (home q) (λ x. absurd (omega arith)) in
    record {
      used = ap (λ t. has_flag t pte_a) entry ∙ ready.used;
      evictable = elim (ready.evictable) [
        | inl dirty ↦ inl (ap (λ t. has_flag t pte_d) entry ∙ dirty)
        | inr same ↦ inr (ap₂ (λ a b. differs a b page_size) frame origin ∙ same)
      ];
      away = λ other small x. ready.away other small (ap frame_of (sym entry) ∙ x);
    }

-- What the eviction of the pages from `i` on leaves.
pub record Written (i : ℕ) (vm vm' : Vm) : Type 0 where
  pub kept : (f : ℕ) → ((page : ℕ) → i ≤ page → f ≢ home page) → vm'.phys f ≡ vm.phys f
  pub back :
      (page k : ℕ)
      → i ≤ page
      → page < max_test_pages
      → vm.node_addr page ≢ 0
      → k < page_size
      → vm'.phys (home page) k ≡ vm.phys (frame_of (vm.user_llpt page)) k

abbrev pub AreReady : ℕ → Vm → Type 0
AreReady i vm =
    (page : ℕ) → i ≤ page → page < max_test_pages → vm.node_addr page ≢ 0 → IsReady vm page

-- A page that is not mapped, before the others.
Written-unmapped :
    (i : ℕ) (vm vm' : Vm) → vm.node_addr i ≡ 0 → Written (i + 1) vm vm' → Written i vm vm'
Written-unmapped i vm vm' free more = record {
  kept = λ f out. more.kept f (λ page l. out page (omega arith));
  back = λ page k l b taken.
      let other : i ≢ page = λ e. taken (ap vm.node_addr (sym e) ∙ free) in
      more.back page k (omega arith) b taken;
}

-- A page that is evicted, before the others.
module _ (i : ℕ) (vm w : Vm) (bound : i < max_test_pages) (e : Evicted i vm w)
    (ready : AreReady i vm) where
  still_mapped : (page : ℕ) → i < page → w.node_addr page ≢ 0 → vm.node_addr page ≢ 0
  still_mapped page l t z = t (e.others page (λ x. absurd (omega arith)) ∙ z)

  rest-AreReady : AreReady (i + 1) w
  rest-AreReady page l b t =
      Evicted-IsReady i page vm w bound (omega arith) e
        (ready page (omega arith) b (still_mapped page (omega arith) t))

  Written-evicted : (vm' : Vm) → Written (i + 1) w vm' → Written i vm vm'
  Written-evicted vm' more = record {
    kept = λ f out. more.kept f (λ page l. out page (omega arith)) ∙ e.kept f (out i (omega arith));
    back = λ page k l b t small. elim (Bool-cases (page == i)) [
      | inl here ↦
          let same : page ≡ i = ground arith in
          ap (λ q. vm'.phys (home q) k) same
          ∙ ap (λ m. m k) (more.kept (home i) (λ q l' x. absurd (omega arith)))
          ∙ e.back k small
          ∙ ap (λ q. vm.phys (frame_of (vm.user_llpt q)) k) (sym same)
      | inr there ↦
          let other : page ≢ i = ground arith in
          more.back page k (omega arith) b (λ z. t (sym (e.others page other) ∙ z)) small
          ∙ ap (λ llpt. w.phys (frame_of (llpt page)) k) e.entries
          ∙ ap (λ m. m k) (e.kept (frame_of (vm.user_llpt page)) ((ready page l b t).away i bound))
    ];
  }

evict_pages_lem :
    (i count : ℕ) (vm : Vm)
    → 1 ≤ i
    → i + count ≡ max_test_pages
    → AreReady i vm
    → (vm' : Vm) × (evict_pages i count vm ≡ some vm') × Written i vm vm'
unfolding evict_pages
evict_pages_lem i zero vm low last ready =
    (vm, refl, record { kept = λ f _. refl; back = λ page k a b. absurd (omega arith) })
evict_pages_lem i (suc count) vm low last ready = elim (Bool-cases (vm.node_addr i == 0)) [
  | inl z ↦
      let free : vm.node_addr i ≡ 0 = ground arith in
      let done =
        evict_unmapped vm (i * page_size) i (omega arith) (omega arith) (omega arith) free in
      let (vm', ran, more) =
        evict_pages_lem (i + 1) count vm (omega arith) (omega arith)
          (λ page l. ready page (omega arith)) in
      (vm', rw (done) ran, Written-unmapped i vm vm' free more)
  | inr n ↦
      let taken : vm.node_addr i ≢ 0 = ground arith in
      let own = ready i (omega arith) (omega arith) taken in
      let (w, done, e) =
        evict_page vm (i * page_size) i (omega arith) (omega arith) (omega arith) taken own.used
          own.evictable in
      let (vm', ran, more) =
        evict_pages_lem (i + 1) count w (omega arith) (omega arith)
          (rest-AreReady i vm w (omega arith) e ready) in
      (vm', rw (done) ran, Written-evicted i vm w (omega arith) e ready vm' more)
]

handle_trap_ecall :
    (pf_filter : ℕ → Option ℕ) (tf : Trapframe) (vm vm' : Vm)
    → tf.cause ≡ cause_user_ecall
    → evict_pages 1 (max_test_pages - 1) vm ≡ some vm'
    → handle_trap pf_filter false tf vm ≡ terminate (tf.a0 % 2 ^ 32) vm'
unfolding handle_trap
handle_trap_ecall pf_filter tf vm vm' call ran = rw (call, ran) refl

-- When a test ends by a call from user mode, and each mapped page was used, is dirty or unchanged
-- and has a frame apart, the handler ends the test with the low 32 bits of `a0`, and what each
-- mapped page held is then where the page came from.
pub handle_trap-exit :
    (pf_filter : ℕ → Option ℕ) (tf : Trapframe) (vm : Vm)
    → tf.cause ≡ cause_user_ecall
    → AreReady 1 vm
    → (vm' : Vm) × (handle_trap pf_filter false tf vm ≡ terminate (tf.a0 % 2 ^ 32) vm')
      × ((page i : ℕ)
          → 1 ≤ page
          → page < max_test_pages
          → vm.node_addr page ≢ 0
          → i < page_size
          → vm'.phys (home page) i ≡ vm.phys (frame_of (vm.user_llpt page)) i)
handle_trap-exit pf_filter tf vm call ready =
    let (vm', ran, written) = evict_pages_lem 1 62 vm (omega arith) refl ready in
    (vm', handle_trap_ecall pf_filter tf vm vm' call ran, written.back)
