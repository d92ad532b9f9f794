-- ===== src/Bench/Towers/Steps.antt =====
-- towers_main.c: a push, a pop and the move of one disc, by what the lists hold.
use rv32i_pipeline_fpga.Common.{
  ℕ, ◌+◌, ◌-◌, ◌%◌, ◌^◌, ◌<◌, ◌≡◌, ◌≢◌, refl, sym, ap, subst, fun_ext, Option, some, List, ◌∷◌,
  length, update, update-ne, arith,
}
use rv32i_pipeline_fpga.Bench.Towers.{Store, free_list, list_push, list_pop, towers_move}
use rv32i_pipeline_fpga.Bench.Towers.Chains.{Chain, Holds, put_place, transfer}

-- The contents after the head of the list `p` went to the list `q` as `x`.
abbrev pub shift : ℕ → ℕ → List ℕ → ℕ → (ℕ → List ℕ) → ℕ → List ℕ
shift p q vs x content = update (update content p vs) q (x ∷ content q)

-- What a step leaves: a store that holds `content`, with the counters of `s` and `moves` more.
abbrev pub Leaves : Option Store → Store → ℕ → (ℕ → List ℕ) → Type 0
Leaves r s moves content =
    (t : Store) × (r ≡ some t)
    × Holds t content
    × (t.num_discs ≡ s.num_discs)
    × (t.num_moves ≡ s.num_moves + moves)

module _ (s : Store) (content : ℕ → List ℕ) (list v x : ℕ) (vs : List ℕ) (h : Holds s content)
    (peg : 0 < list) where
  abbrev head_of : (q : ℕ) → content q ≡ v ∷ vs → Chain h.places s.val s.next q (s.head q) (v ∷ vs)
  head_of q e = subst (Chain h.places s.val s.next q (s.head q)) e (h.chains q)

  abbrev pushed : ℕ → Store
  pushed i = record s {
    head = update (update s.head free_list (s.next i)) list (some i);
    next = update s.next i (update s.head free_list (s.next i) list);
    val = update s.val i x;
    size = update s.size list ((s.size list + 1) % 2 ^ 32);
  }

  pushed-Holds :
      (i : ℕ)
      → s.head free_list ≡ some i
      → content free_list ≡ v ∷ vs
      → Holds (pushed i) (shift free_list list vs x content)
  pushed-Holds i at e =
      let differ : free_list ≢ list = λ d. omega arith in
      record {
        places = put_place i list (length (content list)) h.places;
        chains = λ r.
            subst
              (λ t.
                Chain (put_place i list (length (content list)) h.places) (update s.val i x)
                  (update s.next i t) r
                  (update (update s.head free_list (s.next i)) list (some i) r)
                  (shift free_list list vs x content r))
              (sym (update-ne s.head free_list (s.next i) list differ))
              (transfer h.places s.val s.next s.head content free_list list x v vs i differ h.chains
                at e r);
        sizes = λ r pos. ground (arith, h.sizes r pos);
      }

  push-pushed : (i : ℕ) → s.head free_list ≡ some i → list_push list x s ≡ some (pushed i)
  unfolding list_push
  push-pushed i at = rw (at, list_push) refl

  -- A push takes a node of a free list that has one.
  pub push-Leaves :
      content free_list ≡ v ∷ vs
      → Leaves (list_push list x s) s 0 (shift free_list list vs x content)
  push-Leaves e =
      let c = head_of free_list e in
      (pushed c.0, push-pushed c.0 c.1, pushed-Holds c.0 c.1 e, refl, omega arith)

  abbrev popped : ℕ → Store
  popped i = record s {
    head = update (update s.head list (s.next i)) free_list (some i);
    next = update s.next i (update s.head list (s.next i) free_list);
    size = update s.size list ((s.size list + 2 ^ 32 - 1) % 2 ^ 32);
  }

  popped-Holds :
      (i : ℕ)
      → s.head list ≡ some i
      → s.val i ≡ v
      → content list ≡ v ∷ vs
      → Holds (popped i) (shift list free_list vs v content)
  popped-Holds i at is e =
      let differ : list ≢ free_list = λ d. omega arith in
      let kept : update s.val i v ≡ s.val = fun_ext (λ j. ground (arith, is)) in
      record {
        places = put_place i free_list (length (content free_list)) h.places;
        chains = λ r.
            subst
              (λ t.
                Chain (put_place i free_list (length (content free_list)) h.places) s.val
                  (update s.next i t) r
                  (update (update s.head list (s.next i)) free_list (some i) r)
                  (shift list free_list vs v content r))
              (sym (update-ne s.head list (s.next i) free_list differ))
              (subst
                (λ t.
                  Chain (put_place i free_list (length (content free_list)) h.places) t
                    (update s.next i (s.head free_list)) r
                    (update (update s.head list (s.next i)) free_list (some i) r)
                    (shift list free_list vs v content r))
                kept
                (transfer h.places s.val s.next s.head content list free_list v v vs i differ
                  h.chains at e r));
        sizes = λ r pos. ground (arith, h.sizes r pos, ap length e);
      }

  pop-popped : (i : ℕ) → s.head list ≡ some i → s.val i ≡ v → list_pop list s ≡ some (v, popped i)
  unfolding list_pop
  pop-popped i at is = rw (at, is, list_pop) refl

  -- A pop of a list that is not empty gives its first value.
  pub pop-Leaves :
      content list ≡ v ∷ vs
      → (t : Store) × (list_pop list s ≡ some (v, t))
        × Holds t (shift list free_list vs v content)
        × (t.num_discs ≡ s.num_discs)
        × (t.num_moves ≡ s.num_moves)
  pop-Leaves e =
      let c = head_of list e in
      (popped c.0, pop-popped c.0 c.1 c.4, popped-Holds c.0 c.1 c.4 e, refl, refl)

-- The counters are no part of the lists.
pub Holds-counters :
    (s : Store) (content : ℕ → List ℕ) (n m : ℕ)
    → Holds s content
    → Holds (record s { num_discs = n; num_moves = m }) content
Holds-counters s content n m h = record { places = h.places; chains = h.chains; sizes = h.sizes }

-- A pop that is followed by a push gives the free node back.
shift-shift :
    (content : ℕ → List ℕ) (start dest v : ℕ) (vs : List ℕ)
    → 0 < start
    → 0 < dest
    → start ≢ dest
    → shift free_list dest (content free_list) v (shift start free_list vs v content)
      ≡ shift start dest vs v content
shift-shift content start dest v vs hs hd ne = fun_ext (λ r. ground arith)

-- A move takes the head of one peg to another, as long as the counter does not overflow.
pub move-Leaves :
    (s : Store) (content : ℕ → List ℕ) (start dest v : ℕ) (vs : List ℕ)
    → Holds s content
    → 0 < start
    → 0 < dest
    → start ≢ dest
    → content start ≡ v ∷ vs
    → s.num_moves + 1 < 2 ^ 31
    → Leaves (towers_move start dest s) s 1 (shift start dest vs v content)
unfolding towers_move
move-Leaves s content start dest v vs h hs hd ne e few =
    let (t, pop_eq, pop_holds, discs, moves) = pop-Leaves s content start v v vs h hs e in
    let (u, push_eq, push_holds, discs', moves') =
      push-Leaves t (shift start free_list vs v content) dest v v (content free_list) pop_holds hd
        refl in
    (
      record u { num_moves = (u.num_moves + 1) % 2 ^ 32 },
      rw (pop_eq, push_eq) refl,
      subst (Holds (record u { num_moves = (u.num_moves + 1) % 2 ^ 32 }))
          (shift-shift content start dest v vs hs hd ne)
          (Holds-counters u _ u.num_discs ((u.num_moves + 1) % 2 ^ 32) push_holds),
      omega arith,
      omega arith,
    )
