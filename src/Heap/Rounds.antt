-- ===== src/Heap/Rounds.antt =====
-- tiny-malloc.c, `memalign`: the rounds of the loop, on the free list and past its end.
use rv32i_pipeline_fpga.Common.{
  ℕ, suc, true, ◌+◌, ◌-◌, ◌%◌, ◌^◌, ◌≤◌, ◌<◌, ◌≡◌, refl, ap, ap₂, sym, ◌∙◌, none, some, List, [],
  ◌∷◌, arith, leb, ltb, ◌==◌, ◌&&◌, false, Bool-cases, eq_self, inl, inr, ◌⊎◌, subst,
}
use rv32i_pipeline_fpga.Heap.{Block, block, Found, can_alloc, is_last}
use rv32i_pipeline_fpga.Heap.Search.{total, found, IsAdditive, IsFreeList, IsFreeList-bound}
use rv32i_pipeline_fpga.Heap.Alignment.{before_size_of-le, before_size_of-aligned, m_align_to-le}
use rv32i_pipeline_fpga.Heap.Cuts.{nothing_at, cut, place_block-total}
use rv32i_pipeline_fpga.Heap.Memalign.{
  size_t, size_t_sub, m_align_to, before_size_of, place_block, memalign_block, memalign_fresh,
  memalign_search,
}

-- The pointer to the block at `addr` is aligned.
abbrev pub AlignedAt : ℕ → ℕ → Type 0
AlignedAt align addr = (addr + 8) % align ≡ 0

-- A block that is found has the size that is wanted, and its pointer is aligned; none is found only
-- if the room above `top` is too small.
abbrev pub IsGiven : ℕ → ℕ → ℕ → ℕ → Found → Type 0
IsGiven align r limit top f =
    ((f.at ≡ none) × (limit < top + align + r + 48))
    ⊎ ((a : ℕ) × (f.at ≡ some a) × (r ≤ f.block_size) × AlignedAt align a)

raise :
    (align r limit top top' : ℕ) (f : Found)
    → top ≤ top'
    → IsGiven align r limit top f
    → IsGiven align r limit top' f
raise align r limit top top' f up (inl (nowhere, short)) = inl (nowhere, omega arith)
raise align r limit top top' f up (inr found_it) = inr found_it

module _ (m : ℕ → ℕ → ℕ) (additive : IsAdditive m) where
  module _ (align r limit exponent : ℕ) (small : r < 2 ^ 63 + 24) (fine : align ≤ 2 ^ 62)
      (bound : limit < 2 ^ 64) (power : align ≡ 2 ^ exponent) where
    pointer-AlignedAt :
        (addr : ℕ) → addr + 32 < 2 ^ 64 → AlignedAt align (addr + before_size_of align addr)
    pointer-AlignedAt addr inside =
        let high : 2 ^ exponent ≤ 2 ^ 62 = omega (arith, power) in
        subst (λ a. (addr + before_size_of a addr + 8) % a ≡ 0) (sym power)
          (before_size_of-aligned exponent addr high inside)

    -- What a round leaves measures what the block and the rest of the list did, with what the heap
    -- grew by.
    abbrev Kept : ℕ → ℕ → ℕ → List Block → Found → Type 0
    Kept end top before_it bs f =
        (end ≤ f.new_end)
        × (total m f.rest + found m f ≡ before_it + total m bs + m end (f.new_end - end))
        × IsGiven align r limit top f

    room : (end n : ℕ) → end + 32 ≤ limit → can_alloc limit end n ≡ true → end + n + 32 ≤ limit
    unfolding can_alloc
    room end n below ok =
        let gap : (limit + 2 ^ 64 - end + 2 ^ 64 - 32) % 2 ^ 64 ≡ limit - end - 32 = omega arith in
        ground (arith, gap)

    no_room : (end n : ℕ) → end + 32 ≤ limit → can_alloc limit end n ≡ false → limit < end + n + 32
    unfolding can_alloc
    no_room end n below full =
        let gap : (limit + 2 ^ 64 - end + 2 ^ 64 - 32) % 2 ^ 64 ≡ limit - end - 32 = omega arith in
        ground (arith, gap)

    no_growth : (end : ℕ) → m end (end - end) ≡ 0
    no_growth end = ap (m end) (omega arith) ∙ nothing_at m additive end

    placed-Kept :
        (end before : ℕ) (b : Block) (bs : List Block)
        → b.addr + b.size < 2 ^ 64
        → r + before ≤ b.size
        → AlignedAt align (b.addr + before)
        → Kept end b.addr (m b.addr b.size) bs (place_block r before b bs end)
    placed-Kept end before b bs inside fits even =
        let (same, at, here, enough) =
          place_block-total m additive r before b bs end (omega arith) inside fits in
        let grown : m end ((place_block r before b bs end).new_end - end) ≡ 0 =
          ap (λ x. m end (x - end)) at ∙ no_growth end in
        (omega (arith, at), omega (arith, same, grown), inr (b.addr + before, here, enough, even))

    grown-Kept :
        (end before : ℕ) (b : Block) (bs : List Block)
        → b.addr + before + r < 2 ^ 64
        → b.size < r + before
        → end ≡ b.addr + b.size
        → AlignedAt align (b.addr + before)
        → Kept end b.addr
            (m b.addr b.size)
            bs
            (place_block r before (block b.addr (before + r)) bs (b.addr + before + r))
    grown-Kept end before b bs inside low meets even =
        let (same, at, here, enough) =
          place_block-total m additive r before (block b.addr (before + r)) bs (b.addr + before + r)
            (omega arith) (omega arith) (omega arith) in
        let new =
          (place_block r before (block b.addr (before + r)) bs (b.addr + before + r)).new_end in
        let more : m end (new - end) ≡ m (b.addr + b.size) (before + r - b.size) =
          ap₂ m meets (omega (arith, at)) in
        (
          omega (arith, at),
          omega (arith, same, more, cut m additive b.addr (before + r) b.size (omega arith)),
          inr (b.addr + before, here, enough, even),
        )

    block_cases :
        (end : ℕ) (b : Block) (bs : List Block)
        → end + 32 ≤ limit
        → b.addr + b.size ≤ end
        → ((memalign_block align r limit end b bs ≡ none)
            × ((is_last bs
                  && ltb b.size (r + before_size_of align b.addr)
                  && end == b.addr + b.size)
                ≡ false)
            × (leb (r + before_size_of align b.addr) b.size ≡ false))
          ⊎ ((f : Found) × (memalign_block align r limit end b bs ≡ some f)
              × Kept end b.addr (m b.addr b.size) bs f)
    unfolding memalign_block
    block_cases end b bs below inside =
        let before = before_size_of align b.addr in
        let little : before ≤ 16 + align = before_size_of-le align b.addr fine in
        let even : AlignedAt align (b.addr + before) = pointer-AlignedAt b.addr (omega arith) in
        let wanted : size_t (r + before) ≡ r + before = omega arith in
        let wanted' : size_t (before + r) ≡ before + r = omega arith in
        let stop : size_t (b.addr + b.size) ≡ b.addr + b.size = omega arith in
        elim (Bool-cases (is_last bs && ltb b.size (r + before) && end == b.addr + b.size)) [
          | inl last ↦
              let low : b.size < r + before = ground (arith, last) in
              let meets : end ≡ b.addr + b.size = ground (arith, last) in
              let need : size_t_sub (before + r) b.size ≡ before + r - b.size = omega arith in
              elim (Bool-cases (can_alloc limit end (before + r - b.size))) [
                | inl ok ↦
                    let fits : end + (before + r - b.size) + 32 ≤ limit = room end _ below ok in
                    let second : size_t (b.addr + before) ≡ b.addr + before = omega arith in
                    let third : size_t (b.addr + before + r) ≡ b.addr + before + r = omega arith in
                    rw (wanted, wanted', stop, last, need, ok, second, third)
                      (inr (_, refl, grown-Kept end before b bs (omega arith) low meets even))
                | inr full ↦
                    let short = no_room end (before + r - b.size) below full in
                    rw (wanted, wanted', stop, last, need, full)
                      (inr (
                        _,
                        refl,
                        (omega arith, omega (arith, no_growth end), inl (refl, omega arith)),
                      ))
              ]
          | inr inner ↦ elim (Bool-cases (leb (r + before) b.size)) [
            | inl fits ↦
                rw (wanted, stop, inner, fits)
                  (inr (_, refl, placed-Kept end before b bs (omega arith) (ground arith) even))
            | inr short ↦ rw (wanted, stop, inner, short) (inl (refl, refl, refl))
          ]
        ]

    -- The block that is added past the end of the list will do, or can grow.
    fresh_lem :
        (fuel end : ℕ)
        → end + 32 ≤ limit
        → (f : Found) × (memalign_fresh (suc fuel) align r limit end ≡ some f) × Kept end end 0 [] f
    unfolding memalign_fresh
    fresh_lem fuel end below =
        let old = r + m_align_to (end + 8) align in
        let mask : m_align_to (end + 8) align ≤ align = m_align_to-le (end + 8) align in
        let whole : size_t old ≡ old = omega arith in
        elim (Bool-cases (can_alloc limit end old)) [
          | inr full ↦
              let short = no_room end old below full in
              rw (whole, full)
                (_, refl, (omega arith, omega (arith, no_growth end), inl (refl, omega arith)))
          | inl ok ↦
              let fits : end + old + 32 ≤ limit = room end old below ok in
              let stop : size_t (end + old) ≡ end + old = omega arith in
              elim (block_cases (end + old) (block end old) [] fits (omega arith)) [
                | inl (_, no_last, no_fit) ↦
                    absurd (ground (arith, no_last, no_fit, eq_self (end + old)))
                | inr (f, e, (above, same, given_f)) ↦
                    let rest : m (end + old) (f.new_end - end - old)
                        ≡ m (end + old) (f.new_end - (end + old)) =
                      ap (m (end + old)) (omega arith) in
                    rw (whole, ok, stop, e)
                      (
                        f,
                        refl,
                        (
                          omega (arith, above),
                          omega (
                            arith,
                            same,
                            rest,
                            cut m additive end (f.new_end - end) old (omega (arith, above)),
                          ),
                          given_f,
                        ),
                      )
              ]
        ]

    -- The loop ends after one round past the end of the list, and the block that it finds and the
    -- list that it leaves measure what the list did, with what the heap grew by.
    pub memalign_search_lem :
        (fuel low end : ℕ) (bs : List Block)
        → end + 32 ≤ limit
        → IsFreeList low end bs
        → (f : Found) × (memalign_search (suc fuel) align r limit end bs ≡ some f)
          × (end ≤ f.new_end)
          × (total m f.rest + found m f ≡ total m bs + m end (f.new_end - end))
          × IsGiven align r limit end f
    unfolding memalign_search
    memalign_search_lem fuel low end [] below listed =
        let (f, e, (above, same, given_f)) = fresh_lem fuel end below in
        (f, e, above, omega (arith, same), given_f)
    memalign_search_lem fuel low end (b ∷ bs) below (_, _, _, _, listed) =
        let (g, e, above, same, given_g) =
          memalign_search_lem fuel (b.addr + b.size) end bs below listed in
        elim (block_cases end b bs below (IsFreeList-bound (b.addr + b.size) end bs listed)) [
          | inl (next, _, _) ↦
              rw (memalign_search, next, e)
                (record g { rest = b ∷ g.rest }, refl, above, omega (arith, same), given_g)
          | inr (f, here, (above', same', given_f)) ↦
              let inside : b.addr ≤ end =
                omega (arith, IsFreeList-bound (b.addr + b.size) end bs listed) in
              rw (memalign_search, here)
                (
                  f,
                  refl,
                  above',
                  omega (arith, same'),
                  raise align r limit b.addr end f inside given_f,
                )
        ]
