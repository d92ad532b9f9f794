-- ===== src/Heap/Aligned.antt =====
-- tiny-malloc.c, `memalign`: what a whole call gives and leaves.
use mathlib.Core.Option.{some-injective}
use rv32i_pipeline_fpga.Common.{
  ℕ, suc, ◌+◌, ◌-◌, ◌%◌, ◌^◌, ◌≤◌, ◌<◌, ◌≡◌, ◌≢◌, refl, ap₂, sym, ◌∙◌, none, some, List, [], ◌∷◌,
  arith, leb, not, ◌==◌, Bool-cases, inl, inr, Option, ◌⊎◌, ◌||◌, bit_and, subst, update, update-eq,
}
use rv32i_pipeline_fpga.Heap.{Block, Heap, block, real_size_of}
use rv32i_pipeline_fpga.Runtime.{◌>>=◌}
use rv32i_pipeline_fpga.Heap.Search.{total, found, covers, covers-IsAdditive}
use rv32i_pipeline_fpga.Heap.Usage.{IsHeap, real_size_of_bounds}
use rv32i_pipeline_fpga.Heap.Alignment.{no_power, power_of_test}
use rv32i_pipeline_fpga.Heap.Memalign.{memalign}
use rv32i_pipeline_fpga.Heap.Rounds.{memalign_search_lem}

-- The block that a call gives, by its pointer and its size word.
abbrev pub given : Option ℕ → Heap → List Block
given none h = []
given (some p) h = block (p - 8) (h.size (p - 8)) ∷ []

-- That block is large enough, and aligned; NULL is for what is no power of two, or for less than
-- `room` bytes between the end of the heap and the frame.
abbrev pub IsPlaced : ℕ → ℕ → ℕ → Option ℕ → Heap → Type 0
IsPlaced align sz room none h = ((k : ℕ) → align ≢ 2 ^ k) ⊎ (room < sz + align + 72)
IsPlaced align sz room (some p) h = (sz + 8 ≤ h.size (p - 8)) × (p % align ≡ 0)

-- For a size below 2^63, an alignment up to 2^62, and a heap that the free list and the blocks in use
-- tile and that ends at least 32 bytes below the frame: memalign returns, with one round past the end
-- of the list, and gives a block, or NULL, such that the new free list, the blocks in use and that
-- block tile the heap: each address is in one of them. The block is large enough, and the pointer to
-- it is a multiple of the alignment; NULL means that the alignment is no power of two, or that the
-- heap ended less than the size, the alignment and 72 bytes below the frame.
pub memalign-tiles :
    (fuel limit align sz start : ℕ) (h : Heap) (used : List Block)
    → sz < 2 ^ 63
    → align ≤ 2 ^ 62
    → limit < 2 ^ 64
    → h.malloc_end + 32 ≤ limit
    → IsHeap start h used
    → (r : Option ℕ) × (h' : Heap) × (memalign (suc fuel) limit align sz h ≡ some (r, h'))
      × ((k : ℕ)
          → total (covers k) h'.freelist + total (covers k) (given r h') + total (covers k) used
            ≡ covers k start (h'.malloc_end - start))
      × IsPlaced align sz (limit - h.malloc_end) r h'
unfolding memalign
memalign-tiles fuel limit align sz start h used little fine bound below heap =
    let r = real_size_of sz in
    let (_, _, roomy, tight) = real_size_of_bounds sz little in
    let small : r < 2 ^ 63 + 24 = omega arith in
    elim (Bool-cases (not (bit_and align (align - 1) == 0) || leb align 0)) [
      | inl odd ↦
          rw (odd) (none, h, refl, (λ k. omega (arith, heap.tiles k)), inl (no_power align odd))
      | inr even ↦
          let (exponent, power) = power_of_test align even in
          let (f, e, above, _, is_given) =
            memalign_search_lem (λ a n. n) (λ a n n'. refl) align r limit exponent small fine bound
              power fuel (start - 1) h.malloc_end h.freelist below heap.listed in
          let tiles : (k : ℕ)
              → total (covers k) f.rest + found (covers k) f + total (covers k) used
                ≡ covers k start (f.new_end - start) =
            λ k.
              let (g, e', above', same, _) =
                memalign_search_lem (covers k) (covers-IsAdditive k) align r limit exponent small
                  fine bound power fuel (start - 1) h.malloc_end h.freelist below heap.listed in
              let one : g ≡ f = some-injective g f (sym e' ∙ e) in
              let same' : total (covers k) f.rest + found (covers k) f
                  ≡ total (covers k) h.freelist + covers k h.malloc_end (f.new_end - h.malloc_end) =
                subst
                  (λ x.
                    total (covers k) x.rest + found (covers k) x
                    ≡ total (covers k) h.freelist
                      + covers k h.malloc_end (x.new_end - h.malloc_end))
                  one same in
              ground (arith, same', heap.tiles k, heap.ordered, above) in
          elim is_given [
            | inl (nowhere, short) ↦
                let absent : (k : ℕ) → found (covers k) f ≡ 0 = λ k. rw (found, nowhere) refl in
                rw (even, e, ◌>>=◌, nowhere)
                  (_, _, refl, (λ k. omega (arith, tiles k, absent k)), inr (omega arith))
            | inr (a, at, enough, aligned) ↦
                let here : (k : ℕ) → found (covers k) f ≡ covers k a f.block_size =
                  λ k. rw (found, at) refl in
                let pointer : a + 8 - 8 ≡ a = omega arith in
                let word : update h.size a f.block_size (a + 8 - 8) ≡ f.block_size =
                  update-eq h.size a f.block_size (a + 8 - 8) (sym pointer) in
                rw (even, e, ◌>>=◌, at)
                  (
                    _,
                    _,
                    refl,
                    (λ k.
                        let size : covers k (a + 8 - 8) (update h.size a f.block_size (a + 8 - 8))
                            ≡ covers k a f.block_size =
                          ap₂ (covers k) pointer word in
                        omega (arith, tiles k, here k, size)),
                    (omega (arith, roomy, enough, word), aligned),
                  )
          ]
    ]
