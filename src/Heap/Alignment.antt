-- ===== src/Heap/Alignment.antt =====
-- tiny-malloc.c, `M_ALIGN`: what it adds to an address, and where the aligned block begins.
use native.Mathlib.Nat.{add-mul-mod_self_right, mul-mod_left, pow-le-pow_right}
use rv32i_pipeline_fpga.Common.{
  ℕ, ◌+◌, ◌-◌, ◌*◌, ◌/◌, ◌%◌, ◌^◌, ◌≤◌, ◌<◌, ◌≡◌, ◌≢◌, not, ◌||◌, leb, true, false, ap, sym, ◌∙◌,
  arith, ltb, ◌==◌, Bool-cases, inl, inr, bit_and,
}
use native.Mathlib.Nat.{mod-add-div', mod_self, one-le-pow}
use rv32i_pipeline_fpga.Common.Bits.{bit_and-le, bit_and_low, pow_add, bit_and_pred}
use rv32i_pipeline_fpga.Heap.Memalign.{m_align_to, before_size_of}

m_align_to_of_power :
    (x k : ℕ) → 0 < x → x < 2 ^ 64 → k ≤ 64 → (x + m_align_to x (2 ^ k)) % 2 ^ k ≡ 0
unfolding m_align_to
m_align_to_of_power x k pos bound fine =
    let y = (2 ^ 64 - x % 2 ^ 64) % 2 ^ 64 in
    let whole : x + y ≡ 2 ^ 64 = omega arith in
    let parts : x + y % 2 ^ k + y / 2 ^ k * 2 ^ k ≡ 2 ^ 64 =
      omega (arith, mod-add-div' y (2 ^ k)) in
    let exponents : 64 ≡ 64 - k + k = omega arith in
    ap (λ t. (x + t) % 2 ^ k) (bit_and_low k y)
    ∙ sym (add-mul-mod_self_right (x + y % 2 ^ k) (y / 2 ^ k) (2 ^ k))
    ∙ ap (λ t. t % 2 ^ k) (parts ∙ ap (λ n. 2 ^ n) exponents ∙ pow_add (64 - k) k)
    ∙ mul-mod_left (2 ^ (64 - k)) (2 ^ k)

pub m_align_to-le : (x align : ℕ) → m_align_to x align ≤ align
unfolding m_align_to
m_align_to-le x align = omega (arith, bit_and-le ((2 ^ 64 - x % 2 ^ 64) % 2 ^ 64) (align - 1))

pub before_size_of-le : (align addr : ℕ) → align ≤ 2 ^ 62 → before_size_of align addr ≤ 16 + align
unfolding before_size_of
before_size_of-le align addr fine = let mask = m_align_to-le (addr + 16 + 8) align in ground arith

exponent-le : (k : ℕ) → 2 ^ k ≤ 2 ^ 62 → k ≤ 62
exponent-le k fine = elim (Bool-cases (ltb 62 k)) [
  | inl large ↦
      let high : 63 ≤ k = ground arith in
      absurd (omega (arith, pow-le-pow_right {n = 2} (omega arith) high))
  | inr small ↦ ground arith
]

-- The pointer to the block after the bytes that stay free is aligned.
pub before_size_of-aligned :
    (k addr : ℕ)
    → 2 ^ k ≤ 2 ^ 62
    → addr + 32 < 2 ^ 64
    → (addr + before_size_of (2 ^ k) addr + 8) % 2 ^ k ≡ 0
unfolding before_size_of
before_size_of-aligned k addr fine bound =
    let little : k ≤ 64 = omega (arith, exponent-le k fine) in
    elim (Bool-cases (m_align_to (addr + 8) (2 ^ k) == 0)) [
      | inl flush ↦
          let nothing : m_align_to (addr + 8) (2 ^ k) ≡ 0 = ground (arith, flush) in
          let place : addr + 0 + 8 ≡ addr + 8 + m_align_to (addr + 8) (2 ^ k) = omega arith in
          rw flush (
            ap (λ t. t % 2 ^ k) place
            ∙ m_align_to_of_power (addr + 8) k (omega arith) (omega arith) little)
      | inr apart ↦
          let mask = m_align_to-le (addr + 16 + 8) (2 ^ k) in
          let place : addr + (16 + m_align_to (addr + 16 + 8) (2 ^ k)) % 2 ^ 64 + 8
              ≡ addr + 16 + 8 + m_align_to (addr + 16 + 8) (2 ^ k) =
            omega arith in
          rw apart (
            ap (λ t. t % 2 ^ k) place
            ∙ m_align_to_of_power (addr + 16 + 8) k (omega arith) (omega arith) little)
    ]

-- The test of the alignment rejects what is no power of two, and only that.
pub no_power :
    (align : ℕ)
    → (not (bit_and align (align - 1) == 0) || leb align 0) ≡ true
    → (k : ℕ) → align ≢ 2 ^ k
no_power align odd k power =
    let alone : bit_and align (align - 1) ≡ 0 =
      ap (λ a. bit_and a (a - 1)) power ∙ bit_and_low k (2 ^ k) ∙ mod_self (2 ^ k) in
    let pos : 0 < align = omega (arith, power, one-le-pow k 2 (omega arith)) in
    absurd (ground (arith, odd, alone, pos))

pub power_of_test :
    (align : ℕ)
    → (not (bit_and align (align - 1) == 0) || leb align 0) ≡ false
    → (k : ℕ) × (align ≡ 2 ^ k)
power_of_test align even = bit_and_pred align (ground (arith, even)) (ground (arith, even))
