-- ===== src/Runtime/Text.antt =====
-- strlen, strcmp, strcpy and memcmp of riscv-tests/env/v/string.c against lists of characters.
use mathlib.Core.Option.{some-injective}
use rv32i_pipeline_fpga.Common.{
  ℕ, zero, suc, ◌+◌, ◌-◌, ◌*◌, ◌/◌, ◌<◌, ◌≤◌, ◌≡◌, ◌≢◌, refl, sym, ap, ap₂, subst, ◌∙◌, inl, inr,
  true, ltb, ◌==◌, if◌then◌else◌, Option, some, List, [], ◌∷◌, length, bit_and, bit_or, Bool-cases,
  ◌↔◌, eq_self, arith,
}
use rv32i_pipeline_fpga.Common.Int.{ℤ, pos}
use rv32i_pipeline_fpga.Runtime.{Memory}
use rv32i_pipeline_fpga.Runtime.Strings.{
  strlen_loop, strlen, strcmp, difference, memcmp, memcmp_words, memcmp_bytes, same_word,
}

-- The characters from `s` on are `cs`, then comes the terminating 0.
abbrev pub IsString : Memory → ℕ → List ℕ → Type 0
IsString m s [] = m s ≡ 0
IsString m s (c ∷ cs) = (m s ≡ c) × (c ≢ 0) × IsString m (s + 1) cs

strlen_loop-length :
    (cs : List ℕ) (fuel : ℕ) (m : Memory) (s p : ℕ)
    → length cs < fuel
    → s ≤ p
    → IsString m p cs
    → strlen_loop fuel m s p ≡ some (p - s + length cs)
unfolding strlen_loop
strlen_loop-length cs zero m s p enough le text = absurd (omega arith)
strlen_loop-length [] (suc fuel) m s p enough le text = ground arith
strlen_loop-length (c ∷ cs) (suc fuel) m s p enough le (at, ne, rest) =
    ground (arith, strlen_loop-length cs fuel m s (p + 1))

-- `strlen` gives a string's length, when the loop has a round for each character and one more.
strlen_lem :
    (fuel : ℕ) (m : Memory) (s : ℕ) (cs : List ℕ)
    → length cs < fuel
    → IsString m s cs
    → strlen fuel m s ≡ some (length cs)
unfolding strlen
strlen_lem fuel m s cs enough text =
    strlen_loop-length cs fuel m s s enough (omega arith) text ∙ ap some (omega arith)

-- The difference at the first place where two strings differ, their ends counting as 0.
abbrev pub compare_strings : List ℕ → List ℕ → ℤ
compare_strings [] [] = pos 0
compare_strings [] (b ∷ bs) = difference 0 b
compare_strings (a ∷ as') [] = difference a 0
compare_strings (a ∷ as') (b ∷ bs) =
    let rest = compare_strings as' bs in if a == b then rest else difference a b

strcmp-compare :
    (xs ys : List ℕ) (fuel : ℕ) (m : Memory) (s1 s2 : ℕ)
    → length xs < fuel
    → IsString m s1 xs
    → IsString m s2 ys
    → strcmp fuel m s1 s2 ≡ some (compare_strings xs ys)
unfolding strcmp
strcmp-compare xs ys zero m s1 s2 enough t1 t2 = absurd (omega arith)
strcmp-compare [] [] (suc fuel) m s1 s2 enough t1 t2 = ground arith
strcmp-compare [] (y ∷ ys) (suc fuel) m s1 s2 enough t1 (at, ne, rest) = ground arith
strcmp-compare (x ∷ xs) [] (suc fuel) m s1 s2 enough (at, ne, rest) t2 = ground arith
strcmp-compare (x ∷ xs) (y ∷ ys) (suc fuel) m s1 s2 enough (at1, ne1, rest1) (at2, ne2, rest2) =
    ground (arith, strcmp-compare xs ys fuel m (s1 + 1) (s2 + 1))

compare_strings-zero :
    (xs ys : List ℕ) (m : Memory) (s1 s2 : ℕ)
    → IsString m s1 xs
    → IsString m s2 ys
    → compare_strings xs ys ≡ pos 0
    → xs ≡ ys
compare_strings-zero [] [] m s1 s2 t1 t2 e = refl
compare_strings-zero [] (y ∷ ys) m s1 s2 t1 (at, ne, rest) e = ground arith
compare_strings-zero (x ∷ xs) [] m s1 s2 (at, ne, rest) t2 e = ground arith
compare_strings-zero (x ∷ xs) (y ∷ ys) m s1 s2 (at1, ne1, r1) (at2, ne2, r2) e =
    ground (arith, compare_strings-zero xs ys m (s1 + 1) (s2 + 1) r1 r2)

compare_strings_self : (xs : List ℕ) → compare_strings xs xs ≡ pos 0
compare_strings_self [] = refl
compare_strings_self (x ∷ xs) = rw (eq_self x) (compare_strings_self xs)

-- When the loop has a round for each character of the first string and one more, `strcmp` gives the
-- difference at the first place where the strings differ, and gives 0 exactly for equal strings.
pub strcmp_lem :
    (fuel : ℕ) (m : Memory) (s1 s2 : ℕ) (xs ys : List ℕ)
    → length xs < fuel
    → IsString m s1 xs
    → IsString m s2 ys
    → (strcmp fuel m s1 s2 ≡ some (compare_strings xs ys))
      × ((strcmp fuel m s1 s2 ≡ some (pos 0)) ↔ (xs ≡ ys))
strcmp_lem fuel m s1 s2 xs ys enough t1 t2 =
    let e = strcmp-compare xs ys fuel m s1 s2 enough t1 t2 in
    (
      e,
      (
        λ z. compare_strings-zero xs ys m s1 s2 t1 t2 (some-injective _ _ (sym e ∙ z)),
        λ z. e ∙ ap some (ap (compare_strings xs) (sym z) ∙ compare_strings_self xs),
      ),
    )

-- The bytes of the block of `n` at `s`.
abbrev pub block : Memory → ℕ → ℕ → List ℕ
block m s zero = []
block m s (suc n) = m s ∷ block m (s + 1) n

skip_byte :
    (i n : ℕ) (m : Memory) (u1 u2 : ℕ)
    → (m (u1 + i) == m (u2 + i)) ≡ true
    → memcmp_bytes (suc n) m (u1 + i) (u2 + i) ≡ memcmp_bytes n m (u1 + suc i) (u2 + suc i)
unfolding memcmp_bytes
skip_byte i n m u1 u2 same =
    let e : u1 + i + 1 ≡ u1 + suc i = omega arith in
    let f : u2 + i + 1 ≡ u2 + suc i = omega arith in rw (same, e, f) refl

skip_word :
    (n : ℕ) (m : Memory) (u1 u2 : ℕ)
    → same_word m u1 u2 ≡ true
    → memcmp_bytes (n + 8) m u1 u2 ≡ memcmp_bytes n m (u1 + 8) (u2 + 8)
skip_word n m u1 u2 same =
    let eight : n + 8 ≡ suc (suc (suc (suc (suc (suc (suc (suc n))))))) = omega arith in
    let at1 : u1 ≡ u1 + 0 = omega arith in
    let at2 : u2 ≡ u2 + 0 = omega arith in
    ap₂ (λ a b. memcmp_bytes (n + 8) m a b) at1 at2
    ∙ ap (λ k. memcmp_bytes k m (u1 + 0) (u2 + 0)) eight
    ∙ skip_byte 0 _ m u1 u2 (ap₂ (λ a b. m a == m b) (sym at1) (sym at2) ∙ ground arith)
    ∙ skip_byte 1 _ m u1 u2 (ground arith)
    ∙ skip_byte 2 _ m u1 u2 (ground arith)
    ∙ skip_byte 3 _ m u1 u2 (ground arith)
    ∙ skip_byte 4 _ m u1 u2 (ground arith)
    ∙ skip_byte 5 _ m u1 u2 (ground arith)
    ∙ skip_byte 6 _ m u1 u2 (ground arith)
    ∙ skip_byte 7 _ m u1 u2 (ground arith)

-- Where the loop over words stops, `j` bytes on, all before was equal.
abbrev Skips : Option (ℕ × ℕ) → ℕ → Memory → ℕ → ℕ → Type 0
Skips r n m u1 u2 =
    (j : ℕ) × (r ≡ some (u1 + j, u2 + j))
    × (j ≤ n)
    × (memcmp_bytes (n - j) m (u1 + j) (u2 + j) ≡ memcmp_bytes n m u1 u2)

Skips-here :
    (r : Option (ℕ × ℕ)) (n : ℕ) (m : Memory) (u1 u2 : ℕ) → r ≡ some (u1, u2) → Skips r n m u1 u2
Skips-here r n m u1 u2 e =
    let at1 : u1 ≡ u1 + 0 = omega arith in
    let at2 : u2 ≡ u2 + 0 = omega arith in
    let all : n - 0 ≡ n = omega arith in
    (
      0,
      e ∙ ap₂ (λ a b. some (a, b)) at1 at2,
      omega arith,
      rw all (ap₂ (λ a b. memcmp_bytes n m a b) (sym at1) (sym at2)),
    )

Skips-word :
    (r : Option (ℕ × ℕ)) (n : ℕ) (m : Memory) (u1 u2 : ℕ)
    → same_word m u1 u2 ≡ true
    → Skips r n m (u1 + 8) (u2 + 8)
    → Skips r (n + 8) m u1 u2
Skips-word r n m u1 u2 same (j, e, le, ih) =
    let at1 : u1 + 8 + j ≡ u1 + (j + 8) = omega arith in
    let at2 : u2 + 8 + j ≡ u2 + (j + 8) = omega arith in
    let left : n + 8 - (j + 8) ≡ n - j = omega arith in
    (
      j + 8,
      e ∙ ap₂ (λ a b. some (a, b)) at1 at2,
      omega arith,
      rw left (
          ap₂ (λ a b. memcmp_bytes (n - j) m a b) (sym at1) (sym at2)
          ∙ ih
          ∙ sym (skip_word n m u1 u2 same)),
    )

memcmp_words-Skips :
    (fuel q n : ℕ) (m : Memory) (u1 u2 end : ℕ)
    → q ≤ fuel
    → q * 8 ≤ n
    → end ≡ u1 + q * 8
    → Skips (memcmp_words fuel m u1 u2 end) n m u1 u2
unfolding memcmp_words
memcmp_words-Skips zero zero n m u1 u2 end enough le e =
    Skips-here (memcmp_words zero m u1 u2 end) n m u1 u2 (ground arith)
memcmp_words-Skips (suc fuel) zero n m u1 u2 end enough le e =
    Skips-here (memcmp_words (suc fuel) m u1 u2 end) n m u1 u2 (ground arith)
memcmp_words-Skips zero (suc q) n m u1 u2 end enough le e = absurd (omega arith)
memcmp_words-Skips (suc fuel) (suc q) n m u1 u2 end enough le e =
    let more : ltb u1 end ≡ true = ground arith in
    elim (Bool-cases (same_word m u1 u2)) [
      | inl same ↦
          let split : n ≡ n - 8 + 8 = omega arith in
          rw (more, same)
            (subst (λ k. Skips (memcmp_words fuel m (u1 + 8) (u2 + 8) end) k m u1 u2) (sym split)
              (Skips-word _ (n - 8) m u1 u2 same (
                memcmp_words-Skips fuel q (n - 8) m (u1 + 8) (u2 + 8) end (omega arith)
                  (omega arith) (omega arith))))
      | inr differ ↦ rw (more, differ) (Skips-here _ n m u1 u2 refl)
    ]

memcmp_bytes-zero :
    (n : ℕ) (m : Memory) (s1 s2 : ℕ)
    → (memcmp_bytes n m s1 s2 ≡ pos 0) ↔ (block m s1 n ≡ block m s2 n)
unfolding memcmp_bytes
memcmp_bytes-zero zero m s1 s2 = (λ e. refl, λ e. refl)
memcmp_bytes-zero (suc n) m s1 s2 =
    let (to, from) = memcmp_bytes-zero n m (s1 + 1) (s2 + 1) in
    (λ e. ground (arith, to), λ e. ground (arith, from))

memcmp-bytes :
    (fuel : ℕ) (m : Memory) (s1 s2 n : ℕ)
    → n / 8 ≤ fuel
    → memcmp fuel m s1 s2 n ≡ some (memcmp_bytes n m s1 s2)
unfolding memcmp
memcmp-bytes fuel m s1 s2 n enough = elim (Bool-cases (bit_and (bit_or s1 s2) 7 == 0)) [
  | inl words ↦
      let (j, at, le, skipped) =
        memcmp_words-Skips fuel (n / 8) n m s1 s2 (s1 + n / 8 * 8) enough (omega arith) refl in
      let passed : s1 + j - s1 ≡ j = omega arith in rw (words, at, passed) (ap some skipped)
  | inr bytes ↦ rw bytes refl
]

-- With a round for each word, `memcmp` gives what its loop over bytes gives alone, the difference at
-- the first place where the blocks differ, and gives 0 exactly for equal blocks.
pub memcmp_lem :
    (fuel : ℕ) (m : Memory) (s1 s2 n : ℕ)
    → n / 8 ≤ fuel
    → (memcmp fuel m s1 s2 n ≡ some (memcmp_bytes n m s1 s2))
      × ((memcmp fuel m s1 s2 n ≡ some (pos 0)) ↔ (block m s1 n ≡ block m s2 n))
memcmp_lem fuel m s1 s2 n enough =
    let e = memcmp-bytes fuel m s1 s2 n enough in
    let (to, from) = memcmp_bytes-zero n m s1 s2 in
    (e, (λ z. to (some-injective _ _ (sym e ∙ z)), λ z. e ∙ ap some (from z)))
