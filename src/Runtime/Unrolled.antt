-- ===== src/Runtime/Unrolled.antt =====
-- memcpy of riscv-tests/benchmarks/common/syscalls.c, unrolled by eight, copies like the plain one;
-- strnlen.
use rv32i_pipeline_fpga.Common.{
  ℕ, zero, suc, ◌+◌, ◌-◌, ◌*◌, ◌/◌, ◌<◌, ◌≤◌, ◌≡◌, refl, ap, ◌∙◌, fun_ext, inl, inr, true, false,
  ◌&&◌, ltb, leb, ◌==◌, ==_iff, if◌then◌else◌, some, List, [], ◌∷◌, length, bit_and, bit_or,
  Bool-cases, arith,
}
use rv32i_pipeline_fpga.Runtime.{Memory, put_bytes, bytes_at}
use rv32i_pipeline_fpga.Runtime.Syscalls.{
  copy_eight_words, copy_unrolled, memcpy, strnlen, strnlen_loop,
}
use rv32i_pipeline_fpga.Runtime.Copy.{Disjoint, copy-split, copy_loop-put, aligned_len}
use rv32i_pipeline_fpga.Runtime.Text.{IsString}

-- Two adjacent writes from one source are one write.
put-put :
    (d n k : ℕ) (f : ℕ → ℕ) (m : Memory)
    → put_bytes (d + n) k (λ i. f (n + i)) (put_bytes d n f m) ≡ put_bytes d (n + k) f m
put-put d n k f m = fun_ext (λ j. elim (Bool-cases (leb (d + n) j && ltb j (d + n + k))) [
  | inl second ↦
      let from : n + (j - (d + n)) ≡ j - d = ground arith in
      let whole : (leb d j && ltb j (d + (n + k))) ≡ true = ground arith in
      rw (second, from, whole) refl
  | inr first ↦ rw first (ground arith)
])

module _ (d s : ℕ) (m : Memory) where
  abbrev first_words : ℕ → Memory
  first_words i = put_bytes d (8 * i) (bytes_at m s) m

  abbrev word_after : ℕ → Memory → Memory
  word_after i = put_bytes (d + 8 * i) 8 (bytes_at m (s + 8 * i))

  next_word : (i : ℕ) → word_after i (first_words i) ≡ first_words (i + 1)
  next_word i =
      let read : bytes_at m (s + 8 * i) ≡ (λ j. bytes_at m s (8 * i + j)) =
        fun_ext (λ j. ap m (omega arith)) in
      let count : 8 * i + 8 ≡ 8 * (i + 1) = omega arith in
      ap (λ f. put_bytes (d + 8 * i) 8 f (first_words i)) read
      ∙ put-put d (8 * i) 8 (bytes_at m s) m
      ∙ ap (λ n. put_bytes d n (bytes_at m s) m) count

  no_words : m ≡ first_words 0
  no_words = fun_ext (λ k. ground arith)

  -- All eight reads come before the writes, so the overlap of source and destination is no matter.
  copy_eight_words-put : copy_eight_words d s m ≡ put_bytes d 64 (bytes_at m s) m
  unfolding copy_eight_words
  copy_eight_words-put =
      let w1 = ap (word_after 0) no_words ∙ next_word 0 in
      let w2 = ap (word_after 1) w1 ∙ next_word 1 in
      let w3 = ap (word_after 2) w2 ∙ next_word 2 in
      let w4 = ap (word_after 3) w3 ∙ next_word 3 in
      let w5 = ap (word_after 4) w4 ∙ next_word 4 in
      let w6 = ap (word_after 5) w5 ∙ next_word 5 in
      let w7 = ap (word_after 6) w6 ∙ next_word 6 in ap (word_after 7) w7 ∙ next_word 7

copy_unrolled-put :
    (fuel q d s end : ℕ) (m : Memory)
    → q ≤ fuel
    → end ≡ d + q * 8
    → Disjoint d s (q * 8)
    → copy_unrolled fuel d s end m ≡ some (put_bytes d (q * 8) (bytes_at m s) m)
unfolding copy_unrolled
copy_unrolled-put zero q d s end m enough e apart =
    let done : ltb (d + 8 * 8) end ≡ false = ground arith in
    rw done (copy_loop-put 8 q 8 d s end m (omega arith) (omega arith) e apart)
copy_unrolled-put (suc fuel) q d s end m enough e apart = elim (Bool-cases (ltb (d + 8 * 8) end)) [
  | inl more ↦
      let long : 8 < q = ground arith in
      let left : q * 8 ≡ 64 + (q - 8) * 8 = omega arith in
      rw (more, left)
        (ap (copy_unrolled fuel (d + 8 * 8) (s + 8 * 8) end) (copy_eight_words-put d s m)
          ∙ copy_unrolled-put fuel (q - 8) (d + 64) (s + 64) end (put_bytes d 64 (bytes_at m s) m)
              (omega arith) (omega arith) (ground arith)
          ∙ ap some (copy-split 64 d s ((q - 8) * 8) m (ground arith)))
  | inr done ↦
      let short : q ≤ 8 = ground arith in
      rw done (copy_loop-put 8 q 8 d s end m short (omega arith) e apart)
]

-- For blocks that do not overlap, and with a round for each byte, the unrolled `memcpy` copies the
-- block and changes no other byte.
pub unrolled_memcpy_lem :
    (fuel dest src len : ℕ) (m : Memory)
    → len ≤ fuel
    → Disjoint dest src len
    → memcpy fuel dest src len m ≡ some (put_bytes dest len (bytes_at m src) m)
unfolding memcpy
unrolled_memcpy_lem fuel dest src len m enough apart =
    elim (Bool-cases (bit_and (bit_or (bit_or dest src) len) 7 == 0)) [
      | inl words ↦
          let whole = aligned_len (bit_or dest src) len ((==_iff _ 0).0 words) in
          rw words (
            copy_unrolled-put fuel (len / 8) dest src (dest + len) m (omega arith) (omega arith)
              (rw whole apart)
            ∙ ap (λ n. some (put_bytes dest n (bytes_at m src) m)) whole)
      | inr bytes ↦
          let whole : len * 1 ≡ len = omega arith in
          rw bytes (
            copy_loop-put fuel len 1 dest src (dest + len) m enough (omega arith) (omega arith)
              (rw whole apart)
            ∙ ap (λ n. some (put_bytes dest n (bytes_at m src) m)) whole)
    ]

strnlen_loop-length :
    (cs : List ℕ) (n : ℕ) (m : Memory) (s p : ℕ)
    → s ≤ p
    → IsString m p cs
    → strnlen_loop n m s p ≡ p - s + (if ltb n (length cs) then n else length cs)
unfolding strnlen_loop
strnlen_loop-length [] zero m s p le text = ground arith
strnlen_loop-length (c ∷ cs) zero m s p le text = ground arith
strnlen_loop-length [] (suc n) m s p le text = ground arith
strnlen_loop-length (c ∷ cs) (suc n) m s p le (at, ne, rest) =
    ground (arith, strnlen_loop-length cs n m s (p + 1))

-- `strnlen` gives the smaller of a string's length and the limit.
strnlen_lem :
    (m : Memory) (s n : ℕ) (cs : List ℕ)
    → IsString m s cs
    → strnlen m s n ≡ (if ltb n (length cs) then n else length cs)
unfolding strnlen
strnlen_lem m s n cs text = strnlen_loop-length cs n m s s (omega arith) text ∙ omega arith
