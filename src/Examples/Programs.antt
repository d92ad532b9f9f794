-- ===== src/Examples/Programs.antt =====
-- Tests of the C programs' models, and the properties at inputs that meet their hypotheses.
use mathlib.Core.List.{List, [], ◌∷◌, ◌++◌}
use rv32i_pipeline_fpga.Common.{
  true, ℕ, ◌+◌, ◌<◌, ◌≡◌, ◌↔◌, refl, inl, inr, ◌==◌, if◌then◌else◌, arith, none, some, length, leb,
  ◌||◌, ◌⊎◌, ◌^◌, ◌-◌, ◌≤◌, Bool-cases,
}
use rv32i_pipeline_fpga.Common.Int.{pos, signed}
use rv32i_pipeline_fpga.Bench.Multiply.{multiply, multiply_lem}
use rv32i_pipeline_fpga.Bench.Median.{median, median_lem}
use rv32i_pipeline_fpga.Bench.Towers
use rv32i_pipeline_fpga.Bench.Towers.{Store, towers_solve_h, peg_a, peg_b, peg_c}
use rv32i_pipeline_fpga.Bench.Towers.Chains.{Holds}
use rv32i_pipeline_fpga.Bench.Towers.Steps.{Leaves}
use rv32i_pipeline_fpga.Bench.Towers.Solve.{carry, towers_solve_h_lem}
use rv32i_pipeline_fpga.Bench.Towers.Run.{main-zero}
use rv32i_pipeline_fpga.Runtime.{Memory, put_bytes, bytes_at}
use rv32i_pipeline_fpga.Runtime.Strings
use rv32i_pipeline_fpga.Runtime.Syscalls
use rv32i_pipeline_fpga.Runtime.Unrolled.{unrolled_memcpy_lem}
use rv32i_pipeline_fpga.Runtime.Text.{IsString, memcmp_lem, block}
use rv32i_pipeline_fpga.Runtime.Print.{
  printnum, sprintf, rounds_of, sub_int, digs_loop, pad, put_digits,
}
use rv32i_pipeline_fpga.Runtime.Decimal.{printnum_lem, put_all, text, replicate, value, AllBelow}
use rv32i_pipeline_fpga.Runtime.Roundtrip.{atol-sprintf}

-- -3 times 5.
multiply_lem_example : multiply 0xffff_fffd 5 ≡ 0xffff_fff1
multiply_lem_example = multiply_lem 0xffff_fffd 5

-- 7, -1, 3, 9.
abbrev samples : ℕ → ℕ
samples i = if i == 0 then 7 else if i == 1 then 0xffff_ffff else if i == 2 then 3 else 9

median_lem_example : signed (median 4 samples samples 1) ≡ pos 3
median_lem_example = median_lem 4 samples samples 1 (omega arith)

-- One disc, in the node 0, on peg A.
abbrev one_disc : Store
one_disc = record {
  val = λ i. 1;
  next = λ i. none;
  size = λ q. if q == peg_a then 1 else 0;
  head = λ q. if q == peg_a then some 0 else none;
  num_discs = 1;
  num_moves = 0;
}

abbrev disc_on_a : ℕ → List ℕ
disc_on_a q = if q == peg_a then 1 ∷ [] else []

one_disc-Holds : Holds one_disc disc_on_a
one_disc-Holds = record {
  places = record { place = λ i. peg_a; depth = λ i. 0 };
  chains = λ q. elim (Bool-cases (q == peg_a)) [
    | inl on_a ↦ rw on_a (0, refl, ground arith, refl, refl, refl)
    | inr elsewhere ↦ rw elsewhere refl
  ];
  sizes = λ q pos. ground arith;
}

towers_solve_h_lem_example :
    Leaves
      (towers_solve_h 1 peg_a peg_b peg_c one_disc)
      one_disc
      1
      (carry peg_a peg_c [] (1 ∷ []) disc_on_a)
towers_solve_h_lem_example =
    towers_solve_h_lem 0 one_disc disc_on_a peg_a peg_b peg_c (1 ∷ []) [] refl (omega arith)
      one_disc-Holds refl (omega arith)

-- A store that holds other things where the pool and the lists are.
abbrev used_store : Store
used_store = record {
  val = λ i. i;
  next = λ i. some 0;
  size = λ q. if leb q 3 then 5 else 0;
  head = λ q. if leb q 3 then some 2 else none;
  num_discs = 9;
  num_moves = 9;
}

-- As the Makefile builds it.
main-zero_example : Towers.main true 7 used_store ≡ some 0
main-zero_example =
    main-zero true 6 used_store (omega arith) (λ q h. ground arith) (λ q h. ground arith)

-- "ab" at 0, "ac" at 8, "  -42" at 16, "%lu" at 24.
abbrev texts : Memory
texts k =
    if k == 0 || k == 8
    then b'a'
    else if k == 1
    then b'b'
    else if k == 9
    then b'c'
    else if k == 16 || k == 17
    then b' '
    else if k == 18
    then b'-'
    else if k == 19
    then b'4'
    else if k == 20
    then b'2'
    else if k == 24
    then b'%'
    else if k == 25
    then b'l'
    else if k == 26
    then b'u'
    else 0

unrolled_memcpy_lem_example :
    Syscalls.memcpy 80 128 0 80 texts ≡ some (put_bytes 128 80 (bytes_at texts 0) texts)
unrolled_memcpy_lem_example =
    unrolled_memcpy_lem 80 128 0 80 texts (omega arith) (inr (omega arith))

abbrev ab : List ℕ
ab = b'a' ∷ b'b' ∷ []

abbrev ac : List ℕ
ac = b'a' ∷ b'c' ∷ []

memcmp_lem_example :
    (Strings.memcmp 2 texts 0 8 16 ≡ some (Strings.memcmp_bytes 16 texts 0 8))
    × ((Strings.memcmp 2 texts 0 8 16 ≡ some (pos 0)) ↔ (block texts 0 16 ≡ block texts 8 16))
memcmp_lem_example = memcmp_lem 2 texts 0 8 16 (omega arith)

-- The characters put, the last one first.
abbrev collect : ℕ → List ℕ → List ℕ
collect c out = c ∷ out

printnum_lem_example :
    (digs : List ℕ) × (printnum collect 255 16 (pos 4) b'0' []
      ≡ put_all collect
          (replicate (rounds_of (sub_int (pos 4) (length digs))) b'0' ++ text digs)
          [])
    × (value 16 digs ≡ 255)
    × AllBelow 16 digs
    × (0 < length digs)
    × ((length digs ≡ 1) ⊎ (16 ^ (length digs - 1) ≤ 255))
printnum_lem_example = printnum_lem collect 255 16 (pos 4) b'0' [] (omega arith) (omega arith)

atol-sprintf_example :
    (cs : List ℕ) × (m' : Memory) × (sprintf 4 0 64 24 (1234 ∷ []) texts ≡ some (length cs, m'))
    × IsString m' 64 cs
    × (Syscalls.atol (2 + length cs) m' 64 ≡ some 1234)
atol-sprintf_example = atol-sprintf 0 0 64 24 1234 texts (omega arith) (omega arith) (omega arith)

-- "00ff".
padded_hex : printnum collect 255 16 (pos 4) b'0' [] ≡ b'f' ∷ b'f' ∷ b'0' ∷ b'0' ∷ []
unfolding printnum digs_loop pad put_digits
padded_hex = refl
