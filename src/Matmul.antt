-- ===== src/Matmul.antt =====
-- riscv-tests/mt/: matrix products for several cores. A kernel is the list of the assignments that
-- a core makes, in order; what it is a function of (the core's number, the number of cores, `lda`)
-- decides the list.
--
-- `data_t` and its arithmetic are the data set's, so they are arguments; no law of them is used.
-- The arrays `A` and `B` are read only. A core's local variables are numbered; `C` is shared.
pub mod Cores
pub mod Sweep
pub mod Tiles
pub mod Regions
pub mod Df
pub mod Al
pub mod Bf
pub mod Cl
pub mod Sixteen
pub mod Unrolled
pub mod Halves
pub mod Bm
pub mod Az
pub mod Cases
pub mod Blocks
pub mod Eights
pub mod Cv
pub mod Slices
pub mod Strips
pub mod CvRows
pub mod Bk
pub mod Dv
pub mod Octets
pub mod Shares
pub mod Kernels
use rv32i_pipeline_fpga.Common.{
  ℕ, zero, suc, Bool, true, false, ◌+◌, ◌-◌, ◌*◌, ◌/◌, ◌%◌, List, [], ◌∷◌, ◌++◌, update,
}

-- `data_t`: 0, the sum and the product.
pub record DataOps (D : Type 0) : Type 0 where
  pub nought : D
  pub add : D → D → D
  pub mul : D → D → D

-- An assignment: to a local variable from `C`, `A` or `B`, or of 0; the product of an element of `A`,
-- or of a local variable, and an element of `B` added to it; to an element of `C` from it; and the
-- product of two local variables added to an element of `C`.
pub data Op : Type 0 where
  load : ℕ → ℕ → Op
  fetch : ℕ → ℕ → Op
  fetch_b : ℕ → ℕ → Op
  clear : ℕ → Op
  accumulate : ℕ → ℕ → ℕ → Op
  accumulate_by : ℕ → ℕ → ℕ → Op
  store : ℕ → ℕ → Op
  increase : ℕ → ℕ → ℕ → Op

-- What a core sees: its local variables, and `C`.
pub record Core (D : Type 0) : Type 0 where
  pub temp : ℕ → D
  pub c : ℕ → D

module _ {D : Type 0} (ops : DataOps D) (A B : ℕ → D) where
  unfoldable pub exec : Op → Core D → Core D
  exec (load t i) s = record s { temp = update s.temp t (s.c i) }
  exec (fetch t x) s = record s { temp = update s.temp t (A x) }
  exec (fetch_b t y) s = record s { temp = update s.temp t (B y) }
  exec (clear t) s = record s { temp = update s.temp t ops.nought }
  exec (accumulate t x y) s = record s {
    temp = update s.temp t (ops.add (s.temp t) (ops.mul (A x) (B y)));
  }
  exec (accumulate_by t u y) s = record s {
    temp = update s.temp t (ops.add (s.temp t) (ops.mul (s.temp u) (B y)));
  }
  exec (store i t) s = record s { c = update s.c i (s.temp t) }
  exec (increase i u v) s = record s {
    c = update s.c i (ops.add (s.c i) (ops.mul (s.temp u) (s.temp v)));
  }

  unfoldable pub run : List Op → Core D → Core D
  run [] s = s
  run (op ∷ ops') s = run ops' (exec op s)

  -- `acc` and the products of a row of `A` and a column of `B`, added in order from the `k`-th on.
  unfoldable pub dot : ℕ → ℕ → ℕ → ℕ → ℕ → D → D
  dot lda row col k zero acc = acc
  dot lda row col k (suc n) acc =
      dot lda row col (k + 1) n (ops.add acc (ops.mul (A (row * lda + k)) (B (k * lda + col))))

-- `for (x = from; ...; x += stride)`, for `count` rounds.
unfoldable pub for_by : ℕ → ℕ → ℕ → (ℕ → List Op) → List Op
for_by stride from zero body = []
for_by stride from (suc count) body = body from ++ for_by stride (from + stride) count body

-- `for (x = from; x < bound; x += stride)`.
unfoldable pub for_to : ℕ → ℕ → ℕ → (ℕ → List Op) → List Op
for_to stride from bound body = for_by stride from ((bound - from + (stride - 1)) / stride) body

-- The assignments `f t` for `n` numbers from `t` on.
unfoldable pub each : ℕ → ℕ → (ℕ → Op) → List Op
each t zero f = []
each t (suc n) f = f t ∷ each (t + 1) n f
