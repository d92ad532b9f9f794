-- ===== src/Common/Lists.antt =====
-- Lists and arrays by the native numbers.
use Prim.Native.Nat.{ℕ, zero, suc, ◌+◌, ◌<◌}
use mathlib.Core.Bool.{Bool, true, false}
use rv32i_pipeline_fpga.Common.Tests.{if◌then◌else◌}
use native.Mathlib.Decide.{dec_lt}
use mathlib.Core.Path.{◌≡◌, ap, sym, ◌∙◌}
use mathlib.Core.Logic.{◌≢◌}
use rv32i_pipeline_fpga.Common.Words.{update}
use mathlib.Core.List.{List, [], ◌∷◌, ◌++◌}
use native.Mathlib.Omega.{arith}

module _ {ℓ} {A : Type ℓ} where
  abbrev pub length : List A → ℕ
  length [] = 0
  length (x ∷ xs) = suc (length xs)

  pub length-append : (xs ys : List A) → length (xs ++ ys) ≡ length xs + length ys
  length-append [] ys = omega arith
  length-append (x ∷ xs) ys = omega (arith, length-append xs ys)

module _ {ℓ} {A : Type ℓ} (a : ℕ → A) (i : ℕ) (v : A) where
  pub update-eq : (j : ℕ) → i ≡ j → update a i v j ≡ v
  update-eq j e = ground arith

  pub update-ne : (j : ℕ) → i ≢ j → update a i v j ≡ a j
  update-ne j e = ground arith

-- A table: whether a test succeeds at every index below the count.
unfoldable pub table_passes : (ℕ → Bool) → ℕ → Bool
table_passes test zero = true
table_passes test (suc k) = if test k then table_passes test k else false

pub table_passes-at :
    (test : ℕ → Bool) (count k : ℕ) → k < count → table_passes test count ≡ true → test k ≡ true
unfolding table_passes
table_passes-at test zero k bound passes = absurd (omega arith)
table_passes-at test (suc last) k bound passes = elim (dec_lt k last) [
  | yes earlier ↦ table_passes-at test last k earlier (ground arith)
  | no other ↦ let e : last ≡ k = omega arith in ap test (sym e) ∙ ground arith
]
