-- ===== src/Common/Words.antt =====
-- Bit vectors as natural numbers: a `logic [w-1:0]` is a number below 2 ^ w, and every
-- operation that can leave that range wraps by `% 2 ^ w`.
use Prim.Native.Nat.{ℕ, ◌+◌, ◌-◌, ◌*◌, ◌/◌, ◌%◌, ◌^◌}
use mathlib.Core.Bool.{Bool, true, false}
use rv32i_pipeline_fpga.Common.Tests.{◌==◌, if◌then◌else◌}

-- 2 ^ 32, the number of 32-bit words.
abbrev pub word_mod : ℕ
word_mod = 0x1_0000_0000

-- `x[hi:lo]`.
abbrev pub slice : ℕ → ℕ → ℕ → ℕ
slice x hi lo = x / 2 ^ lo % 2 ^ (hi + 1 - lo)

-- `x[i]`, as a number and as a flag.
abbrev pub bit : ℕ → ℕ → ℕ
bit x i = x / 2 ^ i % 2

abbrev pub flag : ℕ → ℕ → Bool
flag x i = bit x i == 1

-- `{n{b}}` for a one-bit `b`.
abbrev pub replicate_bit : ℕ → ℕ → ℕ
replicate_bit n b = b * (2 ^ n - 1)

-- `{a, b}` for a `b` of `w` bits.
abbrev pub concat : ℕ → ℕ → ℕ → ℕ
concat w a b = a * 2 ^ w + b

abbrev pub bit_of : Bool → ℕ
bit_of true = 1
bit_of false = 0

-- 32-bit `a + b` and `a - b`.
abbrev pub add32 : ℕ → ℕ → ℕ
add32 a b = (a + b) % word_mod

abbrev pub sub32 : ℕ → ℕ → ℕ
sub32 a b = (a + word_mod - b) % word_mod

-- `a[i] = v`, for an array as a function of its index.
abbrev pub update {ℓ} : {A : Type ℓ} → (ℕ → A) → ℕ → A → ℕ → A
update a i v j = if j == i then v else a j
