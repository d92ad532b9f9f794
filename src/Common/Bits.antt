-- ===== src/Common/Bits.antt =====
-- `&`, `|` and `^` digit by digit: what the native operations do to the lowest binary digit and to
-- the rest.
use Prim.Native.Nat.{
  min, max, differ, digits, bitwise, bit_and-bitwise, bit_or-bitwise, bit_xor-bitwise, ℕ, zero, suc,
  ◌+◌, ◌-◌, ◌*◌, ◌/◌, ◌%◌, ◌≤◌, ◌<◌, ◌^◌, bit_and, bit_or, bit_xor,
}
use native.Mathlib.Nat.{
  mod-lt, one-le-pow, mod-add-div', mod-eq_of_lt, add-mul-mod_self_right, zero-add, suc-add,
  pow-succ', div-div-eq-div-mul, mul_assoc,
}
use mathlib.Core.Path.{◌≡◌, refl, sym, ap, ap₂, ◌∙◌}
use mathlib.Core.Logic.{◌⊎◌, inl, inr}
use native.Mathlib.Omega.{arith}

-- For the rule `f` of one digit and the value `z` past the first number's digits.
module _ (z : ℕ → ℕ) (f : ℕ → ℕ → ℕ) where
  abbrev rounds : ℕ → ℕ → ℕ → ℕ
  rounds n a b = digits z f n a b

  -- A round past the last digit changes nothing.
  rounds-suc : (n a b : ℕ) → a ≤ n → rounds (suc n) a b ≡ rounds n a b
  rounds-suc zero zero b h = refl
  rounds-suc zero (suc a) b h = absurd (omega arith)
  rounds-suc (suc n) zero b h = refl
  rounds-suc (suc n) (suc a) b h =
      ap (λ (t : ℕ). t * 2 + f (suc a % 2) (b % 2)) (rounds-suc n (suc a / 2) (b / 2) (omega arith))

  rounds-add : (k n a b : ℕ) → a ≤ n → rounds (k + n) a b ≡ rounds n a b
  rounds-add zero n a b h = ap (λ (t : ℕ). rounds t a b) (zero-add n)
  rounds-add (suc k) n a b h =
      ap (λ (t : ℕ). rounds t a b) (suc-add k n)
      ∙ rounds-suc (k + n) a b (omega arith)
      ∙ rounds-add k n a b h

  bitwise-digit :
      ((b : ℕ) → z b ≡ z (b / 2) * 2 + f 0 (b % 2))
      → (a b : ℕ) → bitwise z f a b ≡ bitwise z f (a / 2) (b / 2) * 2 + f (a % 2) (b % 2)
  bitwise-digit past zero b = past b
  bitwise-digit past (suc a) b =
      let half = suc a / 2 in
      let whole : (a - half) + half ≡ a = omega arith in
      ap (λ (t : ℕ). t * 2 + f (suc a % 2) (b % 2))
        (ap (λ (t : ℕ). rounds t half (b / 2)) (sym whole)
          ∙ rounds-add (a - half) half half (b / 2) (omega arith))

pub bit_and-digit : (a b : ℕ) → bit_and a b ≡ bit_and (a / 2) (b / 2) * 2 + min (a % 2) (b % 2)
bit_and-digit a b =
    bit_and-bitwise a b
    ∙ bitwise-digit (λ _. zero) min (λ b. omega arith) a b
    ∙ ap (λ (t : ℕ). t * 2 + min (a % 2) (b % 2)) (sym (bit_and-bitwise (a / 2) (b / 2)))

pub bit_or-digit : (a b : ℕ) → bit_or a b ≡ bit_or (a / 2) (b / 2) * 2 + max (a % 2) (b % 2)
bit_or-digit a b =
    bit_or-bitwise a b
    ∙ bitwise-digit (λ b. b) max (λ b. omega arith) a b
    ∙ ap (λ (t : ℕ). t * 2 + max (a % 2) (b % 2)) (sym (bit_or-bitwise (a / 2) (b / 2)))

pub bit_xor-digit : (a b : ℕ) → bit_xor a b ≡ bit_xor (a / 2) (b / 2) * 2 + differ (a % 2) (b % 2)
bit_xor-digit a b =
    bit_xor-bitwise a b
    ∙ bitwise-digit (λ b. b) differ (λ b. omega arith) a b
    ∙ ap (λ (t : ℕ). t * 2 + differ (a % 2) (b % 2)) (sym (bit_xor-bitwise (a / 2) (b / 2)))

and_rounds-zero : (n a : ℕ) → rounds (λ _. zero) min n a 0 ≡ 0
and_rounds-zero zero a = refl
and_rounds-zero (suc n) zero = refl
and_rounds-zero (suc n) (suc a) = omega (arith, and_rounds-zero n (suc a / 2))

pub bit_and-zero : (a : ℕ) → bit_and a 0 ≡ 0
bit_and-zero a = bit_and-bitwise a 0 ∙ and_rounds-zero a a

or_rounds-zero : (n a : ℕ) → a ≤ n → rounds (λ b. b) max n a 0 ≡ a
or_rounds-zero zero a h = omega arith
or_rounds-zero (suc n) zero h = refl
or_rounds-zero (suc n) (suc a) h = omega (arith, or_rounds-zero n (suc a / 2) (omega arith))

pub bit_or_zero : (a : ℕ) → bit_or a 0 ≡ a
bit_or_zero a = bit_or-bitwise a 0 ∙ or_rounds-zero a a (omega arith)

or_rounds-le : (n a b : ℕ) → a ≤ n → a ≤ rounds (λ b. b) max n a b
or_rounds-le zero a b h = omega arith
or_rounds-le (suc n) zero b h = omega arith
or_rounds-le (suc n) (suc a) b h = omega (arith, or_rounds-le n (suc a / 2) (b / 2) (omega arith))

pub bit_or-le : (a b : ℕ) → a ≤ bit_or a b
bit_or-le a b = omega (arith, bit_or-bitwise a b, or_rounds-le a a b (omega arith))

-- Digits below the `k`-th do not change those from there on.
pub bit_or_low : (k a b : ℕ) → b < 2 ^ k → bit_or a b / 2 ^ k ≡ a / 2 ^ k
bit_or_low zero a b bound =
    let e : b ≡ 0 = omega arith in ap (λ x. bit_or a x / 1) e ∙ ap (λ x. x / 1) (bit_or_zero a)
bit_or_low (suc k) a b bound =
    let shift : (x : ℕ) → x / 2 ^ suc k ≡ x / 2 / 2 ^ k =
      λ x. ap (λ v. x / v) (pow-succ' 2 k) ∙ sym (div-div-eq-div-mul x 2 (2 ^ k)) in
    let half : bit_or a b / 2 ≡ bit_or (a / 2) (b / 2) = omega (arith, bit_or-digit a b) in
    shift (bit_or a b)
    ∙ ap (λ x. x / 2 ^ k) half
    ∙ bit_or_low k (a / 2) (b / 2) (omega (arith, pow-succ' 2 k))
    ∙ sym (shift a)

bit_and-le_of : (n a b : ℕ) → b ≤ n → bit_and a b ≤ b
bit_and-le_of zero a b bound =
    let none_left : b ≡ 0 = omega arith in
    omega (arith, ap (λ (t : ℕ). bit_and a t) none_left, bit_and-zero a)
bit_and-le_of (suc n) a b bound =
    omega (arith, bit_and-digit a b, bit_and-le_of n (a / 2) (b / 2) (omega arith))

-- A mask bounds what it lets through.
pub bit_and-le : (a b : ℕ) → bit_and a b ≤ b
bit_and-le a b = bit_and-le_of b a b (omega arith)

-- The mask of the three low digits, and alignment to 8.
pub bit_and_seven : (a : ℕ) → bit_and a 7 ≡ a % 8
bit_and_seven a = omega (
  arith,
  bit_and-digit a 7,
  bit_and-digit (a / 2) 3,
  bit_and-digit (a / 2 / 2) 1,
  bit_and-zero (a / 2 / 2 / 2),
)

pub bit_or-aligned : (a b : ℕ) → bit_or a b % 8 ≡ 0 → (a % 8 ≡ 0) × (b % 8 ≡ 0)
bit_or-aligned a b h =
    omega
      (arith, bit_or-digit a b, bit_or-digit (a / 2) (b / 2), bit_or-digit (a / 2 / 2) (b / 2 / 2))

-- The mask of the eight low digits.
pub bit_and_byte : (a : ℕ) → bit_and a 0xff ≡ a % 256
bit_and_byte a = omega (
  arith,
  bit_and-digit a 0xff,
  bit_and-digit (a / 2) 0x7f,
  bit_and-digit (a / 2 / 2) 0x3f,
  bit_and-digit (a / 2 / 2 / 2) 0x1f,
  bit_and-digit (a / 2 / 2 / 2 / 2) 0xf,
  bit_and_seven (a / 2 / 2 / 2 / 2 / 2),
)

div_one : (a : ℕ) → a / 2 ^ 0 ≡ a
div_one a = omega arith

twice : (x : ℕ) → 2 * x ≡ x * 2
twice x = omega arith

doubled : (k y : ℕ) → y * 2 ^ suc k ≡ y * 2 ^ k * 2
doubled k y =
    ap (λ (t : ℕ). y * t) (pow-succ' 2 k)
    ∙ omega
        (arith, mul_assoc y 2 (2 ^ k), mul_assoc y (2 ^ k) 2, ap (λ (t : ℕ). y * t) (twice (2 ^ k)))

-- A mask in two parts: `x` for the `k` low digits, and `y` for the digits above them.
pub bit_and-parts :
    (k a y x : ℕ)
    → x < 2 ^ k
    → bit_and a (y * 2 ^ k + x) ≡ bit_and (a / 2 ^ k) y * 2 ^ k + bit_and a x
bit_and-parts zero a y x h =
    let nothing : x ≡ 0 = omega arith in
    let same : y * 2 ^ 0 + x ≡ y = omega arith in
    let whole : bit_and a (y * 2 ^ 0 + x) ≡ bit_and a y = ap (bit_and a) same in
    let low : bit_and a x ≡ bit_and a 0 = ap (bit_and a) nothing in
    let high : bit_and (a / 2 ^ 0) y ≡ bit_and a y = ap (λ (t : ℕ). bit_and t y) (div_one a) in
    omega (arith, whole, low, high, bit_and-zero a)
bit_and-parts (suc k) a y x h =
    let whole : (y * 2 ^ suc k + x) / 2 ≡ y * 2 ^ k + x / 2 = omega (arith, doubled k y) in
    let last : (y * 2 ^ suc k + x) % 2 ≡ x % 2 = omega (arith, doubled k y) in
    let low : x / 2 < 2 ^ k = omega (arith, pow-succ' 2 k) in
    let above : a / 2 / 2 ^ k ≡ a / 2 ^ suc k =
      div-div-eq-div-mul a 2 (2 ^ k) ∙ ap (λ t. a / t) (sym (pow-succ' 2 k)) in
    bit_and-digit a (y * 2 ^ suc k + x)
    ∙ ap₂ (λ s t. s * 2 + min (a % 2) t)
        (ap (bit_and (a / 2)) whole ∙ bit_and-parts k (a / 2) y (x / 2) low) last
    ∙ omega (
      arith,
      bit_and-digit a x,
      doubled k (bit_and (a / 2 / 2 ^ k) y),
      ap (λ (t : ℕ). bit_and t y * 2 ^ suc k) above,
    )

low_digits : (k n : ℕ) → n / 2 % 2 ^ k * 2 + n % 2 ≡ n % 2 ^ suc k
low_digits k n =
    let low = n / 2 % 2 ^ k * 2 + n % 2 in
    let q = n / 2 / 2 ^ k in
    let below : low < 2 ^ suc k =
      omega (arith, mod-lt (n / 2) (one-le-pow k 2 (omega arith)), pow-succ' 2 k) in
    let whole : low + q * 2 ^ suc k ≡ n =
      omega (arith, mod-add-div' (n / 2) (2 ^ k), doubled k q) in
    sym (mod-eq_of_lt below)
    ∙ sym (add-mul-mod_self_right low q (2 ^ suc k))
    ∙ ap (λ (t : ℕ). t % 2 ^ suc k) whole

-- The mask of the `k` low digits.
pub bit_and_low : (k n : ℕ) → bit_and n (2 ^ k - 1) ≡ n % 2 ^ k
bit_and_low zero n = omega (arith, bit_and-zero n)
bit_and_low (suc k) n =
    let half : (2 ^ suc k - 1) / 2 ≡ 2 ^ k - 1 = omega (arith, pow-succ' 2 k) in
    let last : (2 ^ suc k - 1) % 2 ≡ 1 =
      omega (arith, pow-succ' 2 k, one-le-pow k 2 (omega arith)) in
    let digit : min (n % 2) 1 ≡ n % 2 = omega arith in
    bit_and-digit n (2 ^ suc k - 1)
    ∙ ap₂ (λ s t. s * 2 + min (n % 2) t) (ap (bit_and (n / 2)) half ∙ bit_and_low k (n / 2)) last
    ∙ ap (λ (t : ℕ). n / 2 % 2 ^ k * 2 + t) digit
    ∙ low_digits k n

pub pow_add : (d k : ℕ) → 2 ^ (d + k) ≡ 2 ^ d * 2 ^ k
pow_add d zero = let same : d + 0 ≡ d = omega arith in ap (λ (t : ℕ). 2 ^ t) same ∙ omega arith
pow_add d (suc k) =
    let next : d + suc k ≡ suc (d + k) = omega arith in
    ap (λ (t : ℕ). 2 ^ t) next ∙ omega (arith, pow-succ' 2 (d + k), pow_add d k, doubled k (2 ^ d))

bit_and_self : (n a : ℕ) → a ≤ n → bit_and a a ≡ a
bit_and_self zero a bound =
    let nothing : a ≡ 0 = omega arith in
    omega (arith, ap (λ (t : ℕ). bit_and a t) nothing, bit_and-zero a)
bit_and_self (suc n) a bound =
    omega (arith, bit_and-digit a a, bit_and_self n (a / 2) (omega arith))

mod-two : (a : ℕ) → (a % 2 ≡ 0) ⊎ (a % 2 ≡ 1)
mod-two a = omega arith

power_of_two : (n a : ℕ) → a ≤ n → 0 < a → bit_and a (a - 1) ≡ 0 → (k : ℕ) × (a ≡ 2 ^ k)
power_of_two zero a bound pos alone = absurd (omega arith)
power_of_two (suc n) a bound pos alone = elim (mod-two a) [
  | inl even ↦
      let below : (a - 1) / 2 ≡ a / 2 - 1 = omega arith in
      let half : bit_and (a / 2) (a / 2 - 1) ≡ 0 =
        omega (arith, bit_and-digit a (a - 1), ap (λ (t : ℕ). bit_and (a / 2) t) below) in
      let (k, power) = power_of_two n (a / 2) (omega arith) (omega arith) half in
      (suc k, omega (arith, power, pow-succ' 2 k))
  | inr odd ↦
      let below : (a - 1) / 2 ≡ a / 2 = omega arith in
      let half : bit_and (a / 2) (a / 2) ≡ 0 =
        omega (arith, bit_and-digit a (a - 1), ap (λ (t : ℕ). bit_and (a / 2) t) below) in
      (0, omega (arith, half, bit_and_self (a / 2) (a / 2) (omega arith)))
]

-- A number that shares no digit with the one before it has one digit.
pub bit_and_pred : (a : ℕ) → 0 < a → bit_and a (a - 1) ≡ 0 → (k : ℕ) × (a ≡ 2 ^ k)
bit_and_pred a pos alone = power_of_two a a (omega arith) pos alone
