-- ===== src/Runtime/Decimal.antt =====
-- printnum of syscalls.c: the digits that it prints, and what `sprintf` and `atol` make of them.
use native.Mathlib.Nat.{
  mod-eq_of_lt, mul-le-mul_left, mod-add-div, mod-lt, mul-div-le, pow-suc, pow-zero,
  div-lt_iff_lt-mul,
}
use rv32i_pipeline_fpga.Common.{
  ℕ, zero, suc, ◌+◌, ◌*◌, ◌/◌, ◌^◌, ◌<◌, ◌≤◌, ◌≡◌, refl, sym, ap, ◌∙◌, inl, inr, ltb, List, [], ◌∷◌,
  ◌++◌, length, ◌-◌, ◌⊎◌, subst, if◌then◌else◌, length-append, Bool-cases, arith,
}
use rv32i_pipeline_fpga.Common.Int.{ℤ}
use rv32i_pipeline_fpga.Runtime.Numbers.{digit_chars, number, AreDigits}
use rv32i_pipeline_fpga.Runtime.Print.{
  digs_loop, digit_char, pad, put_digits, printnum, sub_int, rounds_of,
}

-- The number of a list of digits, the lowest first.
abbrev pub value : ℕ → List ℕ → ℕ
value base [] = 0
value base (d ∷ ds) = d + base * value base ds

abbrev pub AllBelow : ℕ → List ℕ → Type 0
AllBelow base [] = Unit {0}
AllBelow base (d ∷ ds) = (d < base) × AllBelow base ds

quotient-lt : (room num base : ℕ) → 1 < base → num < 2 ^ suc room → num / base < 2 ^ room
quotient-lt room num base b small =
    let wide : 2 ^ room * 2 ≤ 2 ^ room * base = mul-le-mul_left (2 ^ room) b in
    (div-lt_iff_lt-mul {k = base} (omega arith)).1 (omega (arith, pow-suc 2 room))

room_for : (room num base : ℕ) → 1 < base → num < 2 ^ suc room → base ≤ num → 0 < room
room_for zero num base b small big = absurd (omega arith)
room_for (suc room) num base b small big = omega arith

digs_loop-value :
    (room num base : ℕ)
    → 1 < base
    → num < 2 ^ room
    → 0 < room
    → (value base (digs_loop room num base) ≡ num) × AllBelow base (digs_loop room num base)
unfolding digs_loop
digs_loop-value zero num base b small r = absurd (omega arith)
digs_loop-value (suc room) num base b small r = elim (Bool-cases (ltb num base)) [
  | inl last ↦ rw last (
    rw (mod-eq_of_lt {n = num} {m = base} (ground arith)) (omega arith),
    (mod-lt num (omega arith), tt),
  )
  | inr more ↦
      let big : base ≤ num = ground arith in
      let room_left : 0 < room = room_for room num base b small big in
      let (sum, below) =
        digs_loop-value room (num / base) base b (quotient-lt room num base b small) room_left in
      rw (more, sum) (mod-add-div num base, (mod-lt num (omega arith), below))
]

one_more : (num base k : ℕ) → base ≤ num → (k ≡ 0) ⊎ (base ^ k ≤ num / base) → base ^ suc k ≤ num
one_more num base k big (inl one) =
    let single : base ^ 1 ≡ base =
      pow-suc base 0 ∙ ap (λ z. z * base) (pow-zero base) ∙ omega arith in
    rw one (omega (arith, single))
one_more num base k big (inr more) =
    omega (arith, pow-suc base k, mul-le-mul_left base more, mul-div-le num base)

-- There are `k + 1` digits, and the highest is no needless 0.
digs_loop-leading :
    (room num base : ℕ)
    → (k : ℕ) × (length (digs_loop (suc room) num base) ≡ suc k) × ((k ≡ 0) ⊎ (base ^ k ≤ num))
unfolding digs_loop
digs_loop-leading zero num base = elim (Bool-cases (ltb num base)) [
  | inl last ↦ rw last (0, refl, inl refl)
  | inr more ↦ rw more (0, refl, inl refl)
]
digs_loop-leading (suc room) num base = elim (Bool-cases (ltb num base)) [
  | inl last ↦ rw last (0, refl, inl refl)
  | inr more ↦
      let (k, len, high) = digs_loop-leading room (num / base) base in
      rw more (suc k, ap suc len, inr (one_more num base k (ground arith) high))
]

-- The character of a digit: `0` to `9`, then the letters from `a` on.
abbrev pub character : ℕ → ℕ
character d = if ltb d 10 then b'0' + d else b'a' + (d - 10)

digit_char-character : (d : ℕ) → digit_char d ≡ character d
digit_char-character d = ground arith

-- The characters of the digits, the highest first.
abbrev pub text : List ℕ → List ℕ
text [] = []
text (d ∷ ds) = text ds ++ character d ∷ []

abbrev pub replicate : ℕ → ℕ → List ℕ
replicate zero ch = []
replicate (suc n) ch = ch ∷ replicate n ch

-- The same digits, the highest first.
abbrev pub turned : List ℕ → List ℕ
turned [] = []
turned (d ∷ ds) = turned ds ++ d ∷ []

number-append : (acc d : ℕ) (ds : List ℕ) → number acc (ds ++ d ∷ []) ≡ number acc ds * 10 + d
number-append acc d [] = refl
number-append acc d (x ∷ ds) = number-append (acc * 10 + x) d ds

pub number-turned : (ds : List ℕ) → number 0 (turned ds) ≡ value 10 ds
number-turned [] = refl
number-turned (d ∷ ds) = number-append 0 d (turned ds) ∙ omega (arith, number-turned ds)

digit_chars-append :
    (xs : List ℕ) (d : ℕ) → digit_chars (xs ++ d ∷ []) ≡ digit_chars xs ++ (b'0' + d) ∷ []
digit_chars-append [] d = refl
digit_chars-append (x ∷ xs) d = ap (λ t. (b'0' + x) ∷ t) (digit_chars-append xs d)

pub text-turned : (ds : List ℕ) → AllBelow 10 ds → text ds ≡ digit_chars (turned ds)
text-turned [] below = refl
text-turned (d ∷ ds) (small, below) =
    let char : character d ≡ b'0' + d = ground arith in
    rw (char, text-turned ds below) (sym (digit_chars-append (turned ds) d))

pub length-turned : (ds : List ℕ) → length (turned ds) ≡ length ds
length-turned [] = refl
length-turned (d ∷ ds) = length-append (turned ds) (d ∷ []) ∙ omega (arith, length-turned ds)

AreDigits-append : (xs : List ℕ) (d : ℕ) → d < 10 → AreDigits xs → AreDigits (xs ++ d ∷ [])
AreDigits-append [] d h a = (h, tt)
AreDigits-append (x ∷ xs) d h (small, a) = (small, AreDigits-append xs d h a)

pub AreDigits-turned : (ds : List ℕ) → AllBelow 10 ds → AreDigits (turned ds)
AreDigits-turned [] below = tt
AreDigits-turned (d ∷ ds) (small, below) =
    AreDigits-append (turned ds) d small (AreDigits-turned ds below)

module _ {ℓ} {S : Type ℓ} (putch : ℕ → S → S) where
  -- The state after the characters of a list.
  abbrev pub put_all : List ℕ → S → S
  put_all [] s = s
  put_all (c ∷ cs) s = put_all cs (putch c s)

  pub put_all-append : (xs ys : List ℕ) (s : S) → put_all (xs ++ ys) s ≡ put_all ys (put_all xs s)
  put_all-append [] ys s = refl
  put_all-append (x ∷ xs) ys s = put_all-append xs ys (putch x s)

  pad-put_all : (n ch : ℕ) (s : S) → pad putch n ch s ≡ put_all (replicate n ch) s
  unfolding pad
  pad-put_all zero ch s = refl
  pad-put_all (suc n) ch s = pad-put_all n ch (putch ch s)

  put_digits-put_all : (ds : List ℕ) (s : S) → put_digits putch ds s ≡ put_all (text ds) s
  unfolding put_digits
  put_digits-put_all [] s = refl
  put_digits-put_all (d ∷ ds) s = rw (digit_char-character d) (
      ap (putch (character d)) (put_digits-put_all ds s)
      ∙ sym (put_all-append (text ds) (character d ∷ []) s))

  -- For every number of 64 bits, base above 1 and field width, `printnum` puts the padding and then
  -- the number's digits in that base, the highest first; they are one or more digits of the base,
  -- make the number, and have no leading zero but for the number 0 itself, a single one.
  pub printnum_lem :
      (num base : ℕ) (width : ℤ) (padc : ℕ) (s : S)
      → 1 < base
      → num < 2 ^ 64
      → (digs : List ℕ) × (printnum putch num base width padc s
          ≡ put_all (replicate (rounds_of (sub_int width (length digs))) padc ++ text digs) s)
        × (value base digs ≡ num)
        × AllBelow base digs
        × (0 < length digs)
        × ((length digs ≡ 1) ⊎ (base ^ (length digs - 1) ≤ num))
  unfolding printnum
  printnum_lem num base width padc s wide small =
      let digs = digs_loop 64 num base in
      let n = rounds_of (sub_int width (length digs)) in
      let (sum, below) = digs_loop-value 64 num base wide small (omega arith) in
      let (k, len, high) = digs_loop-leading 63 num base in
      (
        digs,
        put_digits-put_all digs (pad putch n padc s)
            ∙ ap (put_all (text digs)) (pad-put_all n padc s)
            ∙ sym (put_all-append (replicate n padc) (text digs) s),
        sum,
        below,
        omega (arith, len),
        elim high [
          | inl one ↦ inl (len ∙ ap suc one)
          | inr large ↦
              let at : k ≡ length digs - 1 = omega (arith, len) in
              inr (subst (λ z. base ^ z ≤ num) at large)
        ],
      )
