-- ===== src/Runtime/Numbers.antt =====
-- strcpy and atol of riscv-tests/env/v/string.c.
use rv32i_pipeline_fpga.Common.{
  ℕ, zero, suc, ◌+◌, ◌-◌, ◌*◌, ◌%◌, ◌^◌, ◌<◌, ◌≡◌, ◌≢◌, refl, ap, subst, ◌∙◌, false, ◌==◌, some,
  List, [], ◌∷◌, length, ◌⊎◌, arith,
}
use rv32i_pipeline_fpga.Runtime.{Memory, put_bytes, bytes_at}
use rv32i_pipeline_fpga.Runtime.Strings.{strcpy, atol, atol_blanks, atol_digits}
use rv32i_pipeline_fpga.Runtime.Copy.{Disjoint, copy-split}
use rv32i_pipeline_fpga.Runtime.Text.{IsString}

-- A byte written outside a string leaves the string.
IsString-put :
    (cs : List ℕ) (m : Memory) (s d : ℕ) (f : ℕ → ℕ)
    → (d < s) ⊎ (s + length cs < d)
    → IsString m s cs
    → IsString (put_bytes d 1 f m) s cs
IsString-put [] m s d f clear text = ground arith
IsString-put (c ∷ cs) m s d f clear (at, ne, rest) =
    (ground arith, ne, IsString-put cs m (s + 1) d f (ground arith) rest)

strcpy-put :
    (cs : List ℕ) (fuel d src : ℕ) (m : Memory)
    → length cs < fuel
    → Disjoint d src (1 + length cs)
    → IsString m src cs
    → strcpy fuel d src m ≡ some (put_bytes d (1 + length cs) (bytes_at m src) m)
unfolding strcpy
strcpy-put cs zero d src m enough apart text = absurd (omega arith)
strcpy-put [] (suc fuel) d src m enough apart text = rw text refl
strcpy-put (c ∷ cs) (suc fuel) d src m enough apart (at, ne, rest) =
    let m' = put_bytes d 1 (bytes_at m src) m in
    let more : (m src == 0) ≡ false = ground arith in
    let clear : (d < src + 1) ⊎ (src + 1 + length cs < d) = ground arith in
    let count : suc (length cs) ≡ 1 + length cs = omega arith in
    rw (more, count)
      (strcpy-put cs fuel (d + 1) (src + 1) m' (omega arith) (ground arith)
          (IsString-put cs m (src + 1) d (bytes_at m src) clear rest)
        ∙ ap some (copy-split 1 d src (1 + length cs) m (ground arith)))

-- With a round for each character and one more, and a destination apart from the string, `strcpy`
-- copies the string with its terminating 0, and changes no other byte.
pub strcpy_lem :
    (fuel dest src : ℕ) (m : Memory) (cs : List ℕ)
    → length cs < fuel
    → Disjoint dest src (1 + length cs)
    → IsString m src cs
    → strcpy fuel dest src m ≡ some (put_bytes dest (1 + length cs) (bytes_at m src) m)
strcpy_lem fuel dest src m cs enough apart text = strcpy-put cs fuel dest src m enough apart text

-- Decimal digits as characters, and the number that they continue.
abbrev pub digit_chars : List ℕ → List ℕ
digit_chars [] = []
digit_chars (d ∷ ds) = (b'0' + d) ∷ digit_chars ds

abbrev pub number : ℕ → List ℕ → ℕ
number acc [] = acc
number acc (d ∷ ds) = number (acc * 10 + d) ds

abbrev pub AreDigits : List ℕ → Type 0
AreDigits [] = Unit {0}
AreDigits (d ∷ ds) = (d < 10) × AreDigits ds

abbrev pub blanks : ℕ → List ℕ → List ℕ
blanks zero cs = cs
blanks (suc n) cs = b' ' ∷ blanks n cs

atol_digits-number :
    (ds : List ℕ) (fuel : ℕ) (m : Memory) (str res acc : ℕ)
    → length ds < fuel
    → AreDigits ds
    → IsString m str (digit_chars ds)
    → res ≡ acc % 2 ^ 64
    → atol_digits fuel m str res ≡ some (number acc ds % 2 ^ 64)
unfolding atol_digits
atol_digits-number ds zero m str res acc enough digits text e = absurd (omega arith)
atol_digits-number [] (suc fuel) m str res acc enough digits text e = rw text (ap some e)
atol_digits-number (d ∷ ds) (suc fuel) m str res acc enough (small, digits) (at, ne, rest) e =
    let more : (m str == 0) ≡ false = ground arith in
    rw more (
      atol_digits-number ds fuel m (str + 1) _ (acc * 10 + d) (omega arith) digits rest
        (omega arith))

atol_blanks-skip :
    (n fuel : ℕ) (m : Memory) (str c : ℕ) (cs : List ℕ)
    → n < fuel
    → c ≢ b' '
    → IsString m str (blanks n (c ∷ cs))
    → atol_blanks fuel m str ≡ some (str + n)
unfolding atol_blanks
atol_blanks-skip n zero m str c cs enough ne text = absurd (omega arith)
atol_blanks-skip zero (suc fuel) m str c cs enough ne (at, _, _) = ground arith
atol_blanks-skip (suc n) (suc fuel) m str c cs enough ne (at, _, rest) =
    rw at (atol_blanks-skip n fuel m (str + 1) c cs (omega arith) ne rest ∙ ap some (omega arith))

IsString-blanks :
    (n : ℕ) (m : Memory) (str : ℕ) (cs : List ℕ)
    → IsString m str (blanks n cs)
    → IsString m (str + n) cs
IsString-blanks zero m str cs text = subst (λ k. IsString m k cs) (omega arith) text
IsString-blanks (suc n) m str cs (at, _, rest) =
    subst (λ k. IsString m k cs) (omega arith) (IsString-blanks n m (str + 1) cs rest)

pub data Sign : Type 0 where
  no_sign plus minus : Sign

abbrev pub sign_chars : Sign → List ℕ → List ℕ
sign_chars no_sign cs = cs
sign_chars plus cs = b'+' ∷ cs
sign_chars minus cs = b'-' ∷ cs

-- A `long` of that sign and magnitude, as its 64-bit pattern.
abbrev pub signed_long : Sign → ℕ → ℕ
signed_long minus v = (2 ^ 64 - v % 2 ^ 64) % 2 ^ 64
signed_long _ v = v % 2 ^ 64

-- `atol` of blanks, an optional sign and decimal digits gives the number with that sign, as a `long`
-- that wraps, when each loop has a round for each character that it passes and one more.
pub atol_lem :
    (fuel n d : ℕ) (sign : Sign) (m : Memory) (str : ℕ) (ds : List ℕ)
    → n < fuel
    → length ds + 1 < fuel
    → d < 10
    → AreDigits ds
    → IsString m str (blanks n (sign_chars sign (digit_chars (d ∷ ds))))
    → atol fuel m str ≡ some (signed_long sign (number d ds))
unfolding atol
atol_lem fuel n d no_sign m str ds room1 room2 small digits text =
    let (at, ne, rest) = IsString-blanks n m str (digit_chars (d ∷ ds)) text in
    let blank =
      atol_blanks-skip n fuel m str (b'0' + d) (digit_chars ds) room1 (λ e. omega arith) text in
    let minus_test : (m (str + n) == b'-') ≡ false = ground arith in
    let plus_test : (m (str + n) == b'+') ≡ false = ground arith in
    let first : 0 * 10 + d ≡ d = omega arith in
    let value =
      atol_digits-number (d ∷ ds) fuel m (str + n) 0 0 (omega arith) (small, digits) (at, ne, rest)
        refl in
    rw (blank, minus_test, plus_test, value, first) refl
atol_lem fuel n d plus m str ds room1 room2 small digits text =
    let (at, ne, rest) = IsString-blanks n m str (b'+' ∷ digit_chars (d ∷ ds)) text in
    let blank =
      atol_blanks-skip n fuel m str b'+' (digit_chars (d ∷ ds)) room1 (λ e. omega arith) text in
    let first : 0 * 10 + d ≡ d = omega arith in
    let value =
      atol_digits-number (d ∷ ds) fuel m (str + n + 1) 0 0 (omega arith) (small, digits) rest
        refl in
    rw (blank, at, value, first) refl
atol_lem fuel n d minus m str ds room1 room2 small digits text =
    let (at, ne, rest) = IsString-blanks n m str (b'-' ∷ digit_chars (d ∷ ds)) text in
    let blank =
      atol_blanks-skip n fuel m str b'-' (digit_chars (d ∷ ds)) room1 (λ e. omega arith) text in
    let first : 0 * 10 + d ≡ d = omega arith in
    let value =
      atol_digits-number (d ∷ ds) fuel m (str + n + 1) 0 0 (omega arith) (small, digits) rest
        refl in
    rw (blank, at, value, first) refl
