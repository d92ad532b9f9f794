-- ===== src/Runtime/Roundtrip.antt =====
-- syscalls.c: what `sprintf` prints of a number `atol` reads back.
use native.Mathlib.Nat.{mod-eq_of_lt}
use rv32i_pipeline_fpga.Common.{
  ℕ, suc, ◌+◌, ◌-◌, ◌%◌, ◌^◌, ◌<◌, ◌≡◌, refl, sym, ap, subst, ◌∙◌, true, ◌==◌, Option, some, List,
  [], ◌∷◌, length, arith,
}
use rv32i_pipeline_fpga.Runtime.{Memory, put_bytes, ◌>>=◌}
use rv32i_pipeline_fpga.Runtime.Strings
use rv32i_pipeline_fpga.Runtime.Text.{IsString}
use rv32i_pipeline_fpga.Runtime.Print.{
  Target, sprintf_putch, sprintf, vprintfmt, sequence, switch, switch_flags, switch_arg,
  start_flags, printnum, Flags, minus_one, getuint,
}
use rv32i_pipeline_fpga.Runtime.Syscalls.{atol}
use rv32i_pipeline_fpga.Runtime.Numbers.{digit_chars, number, AreDigits, no_sign, atol_lem}
use rv32i_pipeline_fpga.Runtime.Decimal.{
  put_all, printnum_lem, text, text-turned, turned, number-turned, AreDigits-turned, value,
  AllBelow, length-turned,
}

-- The state after `sprintf` put characters, and its terminating 0.
abbrev print_all : List ℕ → Target → Target
print_all = put_all sprintf_putch

abbrev finished : Target → Memory
finished t = put_bytes t.str 1 (λ _. 0) t.bytes

print_all-below :
    (cs : List ℕ) (t : Target) (k : ℕ) → k < t.str → (print_all cs t).bytes k ≡ t.bytes k
unfolding sprintf_putch
print_all-below [] t k h = refl
print_all-below (c ∷ cs) t k h =
    print_all-below cs (sprintf_putch c t) k (omega arith) ∙ ground arith

print_all-str : (cs : List ℕ) (t : Target) → (print_all cs t).str ≡ t.str + length cs
unfolding sprintf_putch
print_all-str [] t = omega arith
print_all-str (c ∷ cs) t = print_all-str cs (sprintf_putch c t) ∙ omega arith

abbrev AreChars : List ℕ → Type 0
AreChars [] = Unit {0}
AreChars (c ∷ cs) = (0 < c) × (c < 256) × AreChars cs

print_all-IsString :
    (cs : List ℕ) (t : Target) → AreChars cs → IsString (finished (print_all cs t)) t.str cs
unfolding sprintf_putch
print_all-IsString [] t chars = ground arith
print_all-IsString (c ∷ cs) t (nonzero, small, chars) =
    let u = sprintf_putch c t in
    let kept = print_all-below cs u t.str (omega arith) in
    let end = print_all-str cs u in
    (ground (arith, kept, end), (λ e. omega arith), print_all-IsString cs u chars)

AreChars-digits : (ds : List ℕ) → AreDigits ds → AreChars (digit_chars ds)
AreChars-digits [] digits = tt
AreChars-digits (d ∷ ds) (small, digits) = (omega arith, omega arith, AreChars-digits ds digits)

module _ (null_text fuel fmt n : ℕ) (more : List ℕ) (s : Target) where
  abbrev print : ℕ → ℕ → List ℕ → Target → Option Target
  print = vprintfmt sprintf_putch (λ t. t.bytes) null_text

  abbrev after_percent : ℕ → Flags → ℕ → List ℕ → Target → Option Target
  after_percent = sequence sprintf_putch (λ t. t.bytes) null_text

  percent :
      s.bytes fmt ≡ b'%'
      → print (suc fuel) fmt (n ∷ more) s
        ≡ after_percent fuel (start_flags (fmt + 1)) (fmt + 1) (n ∷ more) s
  unfolding vprintfmt
  percent at = rw (at, vprintfmt) refl

  long_flag :
      (f : Flags)
      → s.bytes fmt ≡ b'l'
      → after_percent (suc fuel) f fmt (n ∷ more) s
        ≡ after_percent fuel (record f { lflag = f.lflag + 1 }) (fmt + 1) (n ∷ more) s
  unfolding sequence switch switch_flags
  long_flag f at = rw (at, sequence) refl

  unsigned_decimal :
      (f : Flags)
      → s.bytes fmt ≡ b'u'
      → after_percent (suc fuel) f fmt (n ∷ more) s
        ≡ print fuel (fmt + 1) more (printnum sprintf_putch (getuint f.lflag n) 10 f.width f.padc s)
  unfolding sequence switch switch_arg
  unsigned_decimal f at = rw (at, sequence) refl

  end_of_format : s.bytes fmt ≡ 0 → print (suc fuel) fmt more s ≡ some s
  unfolding vprintfmt
  end_of_format at =
      let last : (s.bytes fmt == 0) ≡ true = ground arith in rw (at, vprintfmt, last) refl

-- The format "%lu".
abbrev pub lu_format : List ℕ
lu_format = b'%' ∷ b'l' ∷ b'u' ∷ []

printed :
    (fuel null_text str fmt n : ℕ) (m : Memory)
    → n < 2 ^ 64
    → fmt + 3 < str
    → IsString m fmt lu_format
    → (digs : List ℕ) × (sprintf (suc (suc (suc (suc fuel)))) null_text str fmt (n ∷ []) m ≡ (
        let t = print_all (text digs) (record { bytes = m; str = str }) in
        some (t.str - str, finished t)))
      × (value 10 digs ≡ n)
      × AllBelow 10 digs
      × (0 < length digs)
unfolding sprintf start_flags getuint
printed fuel null_text str fmt n m small apart (percent_at, _, (l_at, _, (u_at, _, end_at))) =
    let start : Target = record { bytes = m; str = str } in
    let (digs, shown, sum, below, some_digit, _) =
      printnum_lem sprintf_putch n 10 minus_one b' ' start (omega arith) small in
    let t = print_all (text digs) start in
    let kept : t.bytes (fmt + 1 + 1 + 1) ≡ 0 =
      print_all-below (text digs) start (fmt + 1 + 1 + 1) (omega arith) ∙ end_at in
    let chain =
      percent null_text (suc (suc (suc fuel))) fmt n [] start percent_at
      ∙ long_flag null_text (suc (suc fuel)) (fmt + 1) n [] start (start_flags (fmt + 1)) l_at
      ∙ unsigned_decimal null_text (suc fuel) (fmt + 1 + 1) n [] start
          (record (start_flags (fmt + 1)) { lflag = 1 }) u_at
      ∙ ap (vprintfmt sprintf_putch (λ u. u.bytes) null_text (suc fuel) (fmt + 1 + 1 + 1) []) shown
      ∙ end_of_format null_text fuel (fmt + 1 + 1 + 1) n [] t kept in
    (digs, ap (λ r. r >>= (λ u. some (u.str - str, finished u))) chain, sum, below, some_digit)

length-digit_chars : (ds : List ℕ) → length (digit_chars ds) ≡ length ds
length-digit_chars [] = refl
length-digit_chars (d ∷ ds) = omega (arith, length-digit_chars ds)

atol-chars :
    (xs cs : List ℕ) (m : Memory) (str n : ℕ)
    → cs ≡ digit_chars xs
    → 0 < length xs
    → AreDigits xs
    → IsString m str cs
    → number 0 xs ≡ n
    → n < 2 ^ 64
    → atol (2 + length cs) m str ≡ some n
unfolding atol
atol-chars [] cs m str n e long digits chars total small = absurd (omega arith)
atol-chars (d ∷ ds) cs m str n e long (first, digits) chars total small =
    let whole : number d ds ≡ n = ap (λ a. number a ds) (omega arith) ∙ total in
    subst (λ c. Strings.atol (2 + length c) m str ≡ some n) (sym e)
      (atol_lem (2 + length (digit_chars (d ∷ ds))) 0 d no_sign m str ds (omega arith)
          (omega (arith, length-digit_chars ds)) first digits (subst (IsString m str) e chars)
        ∙ ap some (ap (λ k. k % 2 ^ 64) whole ∙ mod-eq_of_lt small))

-- A number of 64 bits that `sprintf` prints with "%lu", the text apart from the format, is what
-- `atol` reads in the text; the count that `sprintf` returns is the text's length.
pub atol-sprintf :
    (fuel null_text str fmt n : ℕ) (m : Memory)
    → n < 2 ^ 64
    → fmt + 3 < str
    → IsString m fmt lu_format
    → (cs : List ℕ) × (m' : Memory) × (sprintf
          (suc (suc (suc (suc fuel))))
          null_text
          str
          fmt
          (n ∷ [])
          m
        ≡ some (length cs, m'))
      × IsString m' str cs
      × (atol (2 + length cs) m' str ≡ some n)
atol-sprintf fuel null_text str fmt n m small apart format =
    let (digs, e, sum, below, some_digit) = printed fuel null_text str fmt n m small apart format in
    let start : Target = record { bytes = m; str = str } in
    let t = print_all (text digs) start in
    let digits = AreDigits-turned digs below in
    let same : text digs ≡ digit_chars (turned digs) = text-turned digs below in
    let count : t.str - str ≡ length (text digs) = omega (arith, print_all-str (text digs) start) in
    let is_string : IsString (finished t) str (text digs) =
      print_all-IsString (text digs) start
        (subst AreChars (sym same) (AreChars-digits (turned digs) digits)) in
    let total : number 0 (turned digs) ≡ n = number-turned digs ∙ sum in
    (
      text digs,
      finished t,
      e ∙ ap (λ k. some (k, finished t)) count,
      is_string,
      atol-chars (turned digs) (text digs) (finished t) str n same
          (omega (arith, length-turned digs)) digits is_string total small,
    )
