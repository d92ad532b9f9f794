-- ===== src/Runtime/Print.antt =====
-- The formatted output of riscv-tests/benchmarks/common/syscalls.c.
--
-- `putch` is a parameter, a step on a state of any type `S`, of which `memory` reads the memory.
-- The `va_list` is the list of the 64-bit argument slots. The first argument of a function with a
-- loop bounds the rounds; `none` is a loop that takes more, or an argument that is not there.
use rv32i_pipeline_fpga.Common.{
  ℕ, zero, suc, ◌+◌, ◌-◌, ◌*◌, ◌/◌, ◌%◌, ◌^◌, Bool, true, false, not, ◌&&◌, ◌||◌, ltb, leb, ◌==◌,
  if◌then◌else◌, Option, none, some, List, [], ◌∷◌, ◌++◌, length,
}
use rv32i_pipeline_fpga.Common.Int.{ℤ, pos, negsuc, lt_int, signed}
use rv32i_pipeline_fpga.Runtime.{Memory, put_bytes, ◌>>=◌}
use rv32i_pipeline_fpga.Runtime.Syscalls.{strnlen}

-- The digits of `num` as the loop of `printnum` fills `digs`, the lowest first; the array has 64
-- places.
unfoldable pub digs_loop : ℕ → ℕ → ℕ → List ℕ
digs_loop zero num base = []
digs_loop (suc room) num base =
    let rest = digs_loop room (num / base) base in
    (num % base) ∷ (if ltb num base then [] else rest)

-- The character of a digit.
abbrev pub digit_char : ℕ → ℕ
digit_char d = d + (if leb 10 d then b'a' - 10 else b'0')

unfoldable pub getuint : ℕ → ℕ → ℕ
getuint lflag arg = if leb 2 lflag then arg else if not (lflag == 0) then arg else arg % 2 ^ 32

-- The `long long` as its 64-bit pattern.
unfoldable pub getint : ℕ → ℕ → ℕ
getint lflag arg =
    if leb 2 lflag
    then arg
    else if not (lflag == 0)
    then arg
    else if ltb (arg % 2 ^ 32) (2 ^ 31)
    then arg % 2 ^ 32
    else arg % 2 ^ 32 + (2 ^ 64 - 2 ^ 32)

-- What a `%` sequence has set so far, and `last_fmt`.
pub record Flags : Type 0 where
  pub padc : ℕ
  pub width : ℤ
  pub precision : ℤ
  pub lflag : ℕ
  pub altflag : Bool
  pub last_fmt : ℕ

abbrev pub minus_one : ℤ
minus_one = negsuc 0

unfoldable pub start_flags : ℕ → Flags
start_flags fmt = record {
  padc = b' ';
  width = minus_one;
  precision = minus_one;
  lflag = 0;
  altflag = false;
  last_fmt = fmt;
}

-- The code at the label `process_precision`.
unfoldable pub process_precision : Flags → Flags
process_precision f =
    if lt_int f.width (pos 0) then record f { width = f.precision; precision = minus_one } else f

-- The loop of the width field, from the digit `ch` on: `precision`, and `fmt` after it.
unfoldable pub precision_loop : ℕ → Memory → ℕ → ℕ → ℕ → Option (ℕ × ℕ)
precision_loop zero m fmt precision ch = none
precision_loop (suc fuel) m fmt precision ch =
    let value = precision * 10 + ch - b'0' in
    let next = m fmt in
    let rest = precision_loop fuel m (fmt + 1) value next in
    if ltb next b'0' || ltb b'9' next then some (value, fmt) else rest

-- `z - n`.
abbrev pub sub_int : ℤ → ℕ → ℤ
sub_int (pos a) n = if leb n a then pos (a - n) else negsuc (n - a - 1)
sub_int (negsuc a) n = negsuc (a + n)

-- How often a loop runs that counts `z` down to 0.
abbrev pub rounds_of : ℤ → ℕ
rounds_of (pos n) = n
rounds_of (negsuc n) = 0

-- An `int` as a `size_t`.
abbrev pub size_of : ℤ → ℕ
size_of (pos n) = n
size_of (negsuc n) = 2 ^ 64 - 1 - n

-- What the `switch` does with one character: go back to `reswitch`, or finish the sequence.
pub data Next {ℓ} (S : Type ℓ) : Type ℓ where
  reswitch : Flags → ℕ → List ℕ → Next S
  break_out : ℕ → List ℕ → S → Next S

module _ {ℓ} {S : Type ℓ} (putch : ℕ → S → S) where
  -- `n` calls of `putch`.
  unfoldable pub pad : ℕ → ℕ → S → S
  pad zero ch s = s
  pad (suc n) ch s = pad n ch (putch ch s)

  -- The last loop of `printnum`: the highest digit first.
  unfoldable pub put_digits : List ℕ → S → S
  put_digits [] s = s
  put_digits (d ∷ ds) s = putch (digit_char d) (put_digits ds s)

  unfoldable pub printnum : ℕ → ℕ → ℤ → ℕ → S → S
  printnum num base width padc s =
      let digs = digs_loop 64 num base in
      put_digits digs (pad (rounds_of (sub_int width (length digs))) padc s)

  -- `%d` of the slot `arg`.
  unfoldable pub put_signed : Flags → ℕ → S → S
  put_signed f arg s =
      let num = getint f.lflag arg in
      if leb (2 ^ 63) num
      then printnum ((2 ^ 64 - num) % 2 ^ 64) 10 f.width f.padc (putch b'-' s)
      else printnum num 10 f.width f.padc s

module _ {ℓ} {S : Type ℓ} (putch : ℕ → S → S) (memory : S → Memory) (null_text : ℕ) where
  -- The loop of `%s` over the characters from `p` on: the width that is left, and the state.
  unfoldable pub string_loop : ℕ → ℕ → ℤ → ℤ → S → Option (ℤ × S)
  string_loop zero p precision width s = none
  string_loop (suc fuel) p precision width s =
      let ch = memory s p in
      let shorter = if lt_int precision (pos 0) then precision else sub_int precision 1 in
      let rest = string_loop fuel (p + 1) shorter (sub_int width 1) (putch ch s) in
      if not (ch == 0) && (lt_int precision (pos 0) || not (lt_int shorter (pos 0)))
      then rest
      else some (width, s)

  -- `%s` of the address `arg`.
  unfoldable pub put_string : ℕ → Flags → ℕ → S → Option S
  put_string fuel f arg s = do
    let p = if arg == 0 then null_text else arg
    let limit = size_of f.precision
    let right = lt_int (pos 0) f.width && not (f.padc == b'-')
    let left = sub_int f.width (strnlen (memory s) p limit)
    let width = if right then (if lt_int (pos 0) left then pos 0 else left) else f.width
    let padded = if right then pad putch (rounds_of left) f.padc s else s
    (width', s') ← string_loop fuel p f.precision width padded
    some (pad putch (rounds_of width') b' ' s')

  -- The conversions that take no argument, and the flags, for the character `ch` before `fmt`.
  unfoldable pub switch_flags : ℕ → ℕ → Flags → ℕ → List ℕ → S → Option (Next S)
  switch_flags fuel ch f fmt ap s =
      if ch == b'-'
      then some (reswitch (record f { padc = b'-' }) fmt ap)
      else if ch == b'0'
      then some (reswitch (record f { padc = b'0' }) fmt ap)
      else if leb b'1' ch && leb ch b'9'
      then (do
        (precision, fmt') ← precision_loop fuel (memory s) fmt 0 ch
        some (reswitch (process_precision (record f { precision = pos precision })) fmt' ap))
      else if ch == b'.'
      then some (reswitch (if lt_int f.width (pos 0) then record f { width = pos 0 } else f) fmt ap)
      else if ch == b'#'
      then some (reswitch (record f { altflag = true }) fmt ap)
      else if ch == b'l'
      then some (reswitch (record f { lflag = f.lflag + 1 }) fmt ap)
      else if ch == b'%'
      then some (break_out fmt ap (putch ch s))
      else some (break_out f.last_fmt ap (putch b'%' s))

  -- The conversions that take the argument `arg`; `ap` has the others.
  unfoldable pub switch_arg : ℕ → ℕ → Flags → ℕ → ℕ → List ℕ → S → Option (Next S)
  switch_arg fuel ch f fmt arg ap s =
      if ch == b'*'
      then some
          (reswitch (process_precision (record f { precision = signed (arg % 2 ^ 32) })) fmt ap)
      else if ch == b'c'
      then some (break_out fmt ap (putch (arg % 2 ^ 32) s))
      else if ch == b's'
      then (do s' ← put_string fuel f arg s; some (break_out fmt ap s'))
      else if ch == b'd'
      then some (break_out fmt ap (put_signed putch f arg s))
      else if ch == b'u'
      then some (break_out fmt ap (printnum putch (getuint f.lflag arg) 10 f.width f.padc s))
      else if ch == b'o'
      then some (break_out fmt ap (printnum putch (getuint f.lflag arg) 8 f.width f.padc s))
      else if ch == b'p'
      then some (
          break_out fmt ap
            (printnum putch (getuint 1 arg) 16 f.width f.padc (putch b'x' (putch b'0' s))))
      else some (break_out fmt ap (printnum putch (getuint f.lflag arg) 16 f.width f.padc s))

  -- The characters of the `switch` that call `va_arg`.
  abbrev pub takes_arg : ℕ → Bool
  takes_arg ch =
      ch == b'*'
      || ch == b'c'
      || ch == b's'
      || ch == b'd'
      || ch == b'u'
      || ch == b'o'
      || ch == b'p'
      || ch == b'x'

  unfoldable pub switch : ℕ → ℕ → Flags → ℕ → List ℕ → S → Option (Next S)
  switch fuel ch f fmt [] s = if takes_arg ch then none else switch_flags fuel ch f fmt [] s
  switch fuel ch f fmt (arg ∷ ap) s =
      if takes_arg ch
      then switch_arg fuel ch f fmt arg ap s
      else switch_flags fuel ch f fmt (arg ∷ ap) s

  unfoldable mutual
    -- The outer loop: plain characters up to a `%`, or the end.
    pub vprintfmt : ℕ → ℕ → List ℕ → S → Option S
    vprintfmt zero fmt ap s = none
    vprintfmt (suc fuel) fmt ap s =
        let ch = memory s fmt in
        elim (ch == b'%') [
          | true ↦ sequence fuel (start_flags (fmt + 1)) (fmt + 1) ap s
          | false ↦ elim (ch == 0) [
            | true ↦ some s
            | false ↦ vprintfmt fuel (fmt + 1) ap (putch ch s)
          ]
        ]

    -- From the label `reswitch` on.
    pub sequence : ℕ → Flags → ℕ → List ℕ → S → Option S
    sequence zero f fmt ap s = none
    sequence (suc fuel) f fmt ap s = elim (switch fuel (memory s fmt) f (fmt + 1) ap s) [
      | none ↦ none
      | some (reswitch f' fmt' ap') ↦ sequence fuel f' fmt' ap' s
      | some (break_out fmt' ap' s') ↦ vprintfmt fuel fmt' ap' s'
    ]

-- The memory, and where `sprintf` writes next.
pub record Target : Type 0 where
  pub bytes : Memory
  pub str : ℕ

unfoldable pub sprintf_putch : ℕ → Target → Target
sprintf_putch ch t = record { bytes = put_bytes t.str 1 (λ _. ch % 2 ^ 8) t.bytes; str = t.str + 1 }

-- The count of the characters, and the memory with the text and its terminating 0.
unfoldable pub sprintf : ℕ → ℕ → ℕ → ℕ → List ℕ → Memory → Option (ℕ × Memory)
sprintf fuel null_text str fmt ap m = do
  t ← vprintfmt sprintf_putch (λ t. t.bytes) null_text fuel fmt ap (record { bytes = m; str = str })
  some (t.str - str, put_bytes t.str 1 (λ _. 0) t.bytes)

-- The memory, and what went to the console.
pub record Console : Type 0 where
  pub bytes : Memory
  pub output : List ℕ

unfoldable pub putchar : ℕ → Console → Console
putchar ch c = record c { output = c.output ++ (ch % 2 ^ 8) ∷ [] }

unfoldable pub printf : ℕ → ℕ → ℕ → List ℕ → Console → Option Console
printf fuel null_text fmt ap c = vprintfmt putchar (λ c. c.bytes) null_text fuel fmt ap c

-- `while (*s)`, one character at a time.
unfoldable pub printstr : ℕ → ℕ → Console → Option Console
printstr zero s c = none
printstr (suc fuel) s c =
    let rest = printstr fuel (s + 1) (putchar (c.bytes s) c) in
    if c.bytes s == 0 then some c else rest

-- The loop of `printhex` with `n` rounds left, and the array `str` at the address `str`.
unfoldable pub printhex_loop : ℕ → ℕ → ℕ → Memory → Memory
printhex_loop zero x str m = m
printhex_loop (suc n) x str m =
    let i = 15 - n in
    let d = x % 16 in
    printhex_loop n (x / 16) str
      (put_bytes (str + (15 - i)) 1 (λ _. d + (if ltb d 10 then b'0' else b'a' - 10)) m)

unfoldable pub printhex : ℕ → ℕ → Console → Option Console
printhex x str c =
    printstr 17 str
      (record c { bytes = put_bytes (str + 16) 1 (λ _. 0) (printhex_loop 16 x str c.bytes) })
