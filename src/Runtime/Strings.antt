-- ===== src/Runtime/Strings.antt =====
-- riscv-tests/env/v/string.c. The first argument of a function with a loop bounds the loop's
-- rounds.
use rv32i_pipeline_fpga.Common.{
  ℕ, zero, suc, ◌+◌, ◌-◌, ◌*◌, ◌/◌, ◌%◌, ◌^◌, Bool, not, ◌&&◌, ◌||◌, ltb, ◌==◌, if◌then◌else◌,
  Option, none, some, bit_and, bit_or,
}
use rv32i_pipeline_fpga.Common.Int.{ℤ, pos, negsuc}
use rv32i_pipeline_fpga.Runtime.{Memory, put_bytes, bytes_at, ◌>>=◌}

-- `while (d < end) *d++ = *s++`, for elements of `width` bytes.
unfoldable pub copy_loop : ℕ → ℕ → ℕ → ℕ → ℕ → Memory → Option Memory
copy_loop zero width d s end m = if ltb d end then none else some m
copy_loop (suc fuel) width d s end m =
    let rest =
      copy_loop fuel width (d + width) (s + width) end (put_bytes d width (bytes_at m s) m) in
    if ltb d end then rest else some m

unfoldable pub memcpy : ℕ → ℕ → ℕ → ℕ → Memory → Option Memory
memcpy fuel dest src len m =
    if bit_and (bit_or (bit_or dest src) len) 7 == 0
    then copy_loop fuel 8 dest src (dest + len) m
    else copy_loop fuel 1 dest src (dest + len) m

-- The word of 8 copies of a byte.
unfoldable pub spread : ℕ → ℕ
spread byte =
    let a = bit_and byte 0xff in
    let b = bit_or a (a * 2 ^ 8 % 2 ^ 64) in
    let c = bit_or b (b * 2 ^ 16 % 2 ^ 64) in bit_or c (c * 2 ^ 16 % 2 ^ 64 * 2 ^ 16 % 2 ^ 64)

abbrev pub byte_of : ℕ → ℕ → ℕ
byte_of w i = w / 2 ^ (8 * i) % 2 ^ 8

-- `while (d < end) *d++ = word`, for a word of `width` bytes.
unfoldable pub fill_loop : ℕ → ℕ → ℕ → ℕ → ℕ → Memory → Option Memory
fill_loop zero width word d end m = if ltb d end then none else some m
fill_loop (suc fuel) width word d end m =
    let rest = fill_loop fuel width word (d + width) end (put_bytes d width (byte_of word) m) in
    if ltb d end then rest else some m

unfoldable pub memset : ℕ → ℕ → ℕ → ℕ → Memory → Option Memory
memset fuel dest byte len m =
    if bit_and (bit_or dest len) 7 == 0
    then fill_loop fuel 8 (spread byte) dest (dest + len) m
    else fill_loop fuel 1 byte dest (dest + len) m

-- `while (*p) p++`, and the difference to `s`.
unfoldable pub strlen_loop : ℕ → Memory → ℕ → ℕ → Option ℕ
strlen_loop zero m s p = none
strlen_loop (suc fuel) m s p =
    let rest = strlen_loop fuel m s (p + 1) in if m p == 0 then some (p - s) else rest

unfoldable pub strlen : ℕ → Memory → ℕ → Option ℕ
strlen fuel m s = strlen_loop fuel m s s

-- `c1 - c2` of two `unsigned char`s.
abbrev pub difference : ℕ → ℕ → ℤ
difference c1 c2 = if ltb c1 c2 then negsuc (c2 - c1 - 1) else pos (c1 - c2)

unfoldable pub strcmp : ℕ → Memory → ℕ → ℕ → Option ℤ
strcmp zero m s1 s2 = none
strcmp (suc fuel) m s1 s2 =
    let rest = strcmp fuel m (s1 + 1) (s2 + 1) in
    let c1 = m s1 in
    let c2 = m s2 in if not (c1 == 0) && c1 == c2 then rest else some (difference c1 c2)

-- `*u1 == *u2`, of two words.
abbrev pub same_word : Memory → ℕ → ℕ → Bool
same_word m u1 u2 =
    m u1 == m u2
    && m (u1 + 1) == m (u2 + 1)
    && m (u1 + 2) == m (u2 + 2)
    && m (u1 + 3) == m (u2 + 3)
    && m (u1 + 4) == m (u2 + 4)
    && m (u1 + 5) == m (u2 + 5)
    && m (u1 + 6) == m (u2 + 6)
    && m (u1 + 7) == m (u2 + 7)

-- The loop over words, from `u1` and `u2` on: where it stops.
unfoldable pub memcmp_words : ℕ → Memory → ℕ → ℕ → ℕ → Option (ℕ × ℕ)
memcmp_words zero m u1 u2 end = if ltb u1 end && same_word m u1 u2 then none else some (u1, u2)
memcmp_words (suc fuel) m u1 u2 end =
    let rest = memcmp_words fuel m (u1 + 8) (u2 + 8) end in
    if ltb u1 end then (if not (same_word m u1 u2) then some (u1, u2) else rest) else some (u1, u2)

-- The loop over the `n` bytes that are left.
unfoldable pub memcmp_bytes : ℕ → Memory → ℕ → ℕ → ℤ
memcmp_bytes zero m s1 s2 = pos 0
memcmp_bytes (suc n) m s1 s2 =
    let rest = memcmp_bytes n m (s1 + 1) (s2 + 1) in
    let c1 = m s1 in let c2 = m s2 in if not (c1 == c2) then difference c1 c2 else rest

unfoldable pub memcmp : ℕ → Memory → ℕ → ℕ → ℕ → Option ℤ
memcmp fuel m s1 s2 n =
    if bit_and (bit_or s1 s2) 7 == 0
    then (do
      (u1, u2) ← memcmp_words fuel m s1 s2 (s1 + n / 8 * 8)
      some (memcmp_bytes (n - (u1 - s1)) m u1 u2))
    else some (memcmp_bytes n m s1 s2)

-- `while ((*d++ = *src++))`.
unfoldable pub strcpy : ℕ → ℕ → ℕ → Memory → Option Memory
strcpy zero d src m = none
strcpy (suc fuel) d src m =
    let m' = put_bytes d 1 (bytes_at m src) m in
    let rest = strcpy fuel (d + 1) (src + 1) m' in if m src == 0 then some m' else rest

-- `while (*str == ' ') str++`.
unfoldable pub atol_blanks : ℕ → Memory → ℕ → Option ℕ
atol_blanks zero m str = none
atol_blanks (suc fuel) m str =
    let rest = atol_blanks fuel m (str + 1) in if m str == b' ' then rest else some str

-- The loop over the digits; a `long` is its 64-bit pattern and wraps.
unfoldable pub atol_digits : ℕ → Memory → ℕ → ℕ → Option ℕ
atol_digits zero m str res = none
atol_digits (suc fuel) m str res =
    let rest =
      atol_digits fuel m (str + 1) ((res * 10 % 2 ^ 64 + m str + 2 ^ 64 - b'0') % 2 ^ 64) in
    if m str == 0 then some res else rest

unfoldable pub atol : ℕ → Memory → ℕ → Option ℕ
atol fuel m str = do
  first ← atol_blanks fuel m str
  let sign = m first == b'-'
  let start = if m first == b'-' || m first == b'+' then first + 1 else first
  res ← atol_digits fuel m start 0
  some (if sign then (2 ^ 64 - res) % 2 ^ 64 else res)
