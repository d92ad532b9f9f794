-- ===== src/Runtime/Copy.antt =====
-- memcpy and memset of riscv-tests/env/v/string.c: whichever loop runs, the bytes are those of the
-- plain definition.
use rv32i_pipeline_fpga.Common.{
  ℕ, zero, suc, ◌+◌, ◌-◌, ◌*◌, ◌/◌, ◌%◌, ◌<◌, ◌≤◌, ◌≡◌, refl, sym, ap, ◌∙◌, fun_ext, ◌⊎◌, inl, inr,
  true, false, ◌&&◌, ltb, leb, ◌==◌, some, bit_and, bit_or, Bool-cases, arith, ==_iff, table_passes,
  table_passes-at,
}
use rv32i_pipeline_fpga.Common.Bits.{bit_and_seven, bit_and_byte, bit_or-aligned}
use rv32i_pipeline_fpga.Runtime.{Memory, put_bytes, bytes_at}
use rv32i_pipeline_fpga.Runtime.Strings.{copy_loop, memcpy, fill_loop, memset, spread, byte_of}

abbrev pub Disjoint : ℕ → ℕ → ℕ → Type 0
Disjoint d s len = (d + len ≤ s) ⊎ (s + len ≤ d)

-- One element, then the others, of a block that does not overlap its source.
pub copy-split :
    (width d s left : ℕ) (m : Memory)
    → Disjoint d s (width + left)
    → put_bytes
        (d + width)
        left
        (bytes_at (put_bytes d width (bytes_at m s) m) (s + width))
        (put_bytes d width (bytes_at m s) m)
      ≡ put_bytes d (width + left) (bytes_at m s) m
copy-split width d s left m apart = fun_ext (λ k.
    elim (Bool-cases (leb (d + width) k && ltb k (d + width + left))) [
      | inl later ↦
          let from : s + width + (k - (d + width)) ≡ s + (k - d) = ground arith in
          let unread : (leb d (s + (k - d)) && ltb (s + (k - d)) (d + width)) ≡ false =
            ground arith in
          let whole : (leb d k && ltb k (d + (width + left))) ≡ true = ground arith in
          rw (later, from, unread, whole) refl
      | inr other ↦ rw other (ground arith)
    ])

put_nothing : (d width : ℕ) (f : ℕ → ℕ) (m : Memory) → put_bytes d (0 * width) f m ≡ m
put_nothing d width f m = fun_ext (λ k. ground arith)

pub copy_loop-put :
    (fuel rounds width d s end : ℕ) (m : Memory)
    → rounds ≤ fuel
    → 0 < width
    → end ≡ d + rounds * width
    → Disjoint d s (rounds * width)
    → copy_loop fuel width d s end m ≡ some (put_bytes d (rounds * width) (bytes_at m s) m)
unfolding copy_loop
copy_loop-put zero zero width d s end m enough wide e apart =
    rw (put_nothing d width (bytes_at m s) m) (ground arith)
copy_loop-put (suc fuel) zero width d s end m enough wide e apart =
    rw (put_nothing d width (bytes_at m s) m) (ground arith)
copy_loop-put zero (suc q) width d s end m enough wide e apart = absurd (omega arith)
copy_loop-put (suc fuel) (suc q) width d s end m enough wide e apart =
    let more : ltb d end ≡ true = ground arith in
    let count : suc q * width ≡ width + q * width = omega arith in
    rw (more, count)
      (copy_loop-put fuel q width (d + width) (s + width) end (put_bytes d width (bytes_at m s) m)
          (omega arith) wide (omega arith) (ground arith)
        ∙ ap some (copy-split width d s (q * width) m (ground arith)))

pub aligned_len : (x len : ℕ) → bit_and (bit_or x len) 7 ≡ 0 → len / 8 * 8 ≡ len
aligned_len x len h =
    let masked : bit_or x len % 8 ≡ 0 = sym (bit_and_seven (bit_or x len)) ∙ h in
    omega (arith, (bit_or-aligned x len masked).1)

-- For blocks that do not overlap, and with a round for each byte, both loops of `memcpy` copy the
-- block and change no other byte.
pub memcpy_lem :
    (fuel dest src len : ℕ) (m : Memory)
    → len ≤ fuel
    → Disjoint dest src len
    → memcpy fuel dest src len m ≡ some (put_bytes dest len (bytes_at m src) m)
unfolding memcpy
memcpy_lem fuel dest src len m enough apart =
    elim (Bool-cases (bit_and (bit_or (bit_or dest src) len) 7 == 0)) [
      | inl words ↦
          let whole = aligned_len (bit_or dest src) len ((==_iff _ 0).0 words) in
          rw words (
            copy_loop-put fuel (len / 8) 8 dest src (dest + len) m (omega arith) (omega arith)
              (omega arith) (rw whole apart)
            ∙ ap (λ n. some (put_bytes dest n (bytes_at m src) m)) whole)
      | inr bytes ↦
          let whole : len * 1 ≡ len = omega arith in
          rw bytes (
            copy_loop-put fuel len 1 dest src (dest + len) m enough (omega arith) (omega arith)
              (rw whole apart)
            ∙ ap (λ n. some (put_bytes dest n (bytes_at m src) m)) whole)
    ]

fill-split :
    (width d left word byte : ℕ) (m : Memory)
    → ((i : ℕ) → i < width → byte_of word i ≡ byte)
    → put_bytes (d + width) left (λ _. byte) (put_bytes d width (byte_of word) m)
      ≡ put_bytes d (width + left) (λ _. byte) m
fill-split width d left word byte m copies = fun_ext (λ k. ground (arith, copies (k - d)))

fill_loop-put :
    (fuel rounds width word byte d end : ℕ) (m : Memory)
    → rounds ≤ fuel
    → 0 < width
    → end ≡ d + rounds * width
    → ((i : ℕ) → i < width → byte_of word i ≡ byte)
    → fill_loop fuel width word d end m ≡ some (put_bytes d (rounds * width) (λ _. byte) m)
unfolding fill_loop
fill_loop-put zero zero width word byte d end m enough wide e copies =
    rw (put_nothing d width (λ _. byte) m) (ground arith)
fill_loop-put (suc fuel) zero width word byte d end m enough wide e copies =
    rw (put_nothing d width (λ _. byte) m) (ground arith)
fill_loop-put zero (suc q) width word byte d end m enough wide e copies = absurd (omega arith)
fill_loop-put (suc fuel) (suc q) width word byte d end m enough wide e copies =
    let more : ltb d end ≡ true = ground arith in
    let count : suc q * width ≡ width + q * width = omega arith in
    rw (more, count)
      (fill_loop-put fuel q width word byte (d + width) end (put_bytes d width (byte_of word) m)
          (omega arith) wide (omega arith) copies
        ∙ ap some (fill-split width d (q * width) word byte m copies))

-- The word that `memset` writes holds eight copies of the byte.
spread_table : table_passes (λ a. spread a == a * 0x0101_0101_0101_0101) 256 ≡ true
unfolding table_passes spread
spread_table = refl

spread-mod : (byte : ℕ) → spread byte ≡ spread (byte % 256)
unfolding spread
spread-mod byte =
    let low : bit_and byte 0xff ≡ bit_and (byte % 256) 0xff =
      omega (arith, bit_and_byte byte, bit_and_byte (byte % 256)) in
    rw low refl

spread_lem : (byte : ℕ) → spread byte ≡ byte % 256 * 0x0101_0101_0101_0101
spread_lem byte =
    spread-mod byte
    ∙ (==_iff _ _).0 (
        table_passes-at (λ a. spread a == a * 0x0101_0101_0101_0101) 256 (byte % 256) (omega arith)
          spread_table)

copies_of_byte : (a i : ℕ) → a < 256 → i < 8 → byte_of (a * 0x0101_0101_0101_0101) i ≡ a
copies_of_byte a zero h l = omega arith
copies_of_byte a (suc zero) h l = omega arith
copies_of_byte a (suc (suc zero)) h l = omega arith
copies_of_byte a (suc (suc (suc zero))) h l = omega arith
copies_of_byte a (suc (suc (suc (suc zero)))) h l = omega arith
copies_of_byte a (suc (suc (suc (suc (suc zero))))) h l = omega arith
copies_of_byte a (suc (suc (suc (suc (suc (suc zero)))))) h l = omega arith
copies_of_byte a (suc (suc (suc (suc (suc (suc (suc zero))))))) h l = omega arith
copies_of_byte a (suc (suc (suc (suc (suc (suc (suc (suc i)))))))) h l = absurd (omega arith)

byte_of-spread : (byte i : ℕ) → i < 8 → byte_of (spread byte) i ≡ byte % 256
byte_of-spread byte i l =
    ap (λ w. byte_of w i) (spread_lem byte) ∙ copies_of_byte (byte % 256) i (omega arith) l

byte_of-byte : (byte i : ℕ) → i < 1 → byte_of byte i ≡ byte % 256
byte_of-byte byte zero l = omega arith
byte_of-byte byte (suc i) l = absurd (omega arith)

-- With a round for each byte, both loops of `memset` write the low byte of the value to the whole
-- block and change no other byte.
pub memset_lem :
    (fuel dest byte len : ℕ) (m : Memory)
    → len ≤ fuel
    → memset fuel dest byte len m ≡ some (put_bytes dest len (λ _. byte % 256) m)
unfolding memset
memset_lem fuel dest byte len m enough = elim (Bool-cases (bit_and (bit_or dest len) 7 == 0)) [
  | inl words ↦
      let whole = aligned_len dest len ((==_iff _ 0).0 words) in
      rw words (
        fill_loop-put fuel (len / 8) 8 (spread byte) (byte % 256) dest (dest + len) m (omega arith)
          (omega arith) (omega arith) (byte_of-spread byte)
        ∙ ap (λ n. some (put_bytes dest n (λ _. byte % 256) m)) whole)
  | inr bytes ↦
      let whole : len * 1 ≡ len = omega arith in
      rw bytes (
        fill_loop-put fuel len 1 byte (byte % 256) dest (dest + len) m enough (omega arith)
          (omega arith) (byte_of-byte byte)
        ∙ ap (λ n. some (put_bytes dest n (λ _. byte % 256) m)) whole)
]
