-- ===== src/Display.antt =====
-- The seven-segment display. rtl/BCD.sv: the decimal digits of a 16-bit value, by shifting the
-- value's bits into four digits ("double dabble"). rtl/SevSegDisp.sv: the choice between them and
-- the value itself. rtl/CathodeDriver.sv: the clock divider and the digit that is lit.
pub mod Decimal
pub mod Refresh
use rv32i_pipeline_fpga.Common.{
  ℕ, zero, suc, Bool, false, not, ◌&&◌, ◌+◌, ◌%◌, ◌^◌, leb, ◌==◌, if◌then◌else◌, slice, bit, concat,
}

-- The four outputs of `BCD`.
pub record Digits : Type 0 where
  pub thousands : ℕ
  pub hundreds : ℕ
  pub tens : ℕ
  pub ones : ℕ

-- The default of all digits.
abbrev pub no_digits : Digits
no_digits = record { thousands = 0; hundreds = 0; tens = 0; ones = 0 }

-- A 4-bit place value of 5 or more has 3 added before the shift.
unfoldable pub adjust : ℕ → ℕ
adjust digit = if leb 5 digit then (digit + 3) % 16 else digit

-- The left shift of the four digits, `low` coming in at the right.
unfoldable pub shift_left : Digits → ℕ → Digits
shift_left d low = record {
  thousands = concat 1 (slice d.thousands 2 0) (bit d.hundreds 3);
  hundreds = concat 1 (slice d.hundreds 2 0) (bit d.tens 3);
  tens = concat 1 (slice d.tens 2 0) (bit d.ones 3);
  ones = concat 1 (slice d.ones 2 0) low;
}

-- One pass of the loop, for the bit `low` of the input.
unfoldable pub bcd_pass : Digits → ℕ → Digits
bcd_pass d low =
    shift_left
      (record {
        thousands = adjust d.thousands;
        hundreds = adjust d.hundreds;
        tens = adjust d.tens;
        ones = adjust d.ones;
      })
      low

-- The passes for the bits `n - 1` to 0 of `hex`.
unfoldable pub bcd_loop : ℕ → ℕ → Digits → Digits
bcd_loop zero hex d = d
bcd_loop (suc i) hex d = bcd_loop i hex (bcd_pass d (bit hex i))

-- `BCD`.
unfoldable pub bcd : ℕ → Digits
bcd hex = bcd_loop 16 hex no_digits

-- `SevSegDisp`: the four hexadecimal digits that the cathode driver is given, the value itself or,
-- in decimal mode, the outputs of `BCD`.
unfoldable pub shown : Bool → ℕ → ℕ
shown mode data_in =
    if mode
    then (let d = bcd data_in in
        concat 4 (concat 4 (concat 4 d.thousands d.hundreds) d.tens) d.ones)
    else data_in

-- The registers of `CathodeDriver`.
pub record CathodeDriver : Type 0 where
  pub s_clk_500 : Bool
  pub r_disp_digit : ℕ
  pub clk_div_counter : ℕ
  pub cathodes : ℕ
  pub anodes : ℕ

-- The cathodes for a digit; the four inner `case` statements are the same.
unfoldable pub segments : ℕ → ℕ
segments digit =
    if digit == 0b0000
    then 0b10000001
    else if digit == 0b0001
    then 0b11001111
    else if digit == 0b0010
    then 0b10010010
    else if digit == 0b0011
    then 0b10000110
    else if digit == 0b0100
    then 0b11001100
    else if digit == 0b0101
    then 0b10100100
    else if digit == 0b0110
    then 0b10100000
    else if digit == 0b0111
    then 0b10001111
    else if digit == 0b1000
    then 0b10000000
    else if digit == 0b1001
    then 0b10001100
    else if digit == 0b1010
    then 0b10001000
    else if digit == 0b1011
    then 0b11100000
    else if digit == 0b1100
    then 0b10110001
    else if digit == 0b1101
    then 0b11000010
    else if digit == 0b1110
    then 0b10110000
    else if digit == 0b1111
    then 0b10111000
    else 0b11111111

-- The second `always_ff`: an edge of `s_clk_500` shows the digit and moves on.
unfoldable pub refresh : CathodeDriver → Bool → ℕ → CathodeDriver
refresh s s_reset hex = record s {
  r_disp_digit = if s_reset then 0b00 else (s.r_disp_digit + 1) % 4;
  anodes =
      if s.r_disp_digit == 0b00
      then 0b1110
      else if s.r_disp_digit == 0b01
      then 0b1101
      else if s.r_disp_digit == 0b10
      then 0b1011
      else if s.r_disp_digit == 0b11
      then 0b0111
      else 0xF;
  cathodes =
      if s.r_disp_digit == 0b00
      then segments (slice hex 3 0)
      else if s.r_disp_digit == 0b01
      then segments (slice hex 7 4)
      else if s.r_disp_digit == 0b10
      then segments (slice hex 11 8)
      else if s.r_disp_digit == 0b11
      then segments (slice hex 15 12)
      else 0xFF;
}

-- The first `always_ff`: the divider counts an edge of `CLK`.
unfoldable pub divide : CathodeDriver → Bool → CathodeDriver
divide s s_reset =
    if s_reset
    then record s { s_clk_500 = false; clk_div_counter = 0 }
    else if s.clk_div_counter == 0x186A0
    then record s { s_clk_500 = not s.s_clk_500; clk_div_counter = 0 }
    else record s { clk_div_counter = (s.clk_div_counter + 1) % 2 ^ 20 }

-- One edge of `CLK`, and the edge of `s_clk_500` that it raises, at the same inputs.
unfoldable pub cathode_step : CathodeDriver → Bool → ℕ → CathodeDriver
cathode_step s s_reset hex =
    let t = divide s s_reset in if not s.s_clk_500 && t.s_clk_500 then refresh t s_reset hex else t

-- `n` edges of `CLK` while the reset is low and the shown value stays.
unfoldable pub cathode_run : ℕ → ℕ → CathodeDriver → CathodeDriver
cathode_run zero hex s = s
cathode_run (suc n) hex s = cathode_run n hex (cathode_step s false hex)
