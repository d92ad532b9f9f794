-- ===== src/Display/Refresh.antt =====
-- rtl/CathodeDriver.sv and rtl/SevSegDisp.sv: the refresh period and the digits shown.
use rv32i_pipeline_fpga.Common.{
  ℕ, zero, suc, Bool, true, false, ◌+◌, ◌-◌, ◌/◌, ◌%◌, ◌^◌, ◌<◌, ◌≤◌, ◌≡◌, refl, sym, ap, ◌∙◌,
  if◌then◌else◌, concat, arith, ◌==◌, ◌||◌,
}
use rv32i_pipeline_fpga.Display.{
  CathodeDriver, cathode_run, cathode_step, divide, refresh, segments, shown,
}
use rv32i_pipeline_fpga.Display.Decimal.{bcd_lem}

abbrev counting : CathodeDriver → ℕ → CathodeDriver
counting s n = record s { clk_div_counter = n }

cathode_step-counting :
    (s : CathodeDriver) (hex k : ℕ)
    → k < 0x186A0
    → cathode_step (counting s k) false hex ≡ counting s (k + 1)
unfolding cathode_step divide
cathode_step-counting s hex k h = ground arith

cathode_run_add :
    (m n hex : ℕ) (s : CathodeDriver)
    → cathode_run (m + n) hex s ≡ cathode_run n hex (cathode_run m hex s)
unfolding cathode_run
cathode_run_add zero n hex s = let e : 0 + n ≡ n = omega arith in ap (λ v. cathode_run v hex s) e
cathode_run_add (suc m) n hex s =
    let e : suc m + n ≡ suc (m + n) = omega arith in
    ap (λ v. cathode_run v hex s) e ∙ cathode_run_add m n hex (cathode_step s false hex)

cathode_run-counting :
    (n k hex : ℕ) (s : CathodeDriver)
    → k + n ≤ 0x186A0
    → cathode_run n hex (counting s k) ≡ counting s (k + n)
unfolding cathode_run
cathode_run-counting zero k hex s h = ap (counting s) (omega arith)
cathode_run-counting (suc n) k hex s h =
    ap (cathode_run n hex) (cathode_step-counting s hex k (omega arith))
    ∙ cathode_run-counting n (k + 1) hex s (omega arith)
    ∙ ap (counting s) (omega arith)

-- The divider's registers at the start of a period of its clock.
abbrev start : CathodeDriver → Bool → CathodeDriver
start s level = record s { s_clk_500 = level; clk_div_counter = 0 }

run_1 : (hex : ℕ) (s : CathodeDriver) → cathode_run 1 hex s ≡ cathode_step s false hex
unfolding cathode_run
run_1 hex s = refl

half_period :
    (hex : ℕ) (s : CathodeDriver) (level : Bool)
    → cathode_run (0x186A0 + 1) hex (start s level)
      ≡ cathode_step (record s { s_clk_500 = level; clk_div_counter = 0x186A0 }) false hex
half_period hex s level =
    cathode_run_add 0x186A0 1 hex (start s level)
    ∙ ap (cathode_run 1 hex) (cathode_run-counting 0x186A0 0 hex (start s level) (omega arith))
    ∙ run_1 hex _

rise :
    (hex : ℕ) (s : CathodeDriver)
    → cathode_step (record s { s_clk_500 = false; clk_div_counter = 0x186A0 }) false hex
      ≡ start (refresh (start s false) false hex) true
unfolding cathode_step divide refresh
rise hex s = refl

fall :
    (hex : ℕ) (s : CathodeDriver)
    → cathode_step (record s { s_clk_500 = true; clk_div_counter = 0x186A0 }) false hex
      ≡ start s false
unfolding cathode_step divide
fall hex s = refl

refresh-start :
    (hex : ℕ) (s : CathodeDriver)
    → start (refresh (start s false) false hex) false ≡ refresh (start s false) false hex
unfolding refresh
refresh-start hex s = refl

-- While the reset is low and the shown value stays, 200002 edges of `CLK` from a state in which the
-- divider has just cleared its counter and its clock is low do exactly one refresh: the display
-- moves on by one digit and the divider is back where it was.
pub refresh_period :
    (hex : ℕ) (s : CathodeDriver)
    → s.s_clk_500 ≡ false
    → s.clk_div_counter ≡ 0
    → cathode_run 200002 hex s ≡ refresh s false hex
refresh_period hex s low zeroed =
    let e : s ≡ start s false = rw (sym low, sym zeroed) refl in
    ap (cathode_run 200002 hex) e
    ∙ cathode_run_add (0x186A0 + 1) (0x186A0 + 1) hex (start s false)
    ∙ ap (cathode_run (0x186A0 + 1) hex) (half_period hex s false ∙ rise hex s)
    ∙ half_period hex (refresh (start s false) false hex) true
    ∙ fall hex (refresh (start s false) false hex)
    ∙ refresh-start hex s
    ∙ ap (λ t. refresh t false hex) (sym e)

shown-decimal :
    (h : ℕ)
    → h < 2 ^ 16
    → shown true h
      ≡ concat 4 (concat 4 (concat 4 (h / 1000 % 10) (h / 100 % 10)) (h / 10 % 10)) (h % 10)
unfolding shown
shown-decimal h k = rw (bcd_lem h k) refl

-- The weight of a segment that is dark: the cathodes are active low.
abbrev unlit : Bool → ℕ → ℕ
unlit is_dark weight = if is_dark then weight else 0

-- A decimal digit as it is drawn: for each segment from A, the top one, clockwise to F and with G in
-- the middle, the digits that leave it dark. The point is always dark.
abbrev pub glyph : ℕ → ℕ
glyph d =
    128
    + unlit (d == 1 || d == 4) 64
    + unlit (d == 5 || d == 6) 32
    + unlit (d == 2) 16
    + unlit (d == 1 || d == 4 || d == 7 || d == 9) 8
    + unlit (d == 1 || d == 3 || d == 4 || d == 5 || d == 7 || d == 9) 4
    + unlit (d == 1 || d == 2 || d == 3 || d == 7) 2
    + unlit (d == 0 || d == 1 || d == 7) 1

segments-glyph : (d : ℕ) → d < 10 → segments d ≡ glyph d
unfolding segments
segments-glyph zero small = refl
segments-glyph (suc zero) small = refl
segments-glyph (suc (suc zero)) small = refl
segments-glyph (suc (suc (suc zero))) small = refl
segments-glyph (suc (suc (suc (suc zero)))) small = refl
segments-glyph (suc (suc (suc (suc (suc zero))))) small = refl
segments-glyph (suc (suc (suc (suc (suc (suc zero)))))) small = refl
segments-glyph (suc (suc (suc (suc (suc (suc (suc zero))))))) small = refl
segments-glyph (suc (suc (suc (suc (suc (suc (suc (suc zero)))))))) small = refl
segments-glyph (suc (suc (suc (suc (suc (suc (suc (suc (suc zero))))))))) small = refl
segments-glyph (suc (suc (suc (suc (suc (suc (suc (suc (suc (suc d)))))))))) small = omega arith

drawn : (d q : ℕ) → d ≡ q % 10 → segments d ≡ glyph (q % 10)
drawn d q at = ap segments at ∙ segments-glyph (q % 10) (omega arith)

-- In decimal mode a refresh at position `p` lights that digit alone, as the decimal digit of weight
-- 10 ^ p of a 16-bit value is drawn on seven segments, and the next refresh is at the next position,
-- position 0 after 3 and on a reset.
pub refresh-shown :
    (s : CathodeDriver) (s_reset : Bool) (h p : ℕ)
    → h < 2 ^ 16
    → s.r_disp_digit ≡ p
    → p < 4
    → let t = refresh s s_reset (shown true h) in
      (t.cathodes ≡ glyph (h / 10 ^ p % 10))
      × (t.anodes ≡ 15 - 2 ^ p)
      × (t.r_disp_digit ≡ (if s_reset then 0 else (p + 1) % 4))
unfolding refresh
refresh-shown s s_reset h zero k at_p small =
    rw (at_p, shown-decimal h k) (drawn _ (h / 10 ^ 0) (omega arith), refl, refl)
refresh-shown s s_reset h (suc zero) k at_p small =
    rw (at_p, shown-decimal h k) (drawn _ (h / 10 ^ 1) (omega arith), refl, refl)
refresh-shown s s_reset h (suc (suc zero)) k at_p small =
    rw (at_p, shown-decimal h k) (drawn _ (h / 10 ^ 2) (omega arith), refl, refl)
refresh-shown s s_reset h (suc (suc (suc zero))) k at_p small =
    rw (at_p, shown-decimal h k) (drawn _ (h / 10 ^ 3) (omega arith), refl, refl)
refresh-shown s s_reset h (suc (suc (suc (suc p)))) k at_p small = omega arith
