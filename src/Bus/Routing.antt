-- ===== src/Bus/Routing.antt =====
-- rtl/Interconnect.sv: which device an access reaches, and what a read returns.
use rv32i_pipeline_fpga.Common.{
  ℕ, ◌≡◌, Bool, true, false, refl, List, [], ◌∷◌, ◌&&◌, leb, ltb, ◌==◌, if◌then◌else◌, arith,
}
use rv32i_pipeline_fpga.Bus.{Interconnect, bus_enables, interconnect_step, iobus_in}

-- A write reaches exactly the device that owns the address: the data memory from 0x3F60 up to the
-- I/O page, the LEDs at 0x11000020 and the display at 0x11000040; no other address enables a write,
-- and a read enables the data memory exactly in its range.
pub bus_enables_lem :
    (address : ℕ) (we rden : Bool)
    → let e = bus_enables address we rden in
      let in_dmem = leb 0x3f60 address && ltb address 0x1100_0000 in
      (e.dmem_we ≡ (in_dmem && we))
      × (e.dmem_rden ≡ (in_dmem && rden))
      × (e.leds_we ≡ (address == 0x1100_0020 && we))
      × (e.sseg_we ≡ (address == 0x1100_0040 && we))
unfolding bus_enables
bus_enables_lem address we rden = ground arith

-- The edges of `CLK` with no read: the address, the switches and the buttons at each.
unfoldable pub idle_edges : List (ℕ × ℕ × ℕ) → Interconnect → Interconnect
idle_edges [] s = s
idle_edges ((address, switches, buttons) ∷ edges) s =
    idle_edges edges (interconnect_step s address false switches buttons)

idle_edges-keep : (edges : List (ℕ × ℕ × ℕ)) (s : Interconnect) → idle_edges edges s ≡ s
unfolding idle_edges interconnect_step
idle_edges-keep [] s = refl
idle_edges-keep ((address, switches, buttons) ∷ edges) s =
    idle_edges-keep edges (interconnect_step s address false switches buttons)

-- A read returns, from the next cycle on and after any number of edges without another read, the
-- data memory's output at that time if the read was in its range, the buttons as they were at the
-- read for 0x11000020, the switches as they were then for 0x11000040, and 0 for any other address;
-- the address, the switches and the buttons after the read do not matter.
pub read_returns :
    (s : Interconnect) (address switches buttons : ℕ) (edges : List (ℕ × ℕ × ℕ)) (dmem_data : ℕ)
    → iobus_in (idle_edges edges (interconnect_step s address true switches buttons)) dmem_data ≡ (
        if leb 0x3f60 address && ltb address 0x1100_0000
        then dmem_data
        else if address == 0x1100_0020
        then buttons
        else if address == 0x1100_0040
        then switches
        else 0)
unfolding interconnect_step iobus_in
read_returns s address switches buttons edges dmem_data =
    rw (idle_edges-keep edges (interconnect_step s address true switches buttons)) (ground arith)
