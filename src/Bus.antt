-- ===== src/Bus.antt =====
-- rtl/Interconnect.sv: the address decode of the data bus and the registered read region.
pub mod Routing
use rv32i_pipeline_fpga.Common.{ℕ, Bool, false, leb, ◌==◌, if◌then◌else◌}

-- `read_region_e`.
pub data Region : Type 0 where
  read_none read_dmem read_mmio : Region

-- The registers of `Interconnect`.
pub record Interconnect : Type 0 where
  pub region_q : Region
  pub mmio_q : ℕ

-- Its four enables.
pub record Enables : Type 0 where
  pub dmem_rden : Bool
  pub dmem_we : Bool
  pub leds_we : Bool
  pub sseg_we : Bool

-- The first `always_comb`: the enables, from the address, `WE` and `RDEN`.
unfoldable pub bus_enables : ℕ → Bool → Bool → Enables
bus_enables address we rden =
    if leb 0x1100_0000 address
    then record {
      dmem_rden = false;
      dmem_we = false;
      leds_we = if address == 0x1100_0020 then we else false;
      sseg_we =
          if address == 0x1100_0020 then false else if address == 0x1100_0040 then we else false;
    }
    else if leb 0x3f60 address
    then record { dmem_rden = rden; dmem_we = we; leds_we = false; sseg_we = false }
    else record { dmem_rden = false; dmem_we = false; leds_we = false; sseg_we = false }

-- One clock edge.
unfoldable pub interconnect_step : Interconnect → ℕ → Bool → ℕ → ℕ → Interconnect
interconnect_step s address rden switches buttons =
    if rden
    then (if leb 0x1100_0000 address
        then record {
          region_q = read_mmio;
          mmio_q =
              if address == 0x1100_0020
              then buttons
              else if address == 0x1100_0040
              then switches
              else 0;
        }
        else if leb 0x3f60 address
        then record s { region_q = read_dmem }
        else record s { region_q = read_none })
    else s

-- `IOBUS_in`, from the registered region.
unfoldable pub iobus_in : Interconnect → ℕ → ℕ
iobus_in s dmem_data = elim s.region_q [
  | read_dmem ↦ dmem_data
  | read_mmio ↦ s.mmio_q
  | read_none ↦ 0
]
