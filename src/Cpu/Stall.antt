-- ===== src/Cpu/Stall.antt =====
-- rtl/CPU_TOP.sv: the load-use stall, and the halt.
use mathlib.Core.List.{List, [], ◌∷◌}
use rv32i_pipeline_fpga.Common.{◌≡◌, true, false, arith}
use rv32i_pipeline_fpga.Pkg.Registers.{ex_mem_reset}
use rv32i_pipeline_fpga.Hazards.{forwarding_unit}
use rv32i_pipeline_fpga.Cpu.{Config, Cpu, forwarding, stalled, bus_request}
use rv32i_pipeline_fpga.Cpu.Step.{Input, next_ex_mem, next_halt_sig, step, run}

module _ (c : Config) where
  ex_mem_after_stall : (s : Cpu) (i : Input) → stalled s ≡ true → next_ex_mem c s i ≡ ex_mem_reset
  unfolding next_ex_mem forwarding forwarding_unit
  ex_mem_after_stall s i h = ground arith

  bubble_does_not_stall : (s : Cpu) → s.ex_mem_q ≡ ex_mem_reset → stalled s ≡ false
  unfolding forwarding forwarding_unit
  bubble_does_not_stall s e = ground arith

  -- A load-use stall lasts one cycle: whatever the inputs, the state after an edge out of a stall
  -- is not stalled, MEM holds the bubble of a reset, and the stalled cycle itself asks the bus for
  -- no write.
  pub stall_lasts_one_cycle :
      (s : Cpu) (i : Input)
      → stalled s ≡ true
      → (stalled (step c s i) ≡ false)
        × ((step c s i).ex_mem_q ≡ ex_mem_reset)
        × ((bus_request c s).iobus_we ≡ false)
  unfolding step bus_request forwarding forwarding_unit
  stall_lasts_one_cycle s i h = (
    bubble_does_not_stall (step c s i) (ex_mem_after_stall s i h),
    ex_mem_after_stall s i h,
    ground arith,
  )

  -- No edge lowers `halt_sig`.
  halt-step : (s : Cpu) (i : Input) → s.halt_sig ≡ true → (step c s i).halt_sig ≡ true
  unfolding step next_halt_sig
  halt-step s i h = ground arith

  -- Once `halt_sig` is high it stays high after any edges, whatever `RST` and the bus do: a reset
  -- does not restart a machine that has halted.
  pub halt_sig-run : (s : Cpu) (is : List Input) → s.halt_sig ≡ true → (run c s is).halt_sig ≡ true
  unfolding run
  halt_sig-run s [] h = h
  halt_sig-run s (i ∷ is) h = halt_sig-run (step c s i) is (halt-step s i h)
