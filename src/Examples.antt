-- ===== src/Examples.antt =====
-- Tests on concrete inputs, and the properties at inputs that meet their hypotheses.
mod Programs
mod Allocation
mod Products
mod Encodings
use mathlib.Core.List.{List, [], ◌∷◌}
use rv32i_pipeline_fpga.Common.{
  ℕ, ◌/◌, ◌%◌, ◌<◌, ◌^◌, ◌≡◌, refl, inl, true, false, ◌==◌, if◌then◌else◌, arith, slice,
}
use rv32i_pipeline_fpga.Display.{bcd, CathodeDriver, cathode_run, refresh, shown}
use rv32i_pipeline_fpga.Display.Decimal.{bcd_lem}
use rv32i_pipeline_fpga.Display.Refresh.{refresh_period, refresh-shown}
use rv32i_pipeline_fpga.Pkg.{add, name_of_fields, decode_instr_name}
use rv32i_pipeline_fpga.Pkg.Registers.{if_id_reset, id_ex_reset, ex_mem_reset, mem_wb_reset}
use rv32i_pipeline_fpga.Datapath.{
  alu, four_to_one_mux, two_to_one_mux, immediate_generator, program_counter, pc_decoder,
}
use rv32i_pipeline_fpga.Datapath.SignExtension.{immediates_lem}
use rv32i_pipeline_fpga.Control.{base_control, control_unit_decoder, alu_fun_imm, alu_fun_reg}
use rv32i_pipeline_fpga.Control.Names.{control_of, IsBase, decoders_agree}
use rv32i_pipeline_fpga.Hazards.{forwarding_unit, forward_sel, hazard_unit}
use rv32i_pipeline_fpga.Memories.{
  Dmem, reg_file_read, reg_file_step, imem_step, store_word, load_word, dmem_data_out,
}
use rv32i_pipeline_fpga.Memories.Access.{
  half1, byte2, signed_load_store, unsigned_load_store, store_keeps, IsNarrow,
  dmem_data_out-IsNarrow,
}
use rv32i_pipeline_fpga.Bus.{read_none, bus_enables, interconnect_step, iobus_in}
use rv32i_pipeline_fpga.Bus.Routing.{bus_enables_lem, idle_edges, read_returns}
use rv32i_pipeline_fpga.Isa.{Arch, value_of, writes_rd, imm_i, imm_s, imm_b, imm_u, imm_j}
use rv32i_pipeline_fpga.Cpu.{
  Config, Cpu, stalled, forwarding, real_rs1, real_rs2, hazard, pc_sel, next_pc, decode, fetched,
  executed, completed, write_data, bus_request, alu_result, src_a, src_b,
}
use rv32i_pipeline_fpga.Cpu.Step.{
  Input, next_imem, next_if_id, next_registers, next_id_ex, next_ex_mem, next_mem_wb, next_halt_sig,
  step, run,
}
use rv32i_pipeline_fpga.Cpu.Operands.{IsInert, IsRunning}
use rv32i_pipeline_fpga.Cpu.Reach.{Reach, reset, edge, operands_in_order}
use rv32i_pipeline_fpga.Cpu.Stall.{stall_lasts_one_cycle, halt_sig-run}
use rv32i_pipeline_fpga.Cpu.Execute.{value_by, value_by-control_of, sel_by, sel_of, pc_decoder_lem}
use rv32i_pipeline_fpga.Cpu.Simulation.{Occupancy, empty, next_occupancy, Tracks, Implements}
use rv32i_pipeline_fpga.Cpu.Simulation.Refine.{after}
use rv32i_pipeline_fpga.Cpu.Simulation.Execution.{
  Execution, follow, booted, booted-Tracks, pipeline_refines_isa,
}

-- addi x1, x0, 5; add x2, x1, x1; jal x0, 0.
abbrev program : ℕ → ℕ
program i = if i == 0 then 0x0050_0093 else if i == 1 then 0x0010_8133 else 0x0000_006f

abbrev demo : Config
demo = record { rom = program; x_control = base_control; x_word = 0 }

demo-IsInert : IsInert base_control
demo-IsInert = ground arith

abbrev power_on : Cpu
power_on = record {
  imem = record { instruction = 0; pc_used = 0 };
  registers = λ r. 7;
  if_id_q = if_id_reset;
  id_ex_q = id_ex_reset;
  ex_mem_q = ex_mem_reset;
  mem_wb_q = mem_wb_reset;
  halt_sig = false;
}

abbrev low : Input
low = record { rst = false; data_in = 0 }

abbrev s0 : Cpu
s0 = booted demo power_on 0 0

abbrev s1 : Cpu
s1 = after demo s0 0

abbrev s2 : Cpu
s2 = after demo s1 0

abbrev s3 : Cpu
s3 = after demo s2 0

abbrev t0 : Arch
t0 = record { pc = 0; reads = reg_file_read (next_registers demo s0 0) }

abbrev o1 : Occupancy
o1 = next_occupancy demo s0 empty

abbrev o2 : Occupancy
o2 = next_occupancy demo s1 o1

abbrev o3 : Occupancy
o3 = next_occupancy demo s2 o2

abbrev t1 : Arch
t1 = follow demo s0 empty 0 t0

abbrev t2 : Arch
t2 = follow demo s1 o1 0 t1

abbrev t3 : Arch
t3 = follow demo s2 o2 0 t2

-- An edge of the demonstration, which opens all that an edge computes with.
demo_step : Cpu → Input → Cpu
unfolding step next_imem next_if_id next_registers next_id_ex next_ex_mem next_mem_wb next_halt_sig
    imem_step next_pc program_counter forwarding forwarding_unit forward_sel hazard hazard_unit
    pc_sel pc_decoder decode fetched executed completed write_data control_unit_decoder real_rs1
    real_rs2 four_to_one_mux two_to_one_mux reg_file_read reg_file_step decode_instr_name
    name_of_fields alu_result src_a src_b alu alu_fun_imm alu_fun_reg immediate_generator
demo_step = step demo

word0-IsBase : IsBase 0x0050_0093
unfolding decode_instr_name name_of_fields
word0-IsBase = record { known = λ e. cc; funct7 = λ h. absurd (omega arith) }

word1-IsBase : IsBase 0x0010_8133
unfolding decode_instr_name name_of_fields
word1-IsBase = record { known = λ e. cc; funct7 = λ h. inl (omega arith) }

word2-IsBase : IsBase 0x0000_006f
unfolding decode_instr_name name_of_fields
word2-IsBase = record { known = λ e. cc; funct7 = λ h. absurd (omega arith) }

run1 : Execution demo s1 o1 0 t1
unfolding demo_step
run1 = Execution.edge 0 (Execution.boot power_on 0 0 0 refl) refl (λ e. cc)

run2 : Execution demo s2 o2 0 t2
unfolding demo_step
run2 = Execution.edge 0 run1 refl (λ e. cc)

run3 : Execution demo s3 o3 0 t3
unfolding demo_step
run3 = Execution.edge 0 run2 refl (λ e. word0-IsBase)

pipeline_refines_isa_example : Implements demo s3 o3 0 t3
pipeline_refines_isa_example = pipeline_refines_isa demo s3 o3 0 t3 demo-IsInert run3

booted-Tracks_example : Tracks demo s0 empty 0
booted-Tracks_example = booted-Tracks demo power_on 0 0 refl

abbrev q0 : Cpu
q0 = step demo power_on (record { rst = true; data_in = 0 })

abbrev q1 : Cpu
q1 = step demo q0 low

abbrev q2 : Cpu
q2 = step demo q1 low

abbrev q3 : Cpu
q3 = step demo q2 low

reach3 : Reach demo q3
unfolding demo_step
reach3 =
    let running0 : IsRunning q0 = ground arith in
    let running1 : IsRunning q1 = ground arith in
    let running2 : IsRunning q2 = ground arith in
    edge 0 (edge 0 (edge 0 (reset power_on 0) running0) running1) running2

q3-moves : stalled q3 ≡ false
unfolding demo_step
q3-moves = refl

operands_in_order_example :
    (q3.id_ex_q.rs1_used ≡ true
      → real_rs1 demo q3 ≡ reg_file_read (next_registers demo q3 0) q3.id_ex_q.rs1_addr)
    × (q3.id_ex_q.rs2_used ≡ true
        → real_rs2 demo q3 ≡ reg_file_read (next_registers demo q3 0) q3.id_ex_q.rs2_addr)
operands_in_order_example = operands_in_order demo q3 0 demo-IsInert reach3 q3-moves

-- EX adds x1 to itself while the instruction that writes 5 to x1 is in MEM.
forwarded_operand : real_rs1 demo q3 ≡ 5
unfolding demo_step
forwarded_operand = refl

decoders_agree_example :
    control_unit_decoder base_control 0x33 0 false ≡ control_of (decode_instr_name 0x0010_8133)
decoders_agree_example = decoders_agree base_control 0x0010_8133 word1-IsBase

immediates_lem_example :
    let g = immediate_generator (slice 0xfe00_0ee3 31 7) in
    (g.i_type ≡ imm_i 0xfe00_0ee3)
    × (g.s_type ≡ imm_s 0xfe00_0ee3)
    × (g.b_type ≡ imm_b 0xfe00_0ee3)
    × (g.u_type ≡ imm_u 0xfe00_0ee3)
    × (g.j_type ≡ imm_j 0xfe00_0ee3)
immediates_lem_example = immediates_lem 0xfe00_0ee3

-- beq x0, x0, -4.
branch_back : imm_b 0xfe00_0ee3 ≡ 0xffff_fffc
branch_back = refl

value_by-control_of_example :
    value_by 0 (control_of add) 0x0010_8133 4 5 6 0 ≡ value_of add 4 0x0010_8133 5 6 0
unfolding value_of writes_rd
value_by-control_of_example = value_by-control_of 0 add 0x0010_8133 4 5 6 0 refl

pc_decoder_lem_example :
    sel_by (control_unit_decoder base_control 0x6f 0 false) 0 1 2
    ≡ sel_of (decode_instr_name 0x0000_006f) 1 2
pc_decoder_lem_example = pc_decoder_lem base_control 0x0000_006f 1 2 word2-IsBase

signed_load_store_example :
    load_word 0b0101 (store_word 0b0101 0x1122_3344 0x0000_8001) ≡ 0xffff_8001
signed_load_store_example = signed_load_store half1 0x1122_3344 0x0000_8001 (omega arith)

unsigned_load_store_example : load_word 0b10010 (store_word 0b0010 0x1122_3344 0x1ff) ≡ 0xff
unsigned_load_store_example = unsigned_load_store byte2 0x1122_3344 0x1ff (omega arith)

store_keeps_example :
    let v = store_word 0b0101 0x1122_3344 0x8001 in
    (v % 2 ^ 8 ≡ 0x44) × (v / 2 ^ 24 ≡ 0x11) × (v < 2 ^ 32)
store_keeps_example = store_keeps half1 0x1122_3344 0x8001 (omega arith) (omega arith)

abbrev loaded : Dmem
loaded = record { memory = λ i. 0; mem_read_word = 0x1234_5678 }

dmem_data_out-IsNarrow_example :
    let b = bus_request demo q3 in IsNarrow (dmem_data_out loaded b.data_address b.mem_data)
unfolding demo_step
dmem_data_out-IsNarrow_example = dmem_data_out-IsNarrow demo q3 loaded refl refl

-- The word 0x12345678 that a load in MEM has read is delivered as 0x34 while EX adds.
narrow_word : let b = bus_request demo q3 in dmem_data_out loaded b.data_address b.mem_data ≡ 0x34
unfolding demo_step bus_request dmem_data_out load_word
narrow_word = refl

-- A load of x1 in MEM, and an instruction in EX that reads x1.
abbrev waiting : Cpu
waiting = record power_on {
  id_ex_q = record id_ex_reset { rs1_addr = 1; rs1_used = true; mem_we = true };
  ex_mem_q = record ex_mem_reset { reg_write_addr = 1; rf_we = true; mem_rden = true };
}

stall_lasts_one_cycle_example :
    (stalled (step demo waiting low) ≡ false)
    × ((step demo waiting low).ex_mem_q ≡ ex_mem_reset)
    × ((bus_request demo waiting).iobus_we ≡ false)
unfolding demo_step
stall_lasts_one_cycle_example = stall_lasts_one_cycle demo waiting low refl

abbrev halted : Cpu
halted = record power_on { halt_sig = true }

abbrev resets : List Input
resets = record { rst = true; data_in = 0 } ∷ record { rst = true; data_in = 0 } ∷ low ∷ []

halt_sig-run_example : (run demo halted resets).halt_sig ≡ true
halt_sig-run_example = halt_sig-run demo halted resets refl

bus_enables_lem_example :
    let e = bus_enables 0x1100_0020 true false in
    (e.dmem_we ≡ false) × (e.dmem_rden ≡ false) × (e.leds_we ≡ true) × (e.sseg_we ≡ false)
bus_enables_lem_example = bus_enables_lem 0x1100_0020 true false

-- The buttons, a while after the read; two accesses without a read come between.
read_returns_example :
    iobus_in
      (idle_edges
        ((0x4000, 8, 8) ∷ (0x1100_0040, 2, 4) ∷ [])
        (interconnect_step (record { region_q = read_none; mmio_q = 9 }) 0x1100_0020 true 3 5))
      7
    ≡ 5
read_returns_example =
    read_returns (record { region_q = read_none; mmio_q = 9 }) 0x1100_0020 3 5
      ((0x4000, 8, 8) ∷ (0x1100_0040, 2, 4) ∷ []) 7

bcd_lem_example : bcd 12345 ≡ record { thousands = 2; hundreds = 3; tens = 4; ones = 5 }
bcd_lem_example = bcd_lem 12345 (omega arith)

abbrev dark : CathodeDriver
dark = record {
  s_clk_500 = false;
  r_disp_digit = 2;
  clk_div_counter = 0;
  cathodes = 0xff;
  anodes = 0xf;
}

refresh_period_example : cathode_run 200002 0x2345 dark ≡ refresh dark false 0x2345
refresh_period_example = refresh_period 0x2345 dark refl refl

refresh-shown_example :
    let t = refresh dark false (shown true 12345) in
    (t.cathodes ≡ 0b10000110) × (t.anodes ≡ 0b1011) × (t.r_disp_digit ≡ 3)
refresh-shown_example = refresh-shown dark false 12345 2 (omega arith) refl (omega arith)
