-- ===== src/Datapath.antt =====
-- The combinational modules of the execute stage and of fetch, each a function of its inputs:
-- rtl/FOUR_TO_ONE_MUX.sv, rtl/TWO_TO_ONE_MUX.sv, rtl/ALU.sv, rtl/Immediate_Generator.sv,
-- rtl/Branch_Condition_Generator.sv, rtl/PC_Decoder.sv, rtl/Jump_Branch_Address_Generator.sv
-- and rtl/Program_Counter.sv. An output 'X is an argument of its own, of any value.
pub mod SignExtension
pub mod Shifts
pub mod Masks
use rv32i_pipeline_fpga.Common.{
  ℕ, ◌+◌, ◌-◌, ◌*◌, ◌/◌, ◌%◌, ◌^◌, Bool, true, false, not, ltb, ◌==◌, if◌then◌else◌, slice, bit,
  concat, replicate_bit, word_mod, add32, sub32, bit_and, bit_or, bit_xor,
}
use rv32i_pipeline_fpga.Common.Int.{signed, lt_int}
use rv32i_pipeline_fpga.Pkg.{pc_pc4, pc_jalr, pc_branch, pc_jal}

-- `FOUR_TO_ONE_MUX`. `x` is the 'X of a select that is none of the four.
unfoldable pub four_to_one_mux : ℕ → ℕ → ℕ → ℕ → ℕ → ℕ → ℕ
four_to_one_mux x a b c d sel =
    if sel == 0b00
    then a
    else if sel == 0b01
    then b
    else if sel == 0b10
    then c
    else if sel == 0b11
    then d
    else x

-- `TWO_TO_ONE_MUX`.
unfoldable pub two_to_one_mux : ℕ → ℕ → Bool → ℕ
two_to_one_mux a b sel = if sel then b else a

-- `$signed(a) >>> n`: a shift right that fills with the sign bit.
abbrev pub shift_right_signed : ℕ → ℕ → ℕ
shift_right_signed a n = slice a 31 0 / 2 ^ n + bit a 31 * (word_mod - 2 ^ (32 - n))

-- `ALU`.
unfoldable pub alu : ℕ → ℕ → ℕ → ℕ
alu src_a src_b alu_func =
    if alu_func == 0b0000
    then add32 src_a src_b
    else if alu_func == 0b1000
    then sub32 src_a src_b
    else if alu_func == 0b0110
    then bit_or src_a src_b
    else if alu_func == 0b0111
    then bit_and src_a src_b
    else if alu_func == 0b0100
    then bit_xor src_a src_b
    else if alu_func == 0b0101
    then src_a / 2 ^ slice src_b 4 0
    else if alu_func == 0b0001
    then src_a * 2 ^ slice src_b 4 0 % word_mod
    else if alu_func == 0b1101
    then shift_right_signed src_a (slice src_b 4 0)
    else if alu_func == 0b0010
    then (if lt_int (signed src_a) (signed src_b) then 1 else 0)
    else if alu_func == 0b0011
    then (if ltb src_a src_b then 1 else 0)
    else if alu_func == 0b1001
    then src_a
    else 0

-- The five outputs of `Immediate_Generator`.
pub record Immediates : Type 0 where
  pub u_type : ℕ
  pub i_type : ℕ
  pub s_type : ℕ
  pub b_type : ℕ
  pub j_type : ℕ

-- `Immediate_Generator`; `imm` is `ir[31:7]`.
unfoldable pub immediate_generator : ℕ → Immediates
immediate_generator imm = record {
  i_type =
      concat 11 (replicate_bit 21 (bit imm 24))
        (concat 5 (slice imm 23 18) (concat 1 (slice imm 17 14) (bit imm 13)));
  s_type =
      concat 11 (replicate_bit 21 (bit imm 24))
        (concat 5 (slice imm 23 18) (concat 1 (slice imm 4 1) (bit imm 0)));
  b_type =
      concat 12 (replicate_bit 20 (bit imm 24))
        (concat 11 (bit imm 0) (concat 5 (slice imm 23 18) (concat 1 (slice imm 4 1) 0)));
  u_type = concat 12 (slice imm 24 5) 0;
  j_type =
      concat 20 (replicate_bit 12 (bit imm 24))
        (concat 12 (slice imm 12 5) (concat 11 (bit imm 13) (concat 1 (slice imm 23 14) 0)));
}

-- The outputs of `Branch_Condition_Generator`.
pub record BranchFlags : Type 0 where
  pub br_lt : Bool
  pub br_eq : Bool
  pub br_ltu : Bool

-- `Branch_Condition_Generator`.
unfoldable pub branch_condition_generator : ℕ → ℕ → BranchFlags
branch_condition_generator rs1 rs2 = record {
  br_lt = lt_int (signed rs1) (signed rs2);
  br_eq = rs1 == rs2;
  br_ltu = ltb rs1 rs2;
}

-- The `case(func3)` of `PC_Decoder`, for a branch.
unfoldable pub branch_pc_sel : BranchFlags → ℕ → ℕ
branch_pc_sel f func3 =
    if func3 == 0b000
    then (if f.br_eq then pc_branch else pc_pc4)
    else if func3 == 0b001
    then (if not f.br_eq then pc_branch else pc_pc4)
    else if func3 == 0b100
    then (if f.br_lt then pc_branch else pc_pc4)
    else if func3 == 0b101
    then (if not f.br_lt then pc_branch else pc_pc4)
    else if func3 == 0b110
    then (if f.br_ltu then pc_branch else pc_pc4)
    else if func3 == 0b111
    then (if not f.br_ltu then pc_branch else pc_pc4)
    else pc_pc4

-- `PC_Decoder`, with `branch_i`, `jal_i` and `jalr_i` in the order of its `case`.
unfoldable pub pc_decoder : BranchFlags → Bool → Bool → Bool → ℕ → ℕ
pc_decoder f false false false func3 = pc_pc4
pc_decoder f true false false func3 = branch_pc_sel f func3
pc_decoder f false true false func3 = pc_jal
pc_decoder f false false true func3 = pc_jalr
pc_decoder f _ _ _ func3 = 0b00

-- The outputs of `Jump_Branch_Address_Generator`.
pub record JumpTargets : Type 0 where
  pub jalr : ℕ
  pub branch : ℕ
  pub jal : ℕ

-- `Jump_Branch_Address_Generator`.
unfoldable pub jump_branch_address_generator : ℕ → ℕ → ℕ → ℕ → ℕ → JumpTargets
jump_branch_address_generator pc j_type b_type i_type rs1 = record {
  jalr = bit_and (add32 i_type rs1) 0xFFFF_FFFE;
  branch = add32 pc b_type;
  jal = add32 pc j_type;
}

-- `Program_Counter`. `x` is the 'X of a select that is none of the four.
unfoldable pub program_counter : ℕ → Bool → ℕ → ℕ → JumpTargets → ℕ
program_counter x reset pc_sel pc_plus_four t =
    if reset
    then 0
    else if pc_sel == 0b00
    then pc_plus_four
    else if pc_sel == 0b01
    then t.jalr
    else if pc_sel == 0b10
    then t.branch
    else if pc_sel == 0b11
    then t.jal
    else x
