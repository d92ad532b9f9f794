-- ===== src/Pkg.antt =====
-- rtl/CPU_pkg.sv: the enums, the pipeline registers as records, and `decode_instr_name`.
-- A one-bit signal is a `Bool`, a wider one a number; '0 for a record is its `_reset` value.
pub mod Registers
use rv32i_pipeline_fpga.Common.{ℕ, Bool, true, false, ◌==◌, if◌then◌else◌, slice}

-- `instr_name_e`; the encoding 0 is `lui`.
pub data InstrName : Type 0 where
  lui auipc jal jalr lb lh lw lbu lhu addi slti sltiu ori xori andi slli srli srai : InstrName
  beq bne blt bge bltu bgeu sb sh sw add sub sll slt sltu xor srl sra or and : InstrName
  unknown ecall_ebreak fence : InstrName

-- `alu_op_e`.
abbrev pub alu_add : ℕ
alu_add = 0b0000

abbrev pub alu_sub : ℕ
alu_sub = 0b1000

abbrev pub alu_and : ℕ
alu_and = 0b0111

abbrev pub alu_or : ℕ
alu_or = 0b0110

abbrev pub alu_xor : ℕ
alu_xor = 0b0100

abbrev pub alu_sll : ℕ
alu_sll = 0b0001

abbrev pub alu_srl : ℕ
alu_srl = 0b0101

abbrev pub alu_sra : ℕ
alu_sra = 0b1101

abbrev pub alu_slt : ℕ
alu_slt = 0b0010

abbrev pub alu_sltu : ℕ
alu_sltu = 0b0011

abbrev pub alu_lui_copy : ℕ
alu_lui_copy = 0b1001

-- `srca_sel_e`.
abbrev pub srca_rs1 : Bool
srca_rs1 = false

abbrev pub srca_u_type : Bool
srca_u_type = true

-- `srcb_sel_e`.
abbrev pub srcb_rs2 : ℕ
srcb_rs2 = 0b00

abbrev pub srcb_i_type : ℕ
srcb_i_type = 0b01

abbrev pub srcb_s_type : ℕ
srcb_s_type = 0b10

abbrev pub srcb_pc : ℕ
srcb_pc = 0b11

-- `WB_sel_e`.
abbrev pub wb_pc4 : ℕ
wb_pc4 = 0b00

abbrev pub wb_data_in : ℕ
wb_data_in = 0b10

abbrev pub wb_alu : ℕ
wb_alu = 0b11

-- `pc_sel_e`.
abbrev pub pc_pc4 : ℕ
pc_pc4 = 0b00

abbrev pub pc_jalr : ℕ
pc_jalr = 0b01

abbrev pub pc_branch : ℕ
pc_branch = 0b10

abbrev pub pc_jal : ℕ
pc_jal = 0b11

-- The fields of an instruction word that the modules name.
abbrev pub opcode_of : ℕ → ℕ
opcode_of ir = slice ir 6 0

abbrev pub func3_of : ℕ → ℕ
func3_of ir = slice ir 14 12

abbrev pub funct7_of : ℕ → ℕ
funct7_of ir = slice ir 31 25

abbrev pub rd_of : ℕ → ℕ
rd_of ir = slice ir 11 7

abbrev pub rs1_of : ℕ → ℕ
rs1_of ir = slice ir 19 15

abbrev pub rs2_of : ℕ → ℕ
rs2_of ir = slice ir 24 20

-- The inner `case`s of `decode_instr_name`, one for each opcode that has one.
abbrev name_load : ℕ → InstrName
name_load funct3 =
    if funct3 == 0b000
    then lb
    else if funct3 == 0b001
    then lh
    else if funct3 == 0b010
    then lw
    else if funct3 == 0b100
    then lbu
    else if funct3 == 0b101
    then lhu
    else unknown

abbrev name_op_imm : ℕ → ℕ → InstrName
name_op_imm funct3 funct7 =
    if funct3 == 0b000
    then addi
    else if funct3 == 0b010
    then slti
    else if funct3 == 0b011
    then sltiu
    else if funct3 == 0b110
    then ori
    else if funct3 == 0b100
    then xori
    else if funct3 == 0b111
    then andi
    else if funct3 == 0b001
    then slli
    else if funct3 == 0b101
    then (if funct7 == 0b0000000 then srli else if funct7 == 0b0100000 then srai else unknown)
    else unknown

abbrev name_branch : ℕ → InstrName
name_branch funct3 =
    if funct3 == 0b000
    then beq
    else if funct3 == 0b001
    then bne
    else if funct3 == 0b100
    then blt
    else if funct3 == 0b101
    then bge
    else if funct3 == 0b110
    then bltu
    else if funct3 == 0b111
    then bgeu
    else unknown

abbrev name_store : ℕ → InstrName
name_store funct3 =
    if funct3 == 0b000
    then sb
    else if funct3 == 0b001
    then sh
    else if funct3 == 0b010
    then sw
    else unknown

abbrev name_op : ℕ → ℕ → InstrName
name_op funct3 funct7 =
    if funct3 == 0b000
    then (if funct7 == 0b0100000 then sub else add)
    else if funct3 == 0b001
    then sll
    else if funct3 == 0b010
    then slt
    else if funct3 == 0b011
    then sltu
    else if funct3 == 0b100
    then xor
    else if funct3 == 0b101
    then (if funct7 == 0b0100000 then sra else srl)
    else if funct3 == 0b110
    then or
    else if funct3 == 0b111
    then and
    else unknown

-- `decode_instr_name` over the three fields that it reads.
unfoldable pub name_of_fields : ℕ → ℕ → ℕ → InstrName
name_of_fields opcode funct3 funct7 =
    if opcode == 0b0001111
    then fence
    else if opcode == 0b0110111
    then lui
    else if opcode == 0b0010111
    then auipc
    else if opcode == 0b1101111
    then jal
    else if opcode == 0b1100111
    then jalr
    else if opcode == 0b0000011
    then name_load funct3
    else if opcode == 0b0010011
    then name_op_imm funct3 funct7
    else if opcode == 0b1100011
    then name_branch funct3
    else if opcode == 0b0100011
    then name_store funct3
    else if opcode == 0b0110011
    then name_op funct3 funct7
    else if opcode == 0b1110011
    then (if funct3 == 0b000 then ecall_ebreak else unknown)
    else unknown

unfoldable pub decode_instr_name : ℕ → InstrName
decode_instr_name ir = name_of_fields (opcode_of ir) (func3_of ir) (funct7_of ir)
