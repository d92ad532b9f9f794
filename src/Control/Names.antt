-- ===== src/Control/Names.antt =====
-- rtl/Control_Unit_Decoder.sv against `decode_instr_name` of rtl/CPU_pkg.sv: two decoders of one
-- instruction word, written apart.
use mathlib.Core.Path.{subst}
use native.Mathlib.Decide.{ℕ_discrete}
use rv32i_pipeline_fpga.Common.{
  ℕ, ◌/◌, ◌%◌, ◌==◌, ◌^◌, ◌≡◌, ◌≢◌, ◌⊎◌, sym, ap, ◌∙◌, refl, true, flag, arith,
}
use rv32i_pipeline_fpga.Pkg.{
  InstrName, lui, auipc, jal, jalr, lb, lh, lw, lbu, lhu, addi, slti, sltiu, ori, xori, andi, slli,
  srli, srai, beq, bne, blt, bge, bltu, bgeu, sb, sh, sw, add, sub, sll, slt, sltu, xor, srl, sra,
  or, and, unknown, ecall_ebreak, fence, name_of_fields, decode_instr_name, alu_add, alu_sub,
  alu_and, alu_or, alu_xor, alu_sll, alu_srl, alu_sra, alu_slt, alu_sltu, alu_lui_copy, srca_u_type,
  srcb_i_type, srcb_s_type, srcb_pc, wb_pc4, wb_data_in, wb_alu, opcode_of, func3_of, funct7_of,
}
use rv32i_pipeline_fpga.Control.{
  Control, base_control, alu_fun_imm, alu_fun_reg, control_unit_decoder,
}

-- The controls of the five formats that name an ALU operation or a memory access.
abbrev op_control : ℕ → Control
op_control f = record base_control {
  alu_fun = f;
  rf_we = true;
  rf_sel = wb_alu;
  rs1_used = true;
  rs2_used = true;
}

abbrev op_imm_control : ℕ → Control
op_imm_control f = record base_control {
  alu_fun = f;
  rf_we = true;
  rf_sel = wb_alu;
  src_b_sel = srcb_i_type;
  rs1_used = true;
}

abbrev load_control : Control
load_control = record base_control {
  rf_we = true;
  rf_sel = wb_data_in;
  src_b_sel = srcb_i_type;
  mem_rden = true;
  rs1_used = true;
}

abbrev store_control : Control
store_control = record base_control {
  src_b_sel = srcb_s_type;
  mem_we = true;
  rs1_used = true;
  rs2_used = true;
}

abbrev branch_control : Control
branch_control = record base_control { branch_i = true; rs1_used = true; rs2_used = true }

-- What each instruction asks of the datapath.
abbrev pub control_of : InstrName → Control
control_of lui = record base_control {
  alu_fun = alu_lui_copy;
  src_a_sel = srca_u_type;
  rf_we = true;
  rf_sel = wb_alu;
}
control_of auipc = record base_control {
  src_a_sel = srca_u_type;
  src_b_sel = srcb_pc;
  rf_we = true;
  rf_sel = wb_alu;
}
control_of jal = record base_control {
  src_a_sel = srca_u_type;
  src_b_sel = srcb_pc;
  rf_we = true;
  rf_sel = wb_pc4;
  jal_i = true;
}
control_of jalr = record base_control {
  rf_we = true;
  rf_sel = wb_pc4;
  jalr_i = true;
  rs1_used = true;
}
control_of lb = load_control
control_of lh = load_control
control_of lw = load_control
control_of lbu = load_control
control_of lhu = load_control
control_of addi = op_imm_control alu_add
control_of slti = op_imm_control alu_slt
control_of sltiu = op_imm_control alu_sltu
control_of ori = op_imm_control alu_or
control_of xori = op_imm_control alu_xor
control_of andi = op_imm_control alu_and
control_of slli = op_imm_control alu_sll
control_of srli = op_imm_control alu_srl
control_of srai = op_imm_control alu_sra
control_of beq = branch_control
control_of bne = branch_control
control_of blt = branch_control
control_of bge = branch_control
control_of bltu = branch_control
control_of bgeu = branch_control
control_of sb = store_control
control_of sh = store_control
control_of sw = store_control
control_of add = op_control alu_add
control_of sub = op_control alu_sub
control_of sll = op_control alu_sll
control_of slt = op_control alu_slt
control_of sltu = op_control alu_sltu
control_of xor = op_control alu_xor
control_of srl = op_control alu_srl
control_of sra = op_control alu_sra
control_of or = op_control alu_or
control_of and = op_control alu_and
control_of unknown = base_control
control_of ecall_ebreak = record base_control { system_call = true }
control_of fence = base_control

-- `funct7` as RV32I assigns it to a register instruction of that `funct3`.
abbrev pub IsBaseFunct7 : ℕ → ℕ → Type 0
IsBaseFunct7 f3 f7 = (f7 ≡ 0) ⊎ ((f7 ≡ 0x20) × ((f3 ≡ 0) ⊎ (f3 ≡ 5)))

-- The eleven opcodes that both decoders know.
pub data KnownOpcode (op : ℕ) : Type 0 where
  is_fence : op ≡ 0xf → KnownOpcode op
  is_lui : op ≡ 0x37 → KnownOpcode op
  is_auipc : op ≡ 0x17 → KnownOpcode op
  is_jal : op ≡ 0x6f → KnownOpcode op
  is_jalr : op ≡ 0x67 → KnownOpcode op
  is_load : op ≡ 0x3 → KnownOpcode op
  is_op_imm : op ≡ 0x13 → KnownOpcode op
  is_op : op ≡ 0x33 → KnownOpcode op
  is_store : op ≡ 0x23 → KnownOpcode op
  is_branch : op ≡ 0x63 → KnownOpcode op
  is_system : op ≡ 0x73 → KnownOpcode op

pub known_opcode : (op f3 f7 : ℕ) → name_of_fields op f3 f7 ≢ unknown → KnownOpcode op
unfolding name_of_fields
known_opcode op f3 f7 known = elim (ℕ_discrete op 0xf) [
  | yes e ↦ is_fence e
  | no n0 ↦ elim (ℕ_discrete op 0x37) [
    | yes e ↦ is_lui e
    | no n1 ↦ elim (ℕ_discrete op 0x17) [
      | yes e ↦ is_auipc e
      | no n2 ↦ elim (ℕ_discrete op 0x6f) [
        | yes e ↦ is_jal e
        | no n3 ↦ elim (ℕ_discrete op 0x67) [
          | yes e ↦ is_jalr e
          | no n4 ↦ elim (ℕ_discrete op 0x3) [
            | yes e ↦ is_load e
            | no n5 ↦ elim (ℕ_discrete op 0x13) [
              | yes e ↦ is_op_imm e
              | no n6 ↦ elim (ℕ_discrete op 0x33) [
                | yes e ↦ is_op e
                | no n7 ↦ elim (ℕ_discrete op 0x23) [
                  | yes e ↦ is_store e
                  | no n8 ↦ elim (ℕ_discrete op 0x63) [
                    | yes e ↦ is_branch e
                    | no n9 ↦ elim (ℕ_discrete op 0x73) [
                      | yes e ↦ is_system e
                      | no n10 ↦ absurd (known (ground arith))
                    ]
                  ]
                ]
              ]
            ]
          ]
        ]
      ]
    ]
  ]
]

module _ (x : Control) (f3 f7 : ℕ) where
  abbrev Agree : ℕ → Type 0
  Agree op =
      name_of_fields op f3 f7 ≢ unknown
      → (op ≡ 0x33 → IsBaseFunct7 f3 f7)
      → control_unit_decoder x op f3 (f7 / 32 % 2 == 1) ≡ control_of (name_of_fields op f3 f7)

  Agree-load : Agree 0x03
  unfolding name_of_fields control_unit_decoder
  Agree-load k b = ground arith

  Agree-op_imm : Agree 0x13
  unfolding name_of_fields control_unit_decoder alu_fun_imm
  Agree-op_imm k b = ground arith

  Agree-op : Agree 0x33
  unfolding name_of_fields control_unit_decoder alu_fun_reg
  Agree-op k b = ground arith

  Agree-store : Agree 0x23
  unfolding name_of_fields control_unit_decoder
  Agree-store k b = ground arith

  Agree-branch : Agree 0x63
  unfolding name_of_fields control_unit_decoder
  Agree-branch k b = ground arith

  Agree-system : Agree 0x73
  unfolding name_of_fields control_unit_decoder
  Agree-system k b = ground arith

  Agree-known : {op : ℕ} → KnownOpcode op → Agree op
  unfolding name_of_fields control_unit_decoder
  Agree-known (is_fence e) = subst Agree (sym e) (λ k b. refl)
  Agree-known (is_lui e) = subst Agree (sym e) (λ k b. refl)
  Agree-known (is_auipc e) = subst Agree (sym e) (λ k b. refl)
  Agree-known (is_jal e) = subst Agree (sym e) (λ k b. refl)
  Agree-known (is_jalr e) = subst Agree (sym e) (λ k b. refl)
  Agree-known (is_load e) = subst Agree (sym e) Agree-load
  Agree-known (is_op_imm e) = subst Agree (sym e) Agree-op_imm
  Agree-known (is_op e) = subst Agree (sym e) Agree-op
  Agree-known (is_store e) = subst Agree (sym e) Agree-store
  Agree-known (is_branch e) = subst Agree (sym e) Agree-branch
  Agree-known (is_system e) = subst Agree (sym e) Agree-system

-- A word of RV32I as the base set assigns it: it has a name, and `funct7` of a register
-- instruction is one of the two values in use.
pub record IsBase (ir : ℕ) : Type 0 where
  pub known : decode_instr_name ir ≢ unknown
  pub funct7 : opcode_of ir ≡ 0x33 → IsBaseFunct7 (func3_of ir) (funct7_of ir)

-- For every word of the base set the control unit raises exactly the signals that the
-- instruction's name, as `decode_instr_name` gives it, asks of the datapath, whatever values the
-- 'X outputs of the unit take.
pub decoders_agree :
    (x : Control) (ir : ℕ)
    → IsBase ir
    → control_unit_decoder x (opcode_of ir) (func3_of ir) (flag ir 30)
      ≡ control_of (decode_instr_name ir)
unfolding decode_instr_name
decoders_agree x ir base =
    let bit30 : ir / 2 ^ 30 % 2 ≡ funct7_of ir / 32 % 2 = omega arith in
    ap (λ (t : ℕ). control_unit_decoder x (opcode_of ir) (func3_of ir) (t == 1)) bit30
    ∙ Agree-known x (func3_of ir) (funct7_of ir)
        (known_opcode (opcode_of ir) (func3_of ir) (funct7_of ir) base.known) base.known base.funct7
