-- ===== src/Isa.antt =====
-- The base integer instruction set that README.md claims: the immediates, the value, the next PC
-- and the memory access of each instruction, by its name, as the ISA manual gives them and
-- without the pipeline's encodings.
use rv32i_pipeline_fpga.Common.{
  ℕ, ◌+◌, ◌-◌, ◌*◌, ◌/◌, ◌%◌, ◌^◌, Bool, true, false, not, ◌&&◌, ltb, ◌==◌, if◌then◌else◌, slice,
  bit, word_mod, add32, sub32, bit_and, bit_or, bit_xor,
}
use rv32i_pipeline_fpga.Common.Int.{signed, lt_int}
use rv32i_pipeline_fpga.Pkg.{
  InstrName, lui, auipc, jal, jalr, lb, lh, lw, lbu, lhu, addi, slti, sltiu, ori, xori, andi, slli,
  srli, srai, beq, bne, blt, bge, bltu, bgeu, sb, sh, sw, add, sub, sll, slt, sltu, xor, srl, sra,
  or, and, unknown, ecall_ebreak, fence, rd_of, rs1_of, rs2_of, decode_instr_name,
}

-- The 32-bit word of a `w`-bit two's complement value.
abbrev pub sign_extend : ℕ → ℕ → ℕ
sign_extend w v = if ltb v (2 ^ (w - 1)) then v else v + (word_mod - 2 ^ w)

-- The immediates, put together from the bits of the instruction.
abbrev pub imm_i : ℕ → ℕ
imm_i ir = sign_extend 12 (slice ir 31 20)

abbrev pub imm_s : ℕ → ℕ
imm_s ir = sign_extend 12 (slice ir 31 25 * 32 + slice ir 11 7)

abbrev pub imm_b : ℕ → ℕ
imm_b ir =
    sign_extend 13 (bit ir 31 * 4096 + bit ir 7 * 2048 + slice ir 30 25 * 32 + slice ir 11 8 * 2)

abbrev pub imm_u : ℕ → ℕ
imm_u ir = slice ir 31 12 * 4096

abbrev pub imm_j : ℕ → ℕ
imm_j ir =
    sign_extend 21
      (bit ir 31 * 1048576 + slice ir 19 12 * 4096 + bit ir 20 * 2048 + slice ir 30 21 * 2)

-- An arithmetic right shift of a word, as a logical one of the complement where the sign bit is set.
abbrev pub sra32 : ℕ → ℕ → ℕ
sra32 a n =
    let w = a % word_mod in
    if ltb w 0x8000_0000 then w / 2 ^ n else word_mod - 1 - (word_mod - 1 - w) / 2 ^ n

abbrev pub one_if : Bool → ℕ
one_if t = if t then 1 else 0

abbrev pub signed_lt : ℕ → ℕ → Bool
signed_lt a b = lt_int (signed a) (signed b)

-- The value that an instruction writes to rd: `a` and `b` are the values of rs1 and rs2, and `v`
-- is what the memory delivers to a load. None for an instruction that writes no register.
unfoldable pub value_of : InstrName → ℕ → ℕ → ℕ → ℕ → ℕ → ℕ
value_of lui pc ir a b v = imm_u ir
value_of auipc pc ir a b v = add32 (imm_u ir) pc
value_of jal pc ir a b v = add32 pc 4
value_of jalr pc ir a b v = add32 pc 4
value_of lb pc ir a b v = v
value_of lh pc ir a b v = v
value_of lw pc ir a b v = v
value_of lbu pc ir a b v = v
value_of lhu pc ir a b v = v
value_of addi pc ir a b v = add32 a (imm_i ir)
value_of slti pc ir a b v = one_if (signed_lt a (imm_i ir))
value_of sltiu pc ir a b v = one_if (ltb a (imm_i ir))
value_of ori pc ir a b v = bit_or a (imm_i ir)
value_of xori pc ir a b v = bit_xor a (imm_i ir)
value_of andi pc ir a b v = bit_and a (imm_i ir)
value_of slli pc ir a b v = a * 2 ^ rs2_of ir % word_mod
value_of srli pc ir a b v = a / 2 ^ rs2_of ir
value_of srai pc ir a b v = sra32 a (rs2_of ir)
value_of add pc ir a b v = add32 a b
value_of sub pc ir a b v = sub32 a b
value_of sll pc ir a b v = a * 2 ^ (b % 32) % word_mod
value_of slt pc ir a b v = one_if (signed_lt a b)
value_of sltu pc ir a b v = one_if (ltb a b)
value_of xor pc ir a b v = bit_xor a b
value_of srl pc ir a b v = a / 2 ^ (b % 32)
value_of sra pc ir a b v = sra32 a (b % 32)
value_of or pc ir a b v = bit_or a b
value_of and pc ir a b v = bit_and a b
value_of _ pc ir a b v = 0

-- Whether it writes rd.
unfoldable pub writes_rd : InstrName → Bool
writes_rd beq = false
writes_rd bne = false
writes_rd blt = false
writes_rd bge = false
writes_rd bltu = false
writes_rd bgeu = false
writes_rd sb = false
writes_rd sh = false
writes_rd sw = false
writes_rd fence = false
writes_rd ecall_ebreak = false
writes_rd unknown = false
writes_rd _ = true

-- Whether a branch is taken.
unfoldable pub taken : InstrName → ℕ → ℕ → Bool
taken beq a b = a == b
taken bne a b = not (a == b)
taken blt a b = signed_lt a b
taken bge a b = not (signed_lt a b)
taken bltu a b = ltb a b
taken bgeu a b = not (ltb a b)
taken _ a b = false

-- The address of the next instruction.
unfoldable pub next_pc_of : InstrName → ℕ → ℕ → ℕ → ℕ → ℕ
unfolding taken
next_pc_of jal pc ir a b = add32 pc (imm_j ir)
next_pc_of jalr pc ir a b = add32 a (imm_i ir) / 2 * 2
next_pc_of n pc ir a b = if taken n a b then add32 pc (imm_b ir) else add32 pc 4

-- The programmer's state: the PC and the registers.
pub record Arch : Type 0 where
  pub pc : ℕ
  pub reads : ℕ → ℕ

-- One instruction, the word at the PC; `v` is what the memory delivers if it is a load.
unfoldable pub isa_step : (ℕ → ℕ) → ℕ → Arch → Arch
isa_step fetch v t =
    let ir = fetch t.pc in
    let n = decode_instr_name ir in
    let a = t.reads (rs1_of ir) in
    let b = t.reads (rs2_of ir) in
    record {
      pc = next_pc_of n t.pc ir a b;
      reads = λ r.
          if r == 0
          then 0
          else if r == rd_of ir && writes_rd n
          then value_of n t.pc ir a b v
          else t.reads r;
    }
