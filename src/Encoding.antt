-- ===== src/Encoding.antt =====
-- riscv-tests/env/encoding.h: the encodings of the instructions that the processor decodes. Of the
-- file's constants these are the ones for RV32I; the shifts by a constant are those for 32 bits.
pub mod Decode
pub mod Exact
use rv32i_pipeline_fpga.Common.{ℕ, ◌≡◌, ◌≢◌, ◌⊎◌, bit_and}
use rv32i_pipeline_fpga.Pkg.{
  InstrName, lui, auipc, jal, jalr, lb, lh, lw, lbu, lhu, addi, slti, sltiu, ori, xori, andi, slli,
  srli, srai, beq, bne, blt, bge, bltu, bgeu, sb, sh, sw, add, sub, sll, slt, sltu, xor, srl, sra,
  or, and, unknown, ecall_ebreak, fence,
}

-- An instruction is the words whose bits in `MASK_` are `MATCH_`.
pub record Insn : Type 0 where
  pub match_bits : ℕ
  pub mask : ℕ

abbrev pub lui_insn : Insn
lui_insn = record { match_bits = 0x37; mask = 0x7f }

abbrev pub auipc_insn : Insn
auipc_insn = record { match_bits = 0x17; mask = 0x7f }

abbrev pub jal_insn : Insn
jal_insn = record { match_bits = 0x6f; mask = 0x7f }

abbrev pub jalr_insn : Insn
jalr_insn = record { match_bits = 0x67; mask = 0x707f }

abbrev pub lb_insn : Insn
lb_insn = record { match_bits = 0x3; mask = 0x707f }

abbrev pub lh_insn : Insn
lh_insn = record { match_bits = 0x1003; mask = 0x707f }

abbrev pub lw_insn : Insn
lw_insn = record { match_bits = 0x2003; mask = 0x707f }

abbrev pub lbu_insn : Insn
lbu_insn = record { match_bits = 0x4003; mask = 0x707f }

abbrev pub lhu_insn : Insn
lhu_insn = record { match_bits = 0x5003; mask = 0x707f }

abbrev pub addi_insn : Insn
addi_insn = record { match_bits = 0x13; mask = 0x707f }

abbrev pub slti_insn : Insn
slti_insn = record { match_bits = 0x2013; mask = 0x707f }

abbrev pub sltiu_insn : Insn
sltiu_insn = record { match_bits = 0x3013; mask = 0x707f }

abbrev pub ori_insn : Insn
ori_insn = record { match_bits = 0x6013; mask = 0x707f }

abbrev pub xori_insn : Insn
xori_insn = record { match_bits = 0x4013; mask = 0x707f }

abbrev pub andi_insn : Insn
andi_insn = record { match_bits = 0x7013; mask = 0x707f }

abbrev pub slli_rv32_insn : Insn
slli_rv32_insn = record { match_bits = 0x1013; mask = 0xfe00707f }

abbrev pub srli_rv32_insn : Insn
srli_rv32_insn = record { match_bits = 0x5013; mask = 0xfe00707f }

abbrev pub srai_rv32_insn : Insn
srai_rv32_insn = record { match_bits = 0x40005013; mask = 0xfe00707f }

abbrev pub beq_insn : Insn
beq_insn = record { match_bits = 0x63; mask = 0x707f }

abbrev pub bne_insn : Insn
bne_insn = record { match_bits = 0x1063; mask = 0x707f }

abbrev pub blt_insn : Insn
blt_insn = record { match_bits = 0x4063; mask = 0x707f }

abbrev pub bge_insn : Insn
bge_insn = record { match_bits = 0x5063; mask = 0x707f }

abbrev pub bltu_insn : Insn
bltu_insn = record { match_bits = 0x6063; mask = 0x707f }

abbrev pub bgeu_insn : Insn
bgeu_insn = record { match_bits = 0x7063; mask = 0x707f }

abbrev pub sb_insn : Insn
sb_insn = record { match_bits = 0x23; mask = 0x707f }

abbrev pub sh_insn : Insn
sh_insn = record { match_bits = 0x1023; mask = 0x707f }

abbrev pub sw_insn : Insn
sw_insn = record { match_bits = 0x2023; mask = 0x707f }

abbrev pub add_insn : Insn
add_insn = record { match_bits = 0x33; mask = 0xfe00707f }

abbrev pub sub_insn : Insn
sub_insn = record { match_bits = 0x40000033; mask = 0xfe00707f }

abbrev pub sll_insn : Insn
sll_insn = record { match_bits = 0x1033; mask = 0xfe00707f }

abbrev pub slt_insn : Insn
slt_insn = record { match_bits = 0x2033; mask = 0xfe00707f }

abbrev pub sltu_insn : Insn
sltu_insn = record { match_bits = 0x3033; mask = 0xfe00707f }

abbrev pub xor_insn : Insn
xor_insn = record { match_bits = 0x4033; mask = 0xfe00707f }

abbrev pub srl_insn : Insn
srl_insn = record { match_bits = 0x5033; mask = 0xfe00707f }

abbrev pub sra_insn : Insn
sra_insn = record { match_bits = 0x40005033; mask = 0xfe00707f }

abbrev pub or_insn : Insn
or_insn = record { match_bits = 0x6033; mask = 0xfe00707f }

abbrev pub and_insn : Insn
and_insn = record { match_bits = 0x7033; mask = 0xfe00707f }

abbrev pub fence_insn : Insn
fence_insn = record { match_bits = 0xf; mask = 0x707f }

abbrev pub ecall_insn : Insn
ecall_insn = record { match_bits = 0x73; mask = 0xffffffff }

abbrev pub ebreak_insn : Insn
ebreak_insn = record { match_bits = 0x100073; mask = 0xffffffff }

abbrev pub Matches : Insn → ℕ → Type 0
Matches insn w = bit_and w insn.mask ≡ insn.match_bits

-- The word encodes the instruction of that name.
abbrev pub Encodes : InstrName → ℕ → Type 0
Encodes lui w = Matches lui_insn w
Encodes auipc w = Matches auipc_insn w
Encodes jal w = Matches jal_insn w
Encodes jalr w = Matches jalr_insn w
Encodes lb w = Matches lb_insn w
Encodes lh w = Matches lh_insn w
Encodes lw w = Matches lw_insn w
Encodes lbu w = Matches lbu_insn w
Encodes lhu w = Matches lhu_insn w
Encodes addi w = Matches addi_insn w
Encodes slti w = Matches slti_insn w
Encodes sltiu w = Matches sltiu_insn w
Encodes ori w = Matches ori_insn w
Encodes xori w = Matches xori_insn w
Encodes andi w = Matches andi_insn w
Encodes slli w = Matches slli_rv32_insn w
Encodes srli w = Matches srli_rv32_insn w
Encodes srai w = Matches srai_rv32_insn w
Encodes beq w = Matches beq_insn w
Encodes bne w = Matches bne_insn w
Encodes blt w = Matches blt_insn w
Encodes bge w = Matches bge_insn w
Encodes bltu w = Matches bltu_insn w
Encodes bgeu w = Matches bgeu_insn w
Encodes sb w = Matches sb_insn w
Encodes sh w = Matches sh_insn w
Encodes sw w = Matches sw_insn w
Encodes add w = Matches add_insn w
Encodes sub w = Matches sub_insn w
Encodes sll w = Matches sll_insn w
Encodes slt w = Matches slt_insn w
Encodes sltu w = Matches sltu_insn w
Encodes xor w = Matches xor_insn w
Encodes srl w = Matches srl_insn w
Encodes sra w = Matches sra_insn w
Encodes or w = Matches or_insn w
Encodes and w = Matches and_insn w
Encodes fence w = Matches fence_insn w
Encodes ecall_ebreak w = Matches ecall_insn w ⊎ Matches ebreak_insn w
Encodes unknown w = w ≢ w
