-- ===== src/Encoding/Decode.antt =====
-- riscv-tests/env/encoding.h and rtl/CPU_pkg.sv: what the tests encode is what the processor decodes.
use rv32i_pipeline_fpga.Common.{
  ℕ, ◌+◌, ◌*◌, ◌/◌, ◌%◌, ◌^◌, ◌<◌, ◌≡◌, refl, ◌∙◌, bit_and, inl, inr, arith,
}
use rv32i_pipeline_fpga.Common.Bits.{bit_and-digit, bit_and_seven, bit_and_byte, bit_and-parts}
use rv32i_pipeline_fpga.Pkg.{
  InstrName, lui, auipc, jal, jalr, lb, lh, lw, lbu, lhu, addi, slti, sltiu, ori, xori, andi, slli,
  srli, srai, beq, bne, blt, bge, bltu, bgeu, sb, sh, sw, add, sub, sll, slt, sltu, xor, srl, sra,
  or, and, unknown, ecall_ebreak, fence, func3_of, funct7_of, decode_instr_name, name_of_fields,
}
use rv32i_pipeline_fpga.Encoding.{Encodes}

-- The masks of the opcode, of funct3 with it, and of funct7 with both.
pub opcode_mask : (w : ℕ) → bit_and w 0x7f ≡ w % 128
opcode_mask w = omega (
  arith,
  bit_and-digit w 0x7f,
  bit_and-digit (w / 2) 0x3f,
  bit_and-digit (w / 2 / 2) 0x1f,
  bit_and-digit (w / 2 / 2 / 2) 0xf,
  bit_and_seven (w / 2 / 2 / 2 / 2),
)

pub funct3_mask : (w : ℕ) → bit_and w 0x707f ≡ w / 2 ^ 12 % 8 * 2 ^ 12 + w % 128
funct3_mask w =
    bit_and-parts 12 w 7 0x7f (omega arith)
    ∙ omega (arith, opcode_mask w, bit_and_seven (w / 2 ^ 12))

pub funct7_mask :
    (w : ℕ)
    → bit_and w 0xfe00_707f ≡ w / 2 ^ 25 % 128 * 2 ^ 25 + (w / 2 ^ 12 % 8 * 2 ^ 12 + w % 128)
funct7_mask w =
    bit_and-parts 25 w 0x7f 0x707f (omega arith)
    ∙ omega (arith, funct3_mask w, opcode_mask (w / 2 ^ 25))

whole_mask : (w : ℕ) → bit_and w 0xffff_ffff ≡ w % 2 ^ 32
whole_mask w =
    bit_and-parts 8 w 0xff_ffff 0xff (omega arith)
    ∙ omega (
      arith,
      bit_and_byte w,
      bit_and-parts 8 (w / 2 ^ 8) 0xffff 0xff (omega arith),
      bit_and_byte (w / 2 ^ 8),
      bit_and-parts 8 (w / 2 ^ 8 / 2 ^ 8) 0xff 0xff (omega arith),
      bit_and_byte (w / 2 ^ 8 / 2 ^ 8),
      bit_and_byte (w / 2 ^ 8 / 2 ^ 8 / 2 ^ 8),
    )

named :
    (o o' f f' g g' : ℕ) → o ≡ o' → f ≡ f' → g ≡ g' → name_of_fields o f g ≡ name_of_fields o' f' g'
named o o' f f' g g' a b c = rw (a, b, c) refl

by_opcode :
    (w op : ℕ)
    → bit_and w 0x7f ≡ op
    → decode_instr_name w ≡ name_of_fields op (func3_of w) (funct7_of w)
unfolding decode_instr_name
by_opcode w op h = named _ op _ _ _ _ (omega (arith, h, opcode_mask w)) refl refl

by_funct3 :
    (w op f3 : ℕ)
    → op < 128
    → f3 < 8
    → bit_and w 0x707f ≡ f3 * 2 ^ 12 + op
    → decode_instr_name w ≡ name_of_fields op f3 (funct7_of w)
unfolding decode_instr_name
by_funct3 w op f3 a b h =
    named _ op _ f3 _ _ (omega (arith, h, funct3_mask w)) (omega (arith, h, funct3_mask w)) refl

by_funct7 :
    (w op f3 f7 : ℕ)
    → op < 128
    → f3 < 8
    → f7 < 128
    → bit_and w 0xfe00_707f ≡ f7 * 2 ^ 25 + (f3 * 2 ^ 12 + op)
    → decode_instr_name w ≡ name_of_fields op f3 f7
unfolding decode_instr_name
by_funct7 w op f3 f7 a b c h =
    let e = funct7_mask w in
    named _ op _ f3 _ f7 (omega (arith, h, e)) (omega (arith, h, e)) (omega (arith, h, e))

by_whole :
    (w v : ℕ)
    → v < 2 ^ 32
    → bit_and w 0xffff_ffff ≡ v
    → decode_instr_name w ≡ name_of_fields (v % 128) (v / 2 ^ 12 % 8) (v / 2 ^ 25)
unfolding decode_instr_name
by_whole w v a h =
    let e = whole_mask w in
    named _ (v % 128) _ (v / 2 ^ 12 % 8) _ (v / 2 ^ 25) (omega (arith, h, e)) (omega (arith, h, e))
      (omega (arith, h, e))

-- A word that a mask and a match of the tests' header make an instruction of RV32I, the shifts by a
-- constant with their 32-bit masks, is given that instruction's name by decode_instr_name; ECALL
-- and EBREAK share a name.
pub header_decodes : (n : InstrName) (w : ℕ) → Encodes n w → decode_instr_name w ≡ n
unfolding name_of_fields
header_decodes lui w h = by_opcode w 0x37 h
header_decodes auipc w h = by_opcode w 0x17 h
header_decodes jal w h = by_opcode w 0x6f h
header_decodes jalr w h = by_funct3 w 0x67 0 (omega arith) (omega arith) h
header_decodes lb w h = by_funct3 w 0x3 0 (omega arith) (omega arith) h
header_decodes lh w h = by_funct3 w 0x3 1 (omega arith) (omega arith) h
header_decodes lw w h = by_funct3 w 0x3 2 (omega arith) (omega arith) h
header_decodes lbu w h = by_funct3 w 0x3 4 (omega arith) (omega arith) h
header_decodes lhu w h = by_funct3 w 0x3 5 (omega arith) (omega arith) h
header_decodes addi w h = by_funct3 w 0x13 0 (omega arith) (omega arith) h
header_decodes slti w h = by_funct3 w 0x13 2 (omega arith) (omega arith) h
header_decodes sltiu w h = by_funct3 w 0x13 3 (omega arith) (omega arith) h
header_decodes ori w h = by_funct3 w 0x13 6 (omega arith) (omega arith) h
header_decodes xori w h = by_funct3 w 0x13 4 (omega arith) (omega arith) h
header_decodes andi w h = by_funct3 w 0x13 7 (omega arith) (omega arith) h
header_decodes slli w h = by_funct7 w 0x13 1 0x0 (omega arith) (omega arith) (omega arith) h
header_decodes srli w h = by_funct7 w 0x13 5 0x0 (omega arith) (omega arith) (omega arith) h
header_decodes srai w h = by_funct7 w 0x13 5 0x20 (omega arith) (omega arith) (omega arith) h
header_decodes beq w h = by_funct3 w 0x63 0 (omega arith) (omega arith) h
header_decodes bne w h = by_funct3 w 0x63 1 (omega arith) (omega arith) h
header_decodes blt w h = by_funct3 w 0x63 4 (omega arith) (omega arith) h
header_decodes bge w h = by_funct3 w 0x63 5 (omega arith) (omega arith) h
header_decodes bltu w h = by_funct3 w 0x63 6 (omega arith) (omega arith) h
header_decodes bgeu w h = by_funct3 w 0x63 7 (omega arith) (omega arith) h
header_decodes sb w h = by_funct3 w 0x23 0 (omega arith) (omega arith) h
header_decodes sh w h = by_funct3 w 0x23 1 (omega arith) (omega arith) h
header_decodes sw w h = by_funct3 w 0x23 2 (omega arith) (omega arith) h
header_decodes add w h = by_funct7 w 0x33 0 0x0 (omega arith) (omega arith) (omega arith) h
header_decodes sub w h = by_funct7 w 0x33 0 0x20 (omega arith) (omega arith) (omega arith) h
header_decodes sll w h = by_funct7 w 0x33 1 0x0 (omega arith) (omega arith) (omega arith) h
header_decodes slt w h = by_funct7 w 0x33 2 0x0 (omega arith) (omega arith) (omega arith) h
header_decodes sltu w h = by_funct7 w 0x33 3 0x0 (omega arith) (omega arith) (omega arith) h
header_decodes xor w h = by_funct7 w 0x33 4 0x0 (omega arith) (omega arith) (omega arith) h
header_decodes srl w h = by_funct7 w 0x33 5 0x0 (omega arith) (omega arith) (omega arith) h
header_decodes sra w h = by_funct7 w 0x33 5 0x20 (omega arith) (omega arith) (omega arith) h
header_decodes or w h = by_funct7 w 0x33 6 0x0 (omega arith) (omega arith) (omega arith) h
header_decodes and w h = by_funct7 w 0x33 7 0x0 (omega arith) (omega arith) (omega arith) h
header_decodes fence w h = by_funct3 w 0xf 0 (omega arith) (omega arith) h
header_decodes ecall_ebreak w (inl h) = by_whole w 0x73 (omega arith) h
header_decodes ecall_ebreak w (inr h) = by_whole w 0x10_0073 (omega arith) h
header_decodes unknown w h = absurd (h refl)
