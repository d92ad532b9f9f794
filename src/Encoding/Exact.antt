-- ===== src/Encoding/Exact.antt =====
-- rtl/CPU_pkg.sv and riscv-tests/env/encoding.h: what the processor decodes is what the tests encode.
use rv32i_pipeline_fpga.Common.{ℕ, ◌≤◌, ◌≡◌, ◌≢◌, refl, ◌∙◌, arith}
use rv32i_pipeline_fpga.Pkg.{
  InstrName, lui, auipc, jal, jalr, lb, lh, lw, lbu, lhu, addi, slti, sltiu, ori, xori, andi, slli,
  srli, srai, beq, bne, blt, bge, bltu, bgeu, sb, sh, sw, add, sub, sll, slt, sltu, xor, srl, sra,
  or, and, unknown, ecall_ebreak, fence, decode_instr_name, name_of_fields,
}
use rv32i_pipeline_fpga.Control.Names.{IsBase}
use rv32i_pipeline_fpga.Encoding.{Encodes}
use rv32i_pipeline_fpga.Encoding.Decode.{opcode_mask, funct3_mask, funct7_mask}

-- What decode_instr_name has seen of a word when it gives the name.
abbrev Fields : InstrName → ℕ → ℕ → ℕ → Type 0
Fields lui op f3 f7 = op ≡ 0x37
Fields auipc op f3 f7 = op ≡ 0x17
Fields jal op f3 f7 = op ≡ 0x6f
Fields lb op f3 f7 = (op ≡ 0x3) × (f3 ≡ 0)
Fields lh op f3 f7 = (op ≡ 0x3) × (f3 ≡ 1)
Fields lw op f3 f7 = (op ≡ 0x3) × (f3 ≡ 2)
Fields lbu op f3 f7 = (op ≡ 0x3) × (f3 ≡ 4)
Fields lhu op f3 f7 = (op ≡ 0x3) × (f3 ≡ 5)
Fields addi op f3 f7 = (op ≡ 0x13) × (f3 ≡ 0)
Fields slti op f3 f7 = (op ≡ 0x13) × (f3 ≡ 2)
Fields sltiu op f3 f7 = (op ≡ 0x13) × (f3 ≡ 3)
Fields ori op f3 f7 = (op ≡ 0x13) × (f3 ≡ 6)
Fields xori op f3 f7 = (op ≡ 0x13) × (f3 ≡ 4)
Fields andi op f3 f7 = (op ≡ 0x13) × (f3 ≡ 7)
Fields srli op f3 f7 = (op ≡ 0x13) × (f3 ≡ 5) × (f7 ≡ 0x0)
Fields srai op f3 f7 = (op ≡ 0x13) × (f3 ≡ 5) × (f7 ≡ 0x20)
Fields beq op f3 f7 = (op ≡ 0x63) × (f3 ≡ 0)
Fields bne op f3 f7 = (op ≡ 0x63) × (f3 ≡ 1)
Fields blt op f3 f7 = (op ≡ 0x63) × (f3 ≡ 4)
Fields bge op f3 f7 = (op ≡ 0x63) × (f3 ≡ 5)
Fields bltu op f3 f7 = (op ≡ 0x63) × (f3 ≡ 6)
Fields bgeu op f3 f7 = (op ≡ 0x63) × (f3 ≡ 7)
Fields sb op f3 f7 = (op ≡ 0x23) × (f3 ≡ 0)
Fields sh op f3 f7 = (op ≡ 0x23) × (f3 ≡ 1)
Fields sw op f3 f7 = (op ≡ 0x23) × (f3 ≡ 2)
Fields add op f3 f7 = (op ≡ 0x33) × (f3 ≡ 0) × (f7 ≢ 0x20)
Fields sub op f3 f7 = (op ≡ 0x33) × (f3 ≡ 0) × (f7 ≡ 0x20)
Fields sll op f3 f7 = (op ≡ 0x33) × (f3 ≡ 1)
Fields slt op f3 f7 = (op ≡ 0x33) × (f3 ≡ 2)
Fields sltu op f3 f7 = (op ≡ 0x33) × (f3 ≡ 3)
Fields xor op f3 f7 = (op ≡ 0x33) × (f3 ≡ 4)
Fields srl op f3 f7 = (op ≡ 0x33) × (f3 ≡ 5) × (f7 ≢ 0x20)
Fields sra op f3 f7 = (op ≡ 0x33) × (f3 ≡ 5) × (f7 ≡ 0x20)
Fields or op f3 f7 = (op ≡ 0x33) × (f3 ≡ 6)
Fields and op f3 f7 = (op ≡ 0x33) × (f3 ≡ 7)
Fields jalr op f3 f7 = 0 ≤ 0
Fields slli op f3 f7 = 0 ≤ 0
Fields fence op f3 f7 = 0 ≤ 0
Fields ecall_ebreak op f3 f7 = 0 ≤ 0
Fields unknown op f3 f7 = 0 ≤ 0

lui-Fields : (op f3 f7 : ℕ) → name_of_fields op f3 f7 ≡ lui → Fields lui op f3 f7
unfolding name_of_fields
lui-Fields op f3 f7 h = ground arith

auipc-Fields : (op f3 f7 : ℕ) → name_of_fields op f3 f7 ≡ auipc → Fields auipc op f3 f7
unfolding name_of_fields
auipc-Fields op f3 f7 h = ground arith

jal-Fields : (op f3 f7 : ℕ) → name_of_fields op f3 f7 ≡ jal → Fields jal op f3 f7
unfolding name_of_fields
jal-Fields op f3 f7 h = ground arith

lb-Fields : (op f3 f7 : ℕ) → name_of_fields op f3 f7 ≡ lb → Fields lb op f3 f7
unfolding name_of_fields
lb-Fields op f3 f7 h = ground arith

lh-Fields : (op f3 f7 : ℕ) → name_of_fields op f3 f7 ≡ lh → Fields lh op f3 f7
unfolding name_of_fields
lh-Fields op f3 f7 h = ground arith

lw-Fields : (op f3 f7 : ℕ) → name_of_fields op f3 f7 ≡ lw → Fields lw op f3 f7
unfolding name_of_fields
lw-Fields op f3 f7 h = ground arith

lbu-Fields : (op f3 f7 : ℕ) → name_of_fields op f3 f7 ≡ lbu → Fields lbu op f3 f7
unfolding name_of_fields
lbu-Fields op f3 f7 h = ground arith

lhu-Fields : (op f3 f7 : ℕ) → name_of_fields op f3 f7 ≡ lhu → Fields lhu op f3 f7
unfolding name_of_fields
lhu-Fields op f3 f7 h = ground arith

addi-Fields : (op f3 f7 : ℕ) → name_of_fields op f3 f7 ≡ addi → Fields addi op f3 f7
unfolding name_of_fields
addi-Fields op f3 f7 h = ground arith

slti-Fields : (op f3 f7 : ℕ) → name_of_fields op f3 f7 ≡ slti → Fields slti op f3 f7
unfolding name_of_fields
slti-Fields op f3 f7 h = ground arith

sltiu-Fields : (op f3 f7 : ℕ) → name_of_fields op f3 f7 ≡ sltiu → Fields sltiu op f3 f7
unfolding name_of_fields
sltiu-Fields op f3 f7 h = ground arith

ori-Fields : (op f3 f7 : ℕ) → name_of_fields op f3 f7 ≡ ori → Fields ori op f3 f7
unfolding name_of_fields
ori-Fields op f3 f7 h = ground arith

xori-Fields : (op f3 f7 : ℕ) → name_of_fields op f3 f7 ≡ xori → Fields xori op f3 f7
unfolding name_of_fields
xori-Fields op f3 f7 h = ground arith

andi-Fields : (op f3 f7 : ℕ) → name_of_fields op f3 f7 ≡ andi → Fields andi op f3 f7
unfolding name_of_fields
andi-Fields op f3 f7 h = ground arith

srli-Fields : (op f3 f7 : ℕ) → name_of_fields op f3 f7 ≡ srli → Fields srli op f3 f7
unfolding name_of_fields
srli-Fields op f3 f7 h = ground arith

srai-Fields : (op f3 f7 : ℕ) → name_of_fields op f3 f7 ≡ srai → Fields srai op f3 f7
unfolding name_of_fields
srai-Fields op f3 f7 h = ground arith

beq-Fields : (op f3 f7 : ℕ) → name_of_fields op f3 f7 ≡ beq → Fields beq op f3 f7
unfolding name_of_fields
beq-Fields op f3 f7 h = ground arith

bne-Fields : (op f3 f7 : ℕ) → name_of_fields op f3 f7 ≡ bne → Fields bne op f3 f7
unfolding name_of_fields
bne-Fields op f3 f7 h = ground arith

blt-Fields : (op f3 f7 : ℕ) → name_of_fields op f3 f7 ≡ blt → Fields blt op f3 f7
unfolding name_of_fields
blt-Fields op f3 f7 h = ground arith

bge-Fields : (op f3 f7 : ℕ) → name_of_fields op f3 f7 ≡ bge → Fields bge op f3 f7
unfolding name_of_fields
bge-Fields op f3 f7 h = ground arith

bltu-Fields : (op f3 f7 : ℕ) → name_of_fields op f3 f7 ≡ bltu → Fields bltu op f3 f7
unfolding name_of_fields
bltu-Fields op f3 f7 h = ground arith

bgeu-Fields : (op f3 f7 : ℕ) → name_of_fields op f3 f7 ≡ bgeu → Fields bgeu op f3 f7
unfolding name_of_fields
bgeu-Fields op f3 f7 h = ground arith

sb-Fields : (op f3 f7 : ℕ) → name_of_fields op f3 f7 ≡ sb → Fields sb op f3 f7
unfolding name_of_fields
sb-Fields op f3 f7 h = ground arith

sh-Fields : (op f3 f7 : ℕ) → name_of_fields op f3 f7 ≡ sh → Fields sh op f3 f7
unfolding name_of_fields
sh-Fields op f3 f7 h = ground arith

sw-Fields : (op f3 f7 : ℕ) → name_of_fields op f3 f7 ≡ sw → Fields sw op f3 f7
unfolding name_of_fields
sw-Fields op f3 f7 h = ground arith

add-Fields : (op f3 f7 : ℕ) → name_of_fields op f3 f7 ≡ add → Fields add op f3 f7
unfolding name_of_fields
add-Fields op f3 f7 h = ground arith

sub-Fields : (op f3 f7 : ℕ) → name_of_fields op f3 f7 ≡ sub → Fields sub op f3 f7
unfolding name_of_fields
sub-Fields op f3 f7 h = ground arith

sll-Fields : (op f3 f7 : ℕ) → name_of_fields op f3 f7 ≡ sll → Fields sll op f3 f7
unfolding name_of_fields
sll-Fields op f3 f7 h = ground arith

slt-Fields : (op f3 f7 : ℕ) → name_of_fields op f3 f7 ≡ slt → Fields slt op f3 f7
unfolding name_of_fields
slt-Fields op f3 f7 h = ground arith

sltu-Fields : (op f3 f7 : ℕ) → name_of_fields op f3 f7 ≡ sltu → Fields sltu op f3 f7
unfolding name_of_fields
sltu-Fields op f3 f7 h = ground arith

xor-Fields : (op f3 f7 : ℕ) → name_of_fields op f3 f7 ≡ xor → Fields xor op f3 f7
unfolding name_of_fields
xor-Fields op f3 f7 h = ground arith

srl-Fields : (op f3 f7 : ℕ) → name_of_fields op f3 f7 ≡ srl → Fields srl op f3 f7
unfolding name_of_fields
srl-Fields op f3 f7 h = ground arith

sra-Fields : (op f3 f7 : ℕ) → name_of_fields op f3 f7 ≡ sra → Fields sra op f3 f7
unfolding name_of_fields
sra-Fields op f3 f7 h = ground arith

or-Fields : (op f3 f7 : ℕ) → name_of_fields op f3 f7 ≡ or → Fields or op f3 f7
unfolding name_of_fields
or-Fields op f3 f7 h = ground arith

and-Fields : (op f3 f7 : ℕ) → name_of_fields op f3 f7 ≡ and → Fields and op f3 f7
unfolding name_of_fields
and-Fields op f3 f7 h = ground arith

-- The names that decode_instr_name gives without a look at all fixed fields: JALR and FENCE at any
-- funct3, SLLI at any funct7, and ECALL and EBREAK whatever the rest of the word is.
pub record IsExact (n : InstrName) : Type 0 where
  pub jalr_out : n ≢ jalr
  pub slli_out : n ≢ slli
  pub fence_out : n ≢ fence
  pub ecall_ebreak_out : n ≢ ecall_ebreak

-- A word of the base set that decode_instr_name gives a name other than JALR, SLLI, FENCE or
-- ECALL/EBREAK is one that the tests' header encodes with that name.
pub decoded-Encodes :
    (n : InstrName) (w : ℕ) → IsBase w → IsExact n → decode_instr_name w ≡ n → Encodes n w
unfolding decode_instr_name
decoded-Encodes lui w base exact h = opcode_mask w ∙ omega (arith, lui-Fields _ _ _ h)
decoded-Encodes auipc w base exact h = opcode_mask w ∙ omega (arith, auipc-Fields _ _ _ h)
decoded-Encodes jal w base exact h = opcode_mask w ∙ omega (arith, jal-Fields _ _ _ h)
decoded-Encodes jalr w base exact h = absurd (exact.jalr_out refl)
decoded-Encodes lb w base exact h = funct3_mask w ∙ omega (arith, lb-Fields _ _ _ h)
decoded-Encodes lh w base exact h = funct3_mask w ∙ omega (arith, lh-Fields _ _ _ h)
decoded-Encodes lw w base exact h = funct3_mask w ∙ omega (arith, lw-Fields _ _ _ h)
decoded-Encodes lbu w base exact h = funct3_mask w ∙ omega (arith, lbu-Fields _ _ _ h)
decoded-Encodes lhu w base exact h = funct3_mask w ∙ omega (arith, lhu-Fields _ _ _ h)
decoded-Encodes addi w base exact h = funct3_mask w ∙ omega (arith, addi-Fields _ _ _ h)
decoded-Encodes slti w base exact h = funct3_mask w ∙ omega (arith, slti-Fields _ _ _ h)
decoded-Encodes sltiu w base exact h = funct3_mask w ∙ omega (arith, sltiu-Fields _ _ _ h)
decoded-Encodes ori w base exact h = funct3_mask w ∙ omega (arith, ori-Fields _ _ _ h)
decoded-Encodes xori w base exact h = funct3_mask w ∙ omega (arith, xori-Fields _ _ _ h)
decoded-Encodes andi w base exact h = funct3_mask w ∙ omega (arith, andi-Fields _ _ _ h)
decoded-Encodes slli w base exact h = absurd (exact.slli_out refl)
decoded-Encodes srli w base exact h = funct7_mask w ∙ omega (arith, srli-Fields _ _ _ h)
decoded-Encodes srai w base exact h = funct7_mask w ∙ omega (arith, srai-Fields _ _ _ h)
decoded-Encodes beq w base exact h = funct3_mask w ∙ omega (arith, beq-Fields _ _ _ h)
decoded-Encodes bne w base exact h = funct3_mask w ∙ omega (arith, bne-Fields _ _ _ h)
decoded-Encodes blt w base exact h = funct3_mask w ∙ omega (arith, blt-Fields _ _ _ h)
decoded-Encodes bge w base exact h = funct3_mask w ∙ omega (arith, bge-Fields _ _ _ h)
decoded-Encodes bltu w base exact h = funct3_mask w ∙ omega (arith, bltu-Fields _ _ _ h)
decoded-Encodes bgeu w base exact h = funct3_mask w ∙ omega (arith, bgeu-Fields _ _ _ h)
decoded-Encodes sb w base exact h = funct3_mask w ∙ omega (arith, sb-Fields _ _ _ h)
decoded-Encodes sh w base exact h = funct3_mask w ∙ omega (arith, sh-Fields _ _ _ h)
decoded-Encodes sw w base exact h = funct3_mask w ∙ omega (arith, sw-Fields _ _ _ h)
decoded-Encodes add w base exact h = funct7_mask w ∙ ground (arith, add-Fields _ _ _ h, base.funct7)
decoded-Encodes sub w base exact h = funct7_mask w ∙ ground (arith, sub-Fields _ _ _ h, base.funct7)
decoded-Encodes sll w base exact h = funct7_mask w ∙ ground (arith, sll-Fields _ _ _ h, base.funct7)
decoded-Encodes slt w base exact h = funct7_mask w ∙ ground (arith, slt-Fields _ _ _ h, base.funct7)
decoded-Encodes sltu w base exact h =
    funct7_mask w ∙ ground (arith, sltu-Fields _ _ _ h, base.funct7)
decoded-Encodes xor w base exact h = funct7_mask w ∙ ground (arith, xor-Fields _ _ _ h, base.funct7)
decoded-Encodes srl w base exact h = funct7_mask w ∙ ground (arith, srl-Fields _ _ _ h, base.funct7)
decoded-Encodes sra w base exact h = funct7_mask w ∙ ground (arith, sra-Fields _ _ _ h, base.funct7)
decoded-Encodes or w base exact h = funct7_mask w ∙ ground (arith, or-Fields _ _ _ h, base.funct7)
decoded-Encodes and w base exact h = funct7_mask w ∙ ground (arith, and-Fields _ _ _ h, base.funct7)
decoded-Encodes fence w base exact h = absurd (exact.fence_out refl)
decoded-Encodes ecall_ebreak w base exact h = absurd (exact.ecall_ebreak_out refl)
decoded-Encodes unknown w base exact h = absurd (base.known h)
