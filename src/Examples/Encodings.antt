-- ===== src/Examples/Encodings.antt =====
-- The encodings of the tests' header at concrete words.
use rv32i_pipeline_fpga.Common.{◌≡◌, ◌≢◌, refl, arith, inl, bit_and}
use rv32i_pipeline_fpga.Pkg.{add, lw, slli, decode_instr_name, name_of_fields}
use rv32i_pipeline_fpga.Control.Names.{IsBase}
use rv32i_pipeline_fpga.Encoding.{Encodes, slli_rv32_insn}
use rv32i_pipeline_fpga.Encoding.Decode.{header_decodes}
use rv32i_pipeline_fpga.Encoding.Exact.{IsExact, decoded-Encodes}

-- lw x5, 8(x2).
header_decodes_example : decode_instr_name 0x0081_2283 ≡ lw
header_decodes_example = header_decodes lw 0x0081_2283 refl

-- add x2, x1, x1.
add-IsBase : IsBase 0x0010_8133
unfolding decode_instr_name name_of_fields
add-IsBase = record { known = λ e. cc; funct7 = λ h. inl (omega arith) }

add-IsExact : IsExact add
add-IsExact = record {
  jalr_out = λ e. cc;
  slli_out = λ e. cc;
  fence_out = λ e. cc;
  ecall_ebreak_out = λ e. cc;
}

decoded-Encodes_example : Encodes add 0x0010_8133
unfolding decode_instr_name name_of_fields
decoded-Encodes_example = decoded-Encodes add 0x0010_8133 add-IsBase add-IsExact refl

-- The word 0x40109113 has funct7 0x20: the header's mask does not make it an SLLI.
loose_slli :
    (decode_instr_name 0x4010_9113 ≡ slli)
    × (bit_and 0x4010_9113 slli_rv32_insn.mask ≢ slli_rv32_insn.match_bits)
unfolding decode_instr_name name_of_fields
loose_slli = (refl, λ h. absurd (omega (arith, h)))
