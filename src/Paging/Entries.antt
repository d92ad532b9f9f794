-- ===== src/Paging/Entries.antt =====
-- vm.c: the frame that an entry points to, when flags are set in it.
use rv32i_pipeline_fpga.Common.{ℕ, ◌*◌, ◌/◌, ◌%◌, ◌^◌, ◌<◌, ◌≡◌, ◌≢◌, ap, ◌∙◌, arith, bit_or}
use rv32i_pipeline_fpga.Common.Bits.{bit_or_low}
use rv32i_pipeline_fpga.Paging.{frame_of, entry, pte_a, pte_d}

-- Flags do not change the frame.
pub frame_of-bit_or : (pte flag : ℕ) → flag < 2 ^ 10 → frame_of (bit_or pte flag) ≡ frame_of pte
unfolding frame_of
frame_of-bit_or pte flag bound = ap (λ x. x % 2 ^ 44) (bit_or_low 10 pte flag bound)

frame_of-shifted : (x : ℕ) → x < 2 ^ 44 → frame_of (x * 4096 / 2 ^ 12 * 2 ^ 10) ≡ x
unfolding frame_of
frame_of-shifted x b = omega arith

pub frame_of-entry :
    (frame flags : ℕ)
    → frame < 2 ^ 44
    → flags < 2 ^ 10
    → frame_of (entry (frame * 4096) flags) ≡ frame
unfolding entry
frame_of-entry frame flags bound low =
    frame_of-bit_or (frame * 4096 / 2 ^ 12 * 2 ^ 10) flags low ∙ frame_of-shifted frame bound

pub open_pte-frame : (pte : ℕ) → frame_of (bit_or (bit_or pte pte_a) pte_d) ≡ frame_of pte
open_pte-frame pte =
    frame_of-bit_or (bit_or pte pte_a) pte_d (omega arith) ∙ frame_of-bit_or pte pte_a (omega arith)

-- An entry that points past frame 0 is not 0.
pub frame_of-nonzero : (pte : ℕ) → 0 < frame_of pte → pte ≢ 0
unfolding frame_of
frame_of-nonzero pte above e = absurd (ground arith)
