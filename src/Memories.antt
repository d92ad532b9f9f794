-- ===== src/Memories.antt =====
-- rtl/Reg_File.sv, rtl/IMEM.sv and rtl/DMEM.sv: the clocked memories. An array is a function of
-- its index; the contents that $readmemh loads are arguments.
pub mod Access
use rv32i_pipeline_fpga.Common.{
  ℕ, ◌/◌, ◌%◌, ◌^◌, ◌*◌, ◌+◌, Bool, not, ◌&&◌, ◌==◌, if◌then◌else◌, slice, bit, concat,
  replicate_bit, sub32, update,
}

-- `Reg_File`: the array, one read port, and the write on the clock edge.
abbrev pub Registers : Type 0
Registers = ℕ → ℕ

unfoldable pub reg_file_read : Registers → ℕ → ℕ
reg_file_read registers adr = if adr == 0 then 0 else registers adr

unfoldable pub reg_file_step : Registers → Bool → ℕ → ℕ → Registers
reg_file_step registers en w_adr w_data =
    if en && not (w_adr == 0) then update registers w_adr w_data else registers

-- `IMEM`: its two registered outputs.
pub record Imem : Type 0 where
  pub instruction : ℕ
  pub pc_used : ℕ

-- The word index `PC[14:2]`.
abbrev pub imem_word_address : ℕ → ℕ
imem_word_address pc = slice pc 14 2

-- One clock edge of `IMEM`; `rom` is `instruction_memory`.
unfoldable pub imem_step : (ℕ → ℕ) → Imem → ℕ → Bool → Bool → Bool → Imem
imem_step rom s pc stall flush freeze =
    if flush && not stall
    then record { instruction = rom (imem_word_address pc); pc_used = pc }
    else if stall
    then s
    else if freeze
    then record { instruction = 0; pc_used = s.pc_used }
    else record { instruction = rom (imem_word_address pc); pc_used = pc }

-- `DMEM`: the array and the registered word.
pub record Dmem : Type 0 where
  pub memory : ℕ → ℕ
  pub mem_read_word : ℕ

-- `11'((address - 32'h00003f60) >> 2)`.
abbrev pub dmem_word_address : ℕ → ℕ
dmem_word_address address = sub32 address 0x3f60 / 4 % 2 ^ 11

-- `mem_data`: the size in its two high bits, the load's unsignedness in its low bit.
abbrev pub mem_size_of : ℕ → ℕ
mem_size_of mem_data = slice mem_data 2 1

abbrev pub mem_sign_of : ℕ → ℕ
mem_sign_of mem_data = slice mem_data 0 0

abbrev pub byte_offset : ℕ → ℕ
byte_offset address = slice address 1 0

-- `w[hi:lo] <= v`, for a `v` of as many bits.
abbrev pub set_slice : ℕ → ℕ → ℕ → ℕ → ℕ
set_slice w hi lo v = w / 2 ^ (hi + 1) * 2 ^ (hi + 1) + v * 2 ^ lo + w % 2 ^ lo

-- The `case` of a store: the word that replaces `w`.
unfoldable pub store_word : ℕ → ℕ → ℕ → ℕ
store_word key w data_in =
    if key == 0b0000
    then set_slice w 7 0 (slice data_in 7 0)
    else if key == 0b0001
    then set_slice w 15 8 (slice data_in 7 0)
    else if key == 0b0010
    then set_slice w 23 16 (slice data_in 7 0)
    else if key == 0b0011
    then set_slice w 31 24 (slice data_in 7 0)
    else if key == 0b0100
    then set_slice w 15 0 (slice data_in 15 0)
    else if key == 0b0101
    then set_slice w 23 8 (slice data_in 15 0)
    else if key == 0b0110
    then set_slice w 31 16 (slice data_in 15 0)
    else if key == 0b1000
    then data_in
    else w

-- The `case` of a load: what `data_out` shows of the registered word.
unfoldable pub load_word : ℕ → ℕ → ℕ
load_word key w =
    if key == 0b00011
    then concat 8 (replicate_bit 24 (bit w 31)) (slice w 31 24)
    else if key == 0b00010
    then concat 8 (replicate_bit 24 (bit w 23)) (slice w 23 16)
    else if key == 0b00001
    then concat 8 (replicate_bit 24 (bit w 15)) (slice w 15 8)
    else if key == 0b00000
    then concat 8 (replicate_bit 24 (bit w 7)) (slice w 7 0)
    else if key == 0b00110
    then concat 16 (replicate_bit 16 (bit w 31)) (slice w 31 16)
    else if key == 0b00101
    then concat 16 (replicate_bit 16 (bit w 23)) (slice w 23 8)
    else if key == 0b00100
    then concat 16 (replicate_bit 16 (bit w 15)) (slice w 15 0)
    else if key == 0b01000
    then w
    else if key == 0b10011
    then slice w 31 24
    else if key == 0b10010
    then slice w 23 16
    else if key == 0b10001
    then slice w 15 8
    else if key == 0b10000
    then slice w 7 0
    else if key == 0b10110
    then slice w 31 16
    else if key == 0b10101
    then slice w 23 8
    else if key == 0b10100
    then slice w 15 0
    else 0

abbrev pub store_key : ℕ → ℕ → ℕ
store_key mem_data address = concat 2 (mem_size_of mem_data) (byte_offset address)

abbrev pub load_key : ℕ → ℕ → ℕ
load_key mem_data address =
    concat 4 (mem_sign_of mem_data) (concat 2 (mem_size_of mem_data) (byte_offset address))

-- One clock edge of `DMEM`: the write, and the read of the word as it was before the edge.
unfoldable pub dmem_step : Dmem → Bool → Bool → ℕ → ℕ → ℕ → Dmem
dmem_step s we rden address data_in mem_data =
    let i = dmem_word_address address in
    record {
      memory =
          if we
          then update s.memory i (store_word (store_key mem_data address) (s.memory i) data_in)
          else s.memory;
      mem_read_word = if rden then s.memory i else s.mem_read_word;
    }

-- `data_out`, from the registered word and from the address and `mem_data` of this very cycle.
unfoldable pub dmem_data_out : Dmem → ℕ → ℕ → ℕ
dmem_data_out s address mem_data = load_word (load_key mem_data address) s.mem_read_word
