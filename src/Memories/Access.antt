-- ===== src/Memories/Access.antt =====
-- rtl/DMEM.sv: stores and loads of bytes, halfwords and words.
use rv32i_pipeline_fpga.Common.{
  ℕ, ◌+◌, ◌-◌, ◌/◌, ◌%◌, ◌^◌, ◌<◌, ◌≤◌, ◌≡◌, ◌⊎◌, false, concat, arith,
}
use rv32i_pipeline_fpga.Isa.{sign_extend}
use rv32i_pipeline_fpga.Memories.{Dmem, store_word, load_word, dmem_data_out}
use rv32i_pipeline_fpga.Cpu.{Config, Cpu, bus_request}

-- The sizes and byte offsets that the two `case`s list: a byte anywhere, a halfword that does not
-- cross the word, an aligned word.
pub data Lane : Type 0 where
  byte0 byte1 byte2 byte3 half0 half1 half2 word : Lane

-- `{mem_size, byteOffset}`, and the number of bits.
abbrev pub key_of : Lane → ℕ
key_of byte0 = 0b0000
key_of byte1 = 0b0001
key_of byte2 = 0b0010
key_of byte3 = 0b0011
key_of half0 = 0b0100
key_of half1 = 0b0101
key_of half2 = 0b0110
key_of word = 0b1000

abbrev pub width : Lane → ℕ
width half0 = 16
width half1 = 16
width half2 = 16
width word = 32
width _ = 8

-- For data of 32 bits, a signed load of what a store has put into a word, at the same size and
-- offset, gives the sign extension of the stored value's low part.
pub signed_load_store :
    (l : Lane) (w data_in : ℕ)
    → data_in < 2 ^ 32
    → load_word (key_of l) (store_word (key_of l) w data_in)
      ≡ sign_extend (width l) (data_in % 2 ^ width l)
unfolding load_word store_word
signed_load_store byte0 w data_in fits = ground arith
signed_load_store _ w data_in fits = ground arith

-- A word has no unsigned load.
abbrev pub unsigned_key : Lane → ℕ
unsigned_key word = key_of word
unsigned_key l = concat 4 1 (key_of l)

-- For data of 32 bits, an unsigned load of a byte or halfword, or a load of a word, of what a store
-- has put at the same size and offset gives the low part of the stored value.
pub unsigned_load_store :
    (l : Lane) (w data_in : ℕ)
    → data_in < 2 ^ 32
    → load_word (unsigned_key l) (store_word (key_of l) w data_in) ≡ data_in % 2 ^ width l
unfolding load_word store_word
unsigned_load_store byte0 w data_in fits = ground arith
unsigned_load_store _ w data_in fits = ground arith

-- The offset of a lane's first bit.
abbrev pub start : Lane → ℕ
start byte1 = 8
start byte2 = 16
start byte3 = 24
start half1 = 8
start half2 = 16
start _ = 0

-- Given a word and data of 32 bits, a store changes no bit of the word below or above its lane and
-- leaves a word of 32 bits.
pub store_keeps :
    (l : Lane) (w data_in : ℕ)
    → w < 2 ^ 32
    → data_in < 2 ^ 32
    → let v = store_word (key_of l) w data_in in
      (v % 2 ^ start l ≡ w % 2 ^ start l)
      × (v / 2 ^ (start l + width l) ≡ w / 2 ^ (start l + width l))
      × (v < 2 ^ 32)
unfolding store_word
store_keeps byte0 w data_in hw hd = ground arith
store_keeps _ w data_in hw hd = ground arith

-- What a signed byte can be, as a word.
abbrev pub IsNarrow : ℕ → Type 0
IsNarrow v = (v < 2 ^ 7) ⊎ (2 ^ 32 - 2 ^ 7 ≤ v)

load_byte-IsNarrow : (key w : ℕ) → key < 4 → IsNarrow (load_word key w)
unfolding load_word
load_byte-IsNarrow key w h = ground arith

-- While the instruction in EX has the size and sign bits 0 of `func3` 000, what the data memory
-- delivers in that cycle is the sign extension of one byte, whatever the load in MEM asked for and
-- whatever word the memory has registered.
pub dmem_data_out-IsNarrow :
    (c : Config) (s : Cpu) (m : Dmem)
    → s.id_ex_q.mem_size ≡ 0
    → s.id_ex_q.mem_sign ≡ false
    → let b = bus_request c s in let v = dmem_data_out m b.data_address b.mem_data in IsNarrow v
unfolding bus_request dmem_data_out
dmem_data_out-IsNarrow c s m size sign =
    rw (size, sign) (load_byte-IsNarrow _ m.mem_read_word (omega arith))
