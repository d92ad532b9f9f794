-- ===== src/Lib.antt =====
-- Verification library for RV32I_Pipeline_FPGA: a five-stage RV32I processor in SystemVerilog, and
-- the C programs of riscv-tests/ that run on it.
--
-- The program. rtl/CPU_TOP.sv is the pipeline (fetch, decode, execute, memory, write back). It
-- instantiates the combinational modules of execute and fetch, the control unit, the forwarding
-- and hazard units, the register file and the instruction memory, and it asks rtl/Interconnect.sv
-- for data accesses, which rtl/DMEM.sv or the board's devices serve. riscv-tests/benchmarks/ has
-- the benchmarks, with a runtime that stands in for the C library, and riscv-tests/env/v/ the
-- environment that runs a test in virtual memory; riscv-tests/debug/programs/ has an allocator.
--
-- The model of the hardware. A one-bit signal is a Bool, a wider one a natural number, and what can leave a
-- signal's range wraps by `%`. A combinational module is a function of its inputs; a clocked one
-- is a record of its registers with a function for one clock edge. An array is a function of its
-- index. An 'X that the source assigns is an argument of any value: `Config.x_control` for the
-- control signals of an unknown opcode, `Config.x_word` for a word; theorems that need such an
-- 'X to change no state say so by `IsInert`. The program that $readmemh loads is `Config.rom`;
-- what the data bus delivers is an input of each edge.
--
-- The model of the C programs. A C value is a natural number. The wrap-around of what is computed
-- with an int, a word or a size_t is written out; addresses, indices and loop counters are plain
-- numbers, and so are the sums of block addresses and sizes in malloc, free and realloc (those of
-- memalign wrap). Memory is a function from addresses to bytes, or from indices to an array's
-- elements; variables that a function changes are in its result. Linked structures keep their
-- nodes: Towers shares a pool of nodes among four lists, the allocator's free list is the list of
-- its blocks, and the page handler's nodes are numbers with their fields in two maps.
--
-- Files of the hardware. Common: Boolean tests, bit vectors, integers, lists. Pkg: rtl/CPU_pkg.sv,
-- with the pipeline registers in Pkg/Registers. Datapath: rtl/ALU.sv, rtl/Immediate_Generator.sv,
-- rtl/Branch_Condition_Generator.sv, rtl/PC_Decoder.sv, rtl/Jump_Branch_Address_Generator.sv,
-- rtl/Program_Counter.sv and the two multiplexers. Control: rtl/Control_Unit_Decoder.sv.
-- Hazards: rtl/Forwarding_Unit.sv and rtl/HazardUnit.sv. Memories: rtl/Reg_File.sv, rtl/IMEM.sv
-- and rtl/DMEM.sv. Bus: rtl/Interconnect.sv. Cpu: the wires of rtl/CPU_TOP.sv, and Cpu/Step its
-- clocked blocks. Display: rtl/SevSegDisp.sv, rtl/BCD.sv and rtl/CathodeDriver.sv, whose divided
-- clock is a bit of the state and whose refresh is part of the edge that raises it. Isa: the
-- instruction set, stated apart from the pipeline's encodings. The other children hold proofs:
-- Display/Decimal and Display/Refresh what the display shows, Cpu/Operands and Cpu/Invariant the
-- forwarding invariant, Cpu/Reach the states that a run reaches, Cpu/Stall the stall and the halt,
-- Cpu/Execute the execute stage, and Cpu/Simulation the simulation of the ISA.
--
-- Files of the C programs, with paths below riscv-tests/. Bench: benchmarks/multiply/multiply.c,
-- benchmarks/median/median.c, the checks of benchmarks/common/util.h (Bench/Verify) and
-- benchmarks/towers/towers_main.c (Bench/Towers and its children). Runtime: Runtime/Strings is
-- env/v/string.c, Runtime/Syscalls and Runtime/Print are benchmarks/common/syscalls.c; the other
-- children hold proofs. Heap: debug/programs/tiny-malloc.c, with the search of malloc, the merging
-- of free, the heap invariant, whole calls, the counts of mallinfo, and memalign (Heap/Memalign, with
-- proofs in Heap/Cuts, Heap/Alignment, Heap/Rounds and Heap/Aligned) in its children. Paging: env/v/vm.c, with the
-- entries, the pool, the fault handler, the eviction, the exit and the boot in its children.
--
-- Encoding: the encodings of RV32I in env/encoding.h, each as the pair of a MATCH_ and a MASK_
-- constant; its children compare them with decode_instr_name of rtl/CPU_pkg.sv.
--
-- Matmul: nine of the matrix products of mt/ (df, cl, al, bf, bm, az, cv, bk and dv_matmul.c), in a
-- file or two each. A kernel is the list of the assignments that a core makes, which its number,
-- the number of cores and lda decide; Matmul/Cores has two cores, whose assignments come in any
-- order, Matmul/Shares what each core computes, and Matmul/Kernels the products. The lists are
-- finite for every lda; the theorems are about lda = 32, the size that the kernels are written
-- for. data_t and its arithmetic are arguments, and no law of them is used. Matmul/Sweep, Tiles,
-- Regions and Slices are about any kernel: a group that is written out, a block of elements, the
-- parts of C, and the parts of a product; Unrolled, Sixteen, Halves, Cases, Blocks, Eights, Strips,
-- CvRows and Octets are about the groups of the nine.
--
-- Examples holds the tests.
--
-- Fuel. The hardware has none: an edge is a total function, and runs are lists or derivations. A C
-- loop over a count or a list is structural recursion. A loop that a byte of memory or a pointer
-- ends takes a number of rounds as fuel, and `none` is the end of the fuel; the theorems name
-- fuel that is enough, such as the length of a string or of a list. Elsewhere `none` is a null
-- pointer or an assertion that failed, as the file says.
--
-- Not modelled: the board wrapper rtl/MCU_WRAPPER.sv with its two clocks, and the testbenches. Of
-- riscv-tests/: the sorts and dhrystone; the other kernels of mt/, most of which use a barrier, a
-- transposed copy or an associative addition; malloc_stats and mallopt of tiny-malloc.c; the system calls, counters and thread start-up of
-- syscalls.c and the barrier of util.h; the page tables that vm_boot writes; env/encoding.h, which
-- is generated, but for RV32I and the constants in use; the tests in assembly.
pub mod Common
pub mod Pkg
pub mod Encoding
pub mod Datapath
pub mod Control
pub mod Hazards
pub mod Memories
pub mod Bus
pub mod Cpu
pub mod Display
pub mod Isa
pub mod Bench
pub mod Runtime
pub mod Heap
pub mod Paging
pub mod Matmul
mod Examples
