-- ===== src/Cpu/Simulation/Execution.antt =====
-- rtl/CPU_TOP.sv refines the ISA: runs from a reset on.
use rv32i_pipeline_fpga.Common.{
  ℕ, ◌≡◌, refl, sym, ap₂, subst, ◌∙◌, add32, inl, inr, true, false, if◌then◌else◌, Bool-cases,
  arith,
}
use rv32i_pipeline_fpga.Pkg.{decode_instr_name, rs1_of, rs2_of}
use rv32i_pipeline_fpga.Datapath.{program_counter}
use rv32i_pipeline_fpga.Hazards.{forwarding_unit, hazard_unit}
use rv32i_pipeline_fpga.Memories.{imem_step, reg_file_read}
use rv32i_pipeline_fpga.Control.Names.{IsBase}
use rv32i_pipeline_fpga.Cpu.{Config, Cpu, stalled, forwarding, hazard, next_pc, decode}
use rv32i_pipeline_fpga.Cpu.Step.{
  freeze, next_registers, next_imem, next_if_id, next_id_ex, next_ex_mem, next_mem_wb,
  next_halt_sig, step,
}
use rv32i_pipeline_fpga.Cpu.Operands.{IsInert, InOrder, IsRunning}
use rv32i_pipeline_fpga.Cpu.Invariant.{step-InOrder, reset-InOrder}
use rv32i_pipeline_fpga.Cpu.Simulation.{
  Occupancy, empty, half, full, retires, fetch, imem_at, slot, next_occupancy, IsBubble, Tracks,
  at_empty, at_half, at_full, Implements,
}
use rv32i_pipeline_fpga.Cpu.Simulation.Fetch.{hazard-bubble, id_ex_reset-IsBubble}
use rv32i_pipeline_fpga.Cpu.Simulation.Retire.{hazard_lem, operands_lem}
use rv32i_pipeline_fpga.Cpu.Simulation.Refine.{
  after, reads-stalls, reads-bubble, Tracks-stalls, Tracks-empty, Tracks-half,
}
use rv32i_pipeline_fpga.Cpu.Simulation.Step.{
  Tracks-sequential, Tracks-redirect, reads-retires, target, go_on,
}
use rv32i_pipeline_fpga.Isa.{Arch, isa_step, next_pc_of}

-- The programmer's state after an edge: one instruction on where one retires.
abbrev pub follow : Config → Cpu → Occupancy → ℕ → Arch → Arch
follow c s o e t = if retires s o then isa_step (fetch c) e t else t

module _ (c : Config) (s : Cpu) (d e : ℕ) (t : Arch) (inert : IsInert c.x_control)
    (order : InOrder s) (live : freeze s ≡ false) where
  moved :
      {o o' : Occupancy} {u u' : Arch}
      → o' ≡ o
      → u' ≡ u
      → Implements c (after c s d) o e u
      → Implements c (after c s d) o' e u'
  moved p q i = rw (p, q) i

  follow-stalls : (o : Occupancy) → stalled s ≡ true → follow c s o e t ≡ t
  follow-stalls full waits = rw waits refl
  follow-stalls _ waits = refl

  Implements-stalls :
      (o : Occupancy)
      → stalled s ≡ true
      → Implements c s o d t
      → Implements c (after c s d) (next_occupancy c s o) e (follow c s o e t)
  Implements-stalls o waits i = moved (rw waits refl) (follow-stalls o waits) (record {
    holds = Tracks-stalls c s d waits i.holds;
    same_reads = λ r. reads-stalls c s d e r waits ∙ i.same_reads r;
  })

  module _ (moves : stalled s ≡ false)
      (same : (r : ℕ) → reg_file_read (next_registers c s d) r ≡ t.reads r) where
    Implements-bubble :
        (o : Occupancy)
        → IsBubble s.id_ex_q
        → Tracks c (after c s d) o t.pc
        → Implements c (after c s d) o e t
    Implements-bubble o b k = record {
      holds = k;
      same_reads = λ r. reads-bubble c s d e r moves b ∙ same r;
    }

    module _ (v1 v2 : ℕ) (base : IsBase (fetch c t.pc))
        (at_ex : s.id_ex_q ≡ decode c (slot c t.pc) v1 v2) where
      -- The next PC and the registers of the ISA are those that the pipe computes.
      target-isa : (isa_step (fetch c) e t).pc ≡ target c s t.pc
      unfolding isa_step
      target-isa =
          let n = decode_instr_name (fetch c t.pc) in
          ap₂ (next_pc_of n t.pc (fetch c t.pc)) (sym (same (rs1_of (fetch c t.pc))))
            (sym (same (rs2_of (fetch c t.pc))))
          ∙ sym (operands_lem c s (slot c t.pc) v1 v2 base at_ex d e order moves).1

      reads-isa :
          (r : ℕ)
          → reg_file_read (next_registers c (after c s d) e) r ≡ (isa_step (fetch c) e t).reads r
      unfolding isa_step
      reads-isa r =
          reads-retires c s d inert order moves live t.pc v1 v2 base at_ex e r
          ∙ ground (arith, same r, same (rs1_of (fetch c t.pc)), same (rs2_of (fetch c t.pc)))

      Implements-isa :
          (o : Occupancy)
          → Tracks c (after c s d) o (target c s t.pc)
          → Implements c (after c s d) o e (isa_step (fetch c) e t)
      Implements-isa o k = record {
        holds = subst (Tracks c (after c s d) o) (sym target-isa) k;
        same_reads = reads-isa;
      }

      quiet : s.id_ex_q.trap ≡ false
      quiet = ground arith

      Implements-retires :
          s.if_id_q ≡ slot c (add32 t.pc 4)
          → s.imem ≡ imem_at c (add32 (add32 t.pc 4) 4)
          → Implements c
              (after c s d)
              (if (hazard c s).if_id then empty else full)
              e
              (isa_step (fetch c) e t)
      Implements-retires f m = elim (Bool-cases (go_on c s t.pc)) [
        | inl g ↦
            rw ((hazard_lem c s (slot c t.pc) v1 v2 base at_ex moves quiet).0, g)
              (Implements-isa full
                (Tracks-sequential c s d inert order moves live t.pc v1 v2 base at_ex g f m))
        | inr g ↦
            rw ((hazard_lem c s (slot c t.pc) v1 v2 base at_ex moves quiet).0, g)
              (Implements-isa empty
                (Tracks-redirect c s d inert order moves live t.pc v1 v2 base at_ex g))
      ]

  Implements-moves :
      (o : Occupancy)
      → stalled s ≡ false
      → (o ≡ full → IsBase (fetch c t.pc))
      → ((r : ℕ) → reg_file_read (next_registers c s d) r ≡ t.reads r)
      → Tracks c s o t.pc
      → Implements c (after c s d) (next_occupancy c s o) e (follow c s o e t)
  Implements-moves o moves base same (at_empty q b f m) =
      moved (rw (q, moves, (hazard-bubble c s b).0) refl) (rw q refl)
        (Implements-bubble moves same half b (Tracks-empty c s d inert moves live t.pc b f m))
  Implements-moves o moves base same (at_half q b f m) =
      moved (rw (q, moves, (hazard-bubble c s b).0) refl) (rw q refl)
        (Implements-bubble moves same full b (Tracks-half c s d inert moves live t.pc b f m))
  Implements-moves o moves base same (at_full q v1 v2 x f m) =
      moved (rw (q, moves) refl) (rw (q, moves) refl)
        (Implements-retires moves same v1 v2 (base q) x f m)

  -- An edge out of a running state that implements `t` leads to one that implements the state one
  -- instruction on, if one retires, and `t` itself if none does.
  pub step-Implements :
      (o : Occupancy)
      → (o ≡ full → IsBase (fetch c t.pc))
      → Implements c s o d t
      → Implements c (after c s d) (next_occupancy c s o) e (follow c s o e t)
  step-Implements o base i = elim (Bool-cases (stalled s)) [
    | inl waits ↦ Implements-stalls o waits i
    | inr moves ↦ Implements-moves o moves base i.same_reads i.holds
  ]

module _ (c : Config) (s : Cpu) (d1 d2 : ℕ) where
  abbrev pub booted : Cpu
  booted =
      step c (step c s (record { rst = true; data_in = d1 })) (record { rst = true; data_in = d2 })

  -- Two edges with `RST` high, out of any state that has not halted, empty the pipe in front of the
  -- instruction at 0, which is fetched.
  pub booted-Tracks : s.halt_sig ≡ false → Tracks c booted empty 0
  unfolding step next_imem next_if_id next_id_ex next_ex_mem next_mem_wb next_halt_sig imem_step
      next_pc program_counter forwarding forwarding_unit hazard hazard_unit
  booted-Tracks h = at_empty refl id_ex_reset-IsBubble refl (rw h refl)

  booted-InOrder : IsInert c.x_control → InOrder booted
  booted-InOrder inert = reset-InOrder c inert _ d2

-- `Execution c s o d t`: the pipeline has run from a reset to `s` through states that no trap and
-- no halt freezes, EX meeting only words of the base set; the bus delivers `d` in this cycle, and
-- `t` is the programmer's state after as many instructions as have retired.
pub data Execution (c : Config) : Cpu → Occupancy → ℕ → Arch → Type 0 where
  boot :
      (s : Cpu) (d1 d2 d : ℕ)
      → s.halt_sig ≡ false
      → Execution c
          (booted c s d1 d2)
          empty
          d
          (record { pc = 0; reads = reg_file_read (next_registers c (booted c s d1 d2) d) })
  edge :
      {s : Cpu} {o : Occupancy} {d : ℕ} {t : Arch} (e : ℕ)
      → Execution c s o d t
      → freeze s ≡ false
      → (o ≡ full → IsBase (fetch c t.pc))
      → Execution c (after c s d) (next_occupancy c s o) e (follow c s o e t)

freeze-IsRunning : (s : Cpu) → freeze s ≡ false → IsRunning s
freeze-IsRunning s h = ground arith

Execution-InOrder :
    {c : Config} {s : Cpu} {o : Occupancy} {d : ℕ} {t : Arch}
    → IsInert c.x_control
    → Execution c s o d t
    → InOrder s
Execution-InOrder {c} x (boot s d1 d2 d h) = booted-InOrder c s d1 d2 x
Execution-InOrder {c} x (edge {s = s} {d = d} e r live base) =
    step-InOrder c x s d (Execution-InOrder x r) (freeze-IsRunning s live)

-- The pipeline refines the ISA. In every state of a run from a reset through states that no trap
-- and no halt freezes, EX meeting only words of the base set, whatever the bus delivers: the pipe
-- holds exactly the instructions of the program order from the ISA's PC on, and the register file,
-- once the instruction in MEM has written back, reads as the ISA's registers, where the ISA has
-- executed one instruction for each that retired (stalls, flushes and bubbles count for none), a
-- load having taken what the bus delivered in its MEM cycle. The 'X control signals of an unknown
-- opcode are taken to change no state.
pub pipeline_refines_isa :
    (c : Config) (s : Cpu) (o : Occupancy) (d : ℕ) (t : Arch)
    → IsInert c.x_control
    → Execution c s o d t
    → Implements c s o d t
pipeline_refines_isa c s o d t x (boot s' d1 d2 d' h) = record {
  holds = booted-Tracks c s' d1 d2 h;
  same_reads = λ r. refl;
}
pipeline_refines_isa c s o d t x (edge {s = s'} {o = o'} {d = d'} {t = t'} e r live base) =
    step-Implements c s' d' e t' x (Execution-InOrder x r) live o' base
      (pipeline_refines_isa c s' o' d' t' x r)
