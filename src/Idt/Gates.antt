-- ===== src/Idt/Gates.antt =====
-- src/idt.c: which handler each vector reaches.
use if2230_2023_ntaraja.Prelude.{
  sym, subst, ap, if◌then◌else◌, ◌⊎◌, ◌∙◌, ℕ_discrete, refl, length-set, leb, inr, inl,
  get_elem?-set_self, get_elem?-set_ne, ℕ, zero, suc, ◌+◌, ◌*◌, ◌^◌, ◌<◌, ◌≤◌, ◌≡◌, List, length,
  get_elem?, byte_at, arith, some,
}
use if2230_2023_ntaraja.Idt.{
  IdtGate, set_interrupt_gate, gate_loop, initialize_idt, kernel_code_selector, idt_max_entry_count,
  isr_stub_table_limit,
}

-- A valid 32-bit interrupt gate into the kernel's code, for callers of at least this privilege
pub record LeadsTo (handler privilege : ℕ) (g : IdtGate) : Type 0 where
  pub address : g.offset_low + g.offset_high * 2 ^ 16 ≡ handler
  pub code : g.segment ≡ kernel_code_selector
  pub callers : g.privilege ≡ privilege
  pub reserved : g.reserved ≡ 0
  pub system : g.r_bit_1 ≡ 0
  pub kind : g.r_bit_2 ≡ 6
  pub interrupt : g.r_bit_3 ≡ 0
  pub wide : g.gate_32 ≡ 1
  pub valid : g.valid_bit ≡ 1

-- The vector's gate after one call
set_interrupt_gate-LeadsTo :
    (i handler privilege : ℕ) (table : List IdtGate)
    → i < length table
    → handler < 2 ^ 32
    → privilege < 4
    → (g : IdtGate) × (get_elem?
          (set_interrupt_gate i handler kernel_code_selector privilege table)
          i
        ≡ some g)
      × LeadsTo handler privilege g
unfolding set_interrupt_gate
set_interrupt_gate-LeadsTo i handler privilege table lt small few = (
  _,
  get_elem?-set_self table i _ lt,
  record {
    address = omega arith;
    code = refl;
    callers = omega arith;
    reserved = refl;
    system = refl;
    kind = refl;
    interrupt = refl;
    wide = refl;
    valid = refl;
  },
)

length-set_interrupt_gate :
    (i handler selector privilege : ℕ) (table : List IdtGate)
    → length (set_interrupt_gate i handler selector privilege table) ≡ length table
unfolding set_interrupt_gate
length-set_interrupt_gate i handler selector privilege table = length-set table i _

-- The gates outside the loop's range stay.
gate_loop_other :
    (stubs : List ℕ) (rounds i j : ℕ) (table : List IdtGate)
    → (j < i) ⊎ (i + rounds ≤ j)
    → get_elem? (gate_loop stubs rounds i table) j ≡ get_elem? table j
unfolding gate_loop set_interrupt_gate
gate_loop_other stubs zero i j table out = refl
gate_loop_other stubs (suc rounds) i j table out =
    gate_loop_other stubs rounds (i + 1) j _
      (elim out [ inl lt ↦ inl (omega arith) | inr le ↦ inr (omega arith) ])
    ∙ get_elem?-set_ne table _ (λ e. elim out [ inl lt ↦ omega arith | inr le ↦ omega arith ])

gate_loop-LeadsTo :
    (stubs : List ℕ) (rounds i j : ℕ) (table : List IdtGate)
    → ((k : ℕ) → byte_at stubs k < 2 ^ 32)
    → i + rounds ≤ length table
    → i ≤ j
    → j < i + rounds
    → (g : IdtGate) × (get_elem? (gate_loop stubs rounds i table) j ≡ some g)
      × LeadsTo (byte_at stubs j) (if leb 48 j then 3 else 0) g
unfolding gate_loop
gate_loop-LeadsTo stubs zero i j table words room le lt = absurd (omega arith)
gate_loop-LeadsTo stubs (suc rounds) i j table words room le lt = elim (ℕ_discrete i j) [
  | yes e ↦
      let privilege = if leb 48 i then 3 else 0 in
      let table' = set_interrupt_gate i (byte_at stubs i) kernel_code_selector privilege table in
      let (g, found, leads) =
        set_interrupt_gate-LeadsTo i (byte_at stubs i) privilege table (omega arith) (words i)
          (ground arith) in
      (
        g,
        gate_loop_other stubs rounds (i + 1) j table' (inl (omega arith))
            ∙ ap (λ k. get_elem? table' k) (sym e)
            ∙ found,
        subst (λ k. LeadsTo (byte_at stubs k) (if leb 48 k then 3 else 0) g) e leads,
      )
  | no ne ↦
      gate_loop-LeadsTo stubs rounds (i + 1) j _ words
        (rw (length-set_interrupt_gate) (omega arith)) (omega arith) (omega arith)
]

-- After a whole table is initialised with 32-bit stub addresses, each of the first 64 vectors
-- leads to its own stub through a valid 32-bit interrupt gate, open to user code from vector 48
-- on and to the kernel alone below.
pub initialize_idt-LeadsTo :
    (stubs : List ℕ) (table : List IdtGate) (j : ℕ)
    → ((k : ℕ) → byte_at stubs k < 2 ^ 32)
    → length table ≡ idt_max_entry_count
    → j < isr_stub_table_limit
    → (g : IdtGate) × (get_elem? (initialize_idt stubs table) j ≡ some g)
      × LeadsTo (byte_at stubs j) (if leb 48 j then 3 else 0) g
unfolding initialize_idt
initialize_idt-LeadsTo stubs table j words width lt =
    gate_loop-LeadsTo stubs 64 0 j table words (omega arith) (omega arith) lt

-- The gates from vector 64 on are as they were.
pub initialize_idt_other :
    (stubs : List ℕ) (table : List IdtGate) (j : ℕ)
    → isr_stub_table_limit ≤ j
    → get_elem? (initialize_idt stubs table) j ≡ get_elem? table j
unfolding initialize_idt
initialize_idt_other stubs table j le = gate_loop_other stubs 64 0 j table (inr le)
