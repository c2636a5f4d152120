-- ===== src/Idt/Gates.antt =====
-- The descriptors that `idt_init` leaves, as the processor reads them.
use marrow_os.Base.{
  ℕ, zero, suc, ◌+◌, ◌*◌, ◌/◌, ◌%◌, ◌^◌, ◌≤◌, ◌<◌, ◌≡◌, refl, ap, ◌∙◌, leb, ltb, ◌==◌, ◌&&◌,
  if◌then◌else◌, some, pos, arith, Bool-cases, inl, inr, leb_lt,
}
use marrow_os.Base.Bits.{bit_and_ones}
use marrow_os.Idt.{
  Idt, IdtDesc, Entries, InterruptCallback, idt_handle_exception, idt_clock, total_interrupts,
  kernel_code_selector, cleared_idt, gate_fields, idt_set, idt_register_interrupt_callback,
  set_from, register_from, idt_init,
}

-- A present 32-bit interrupt gate that user programs may call, to a handler in the kernel's code.
pub record IsGate (handler : ℕ) (desc : IdtDesc) : Type 0 where
  pub offset : desc.offset_2 * 2 ^ 16 + desc.offset_1 ≡ handler
  pub selector_eq : desc.selector ≡ kernel_code_selector
  pub present : desc.type_attr / 128 ≡ 1
  pub privilege : desc.type_attr / 32 % 4 ≡ 3
  pub gate_type : desc.type_attr % 16 ≡ 14
  pub unused : desc.zero_byte ≡ 0

gate_fields-IsGate : (address : ℕ) → address < 2 ^ 32 → IsGate address (gate_fields address)
unfolding gate_fields
gate_fields-IsGate address h = record {
  offset = omega (arith, bit_and_ones 16 address);
  selector_eq = refl;
  present = refl;
  privilege = refl;
  gate_type = refl;
  unused = refl;
}

idt_set-descriptors :
    (i address : ℕ) (t : Idt) (j : ℕ)
    → (idt_set i address t).descriptors j
      ≡ (if j == i then gate_fields address else t.descriptors j)
unfolding idt_set
idt_set-descriptors i address t j = refl

set_from-descriptors :
    (left i : ℕ) (table : ℕ → ℕ) (t : Idt) (j : ℕ)
    → (set_from left i table t).descriptors j
      ≡ (if leb i j && ltb j (i + left) then gate_fields (table j) else t.descriptors j)
unfolding set_from idt_set
set_from-descriptors zero i table t j = ground arith
set_from-descriptors (suc left) i table t j =
    ground (arith, set_from-descriptors left (i + 1) table (idt_set i (table i) t) j)

register-descriptors :
    (i : ℕ) (callback : InterruptCallback) (t : Idt)
    → (idt_register_interrupt_callback (pos i) callback t).1.descriptors ≡ t.descriptors
unfolding idt_register_interrupt_callback
register-descriptors i callback t = elim (Bool-cases (leb total_interrupts i)) [
  | inl past ↦ rw past refl
  | inr inside ↦ rw inside refl
]

register_from-descriptors :
    (left i : ℕ) (t : Idt) → (register_from left i t).descriptors ≡ t.descriptors
unfolding register_from
register_from-descriptors zero i t = refl
register_from-descriptors (suc left) i t =
    register_from-descriptors left (i + 1)
      (idt_register_interrupt_callback (pos i) idt_handle_exception t).1
    ∙ register-descriptors i idt_handle_exception t

register_from-callbacks :
    (left i : ℕ) (t : Idt) (j : ℕ)
    → i + left ≤ total_interrupts
    → (register_from left i t).interrupt_callbacks j
      ≡ (if leb i j && ltb j (i + left) then some idt_handle_exception else t.interrupt_callbacks j)
unfolding register_from idt_register_interrupt_callback
register_from-callbacks zero i t j h = ground arith
register_from-callbacks (suc left) i t j h = ground (
  arith,
  register_from-callbacks left (i + 1)
      (idt_register_interrupt_callback (pos i) idt_handle_exception t).1 j,
)

-- The entry point of an interrupt.
unfoldable pub handler : Entries → ℕ → ℕ
handler e interrupt_no =
    if interrupt_no == 0x80
    then e.isr80h_wrapper
    else (if interrupt_no == 0 then e.idt_zero else e.interrupt_pointer_table interrupt_no)

idt_init-descriptors :
    (e : Entries) (t : Idt) (i : ℕ)
    → i < total_interrupts
    → (idt_init e t).descriptors i ≡ gate_fields (handler e i)
unfolding idt_init handler
idt_init-descriptors e t i h =
    ap (λ d. d i) (register-descriptors 0x20 idt_clock _)
    ∙ ap (λ d. d i) (register_from-descriptors 0x20 0 _)
    ∙ ground (
      arith,
      idt_set-descriptors 0x80 e.isr80h_wrapper
          (idt_set 0 e.idt_zero (set_from 512 0 e.interrupt_pointer_table (cleared_idt e t))) i,
      idt_set-descriptors 0 e.idt_zero (set_from 512 0 e.interrupt_pointer_table (cleared_idt e t))
          i,
      set_from-descriptors 512 0 e.interrupt_pointer_table (cleared_idt e t) i,
    )

abbrev special_gates : Entries → Idt → Idt
special_gates e t =
    idt_set 0x80 e.isr80h_wrapper
      (idt_set 0 e.idt_zero (set_from 512 0 e.interrupt_pointer_table (cleared_idt e t)))

idt_set-callbacks :
    (i address : ℕ) (t : Idt) → (idt_set i address t).interrupt_callbacks ≡ t.interrupt_callbacks
unfolding idt_set
idt_set-callbacks i address t = refl

set_from-callbacks :
    (left i : ℕ) (table : ℕ → ℕ) (t : Idt)
    → (set_from left i table t).interrupt_callbacks ≡ t.interrupt_callbacks
unfolding set_from
set_from-callbacks zero i table t = refl
set_from-callbacks (suc left) i table t =
    set_from-callbacks left (i + 1) table (idt_set i (table i) t) ∙ idt_set-callbacks i (table i) t

special_gates-callbacks :
    (e : Entries) (t : Idt) (i : ℕ)
    → (special_gates e t).interrupt_callbacks i ≡ t.interrupt_callbacks i
unfolding idt_set cleared_idt
special_gates-callbacks e t i =
    ap (λ c. c i) (set_from-callbacks 512 0 e.interrupt_pointer_table (cleared_idt e t))

pub register-callback :
    (i : ℕ) (callback : InterruptCallback) (t : Idt) (j : ℕ)
    → i < total_interrupts
    → (idt_register_interrupt_callback (pos i) callback t).1.interrupt_callbacks j
      ≡ (if j == i then some callback else t.interrupt_callbacks j)
unfolding idt_register_interrupt_callback
register-callback i callback t j h = rw (leb_lt total_interrupts i h) refl

pub idt_init-callbacks :
    (e : Entries) (t : Idt) (i : ℕ)
    → (idt_init e t).interrupt_callbacks i ≡ (
        if ltb i 0x20
        then some idt_handle_exception
        else (if i == 0x20 then some idt_clock else t.interrupt_callbacks i))
unfolding idt_init
idt_init-callbacks e t i =
    register-callback 0x20 idt_clock _ i (omega arith)
    ∙ ap (λ r. if i == 0x20 then some idt_clock else r)
        (register_from-callbacks 0x20 0 (special_gates e t) i (omega arith)
          ∙ ap (λ r. if leb 0 i && ltb i 0x20 then some idt_handle_exception else r)
              (special_gates-callbacks e t i))
    ∙ ground arith

-- Where the entry points are 32-bit addresses, idt_init makes each of the 512 descriptors a
-- present interrupt gate that user programs may call: to the wrapper of the system call at 0x80,
-- to idt_zero at 0, and to the entry of its number at every other. The exceptions, also that of
-- number 0, have idt_handle_exception as their callback, the timer idt_clock, and the others what
-- they had.
pub idt_init-IsGate :
    (e : Entries) (t : Idt) (i : ℕ)
    → i < total_interrupts
    → handler e i < 2 ^ 32
    → IsGate (handler e i) ((idt_init e t).descriptors i)
      × ((idt_init e t).interrupt_callbacks i ≡ (
          if ltb i 0x20
          then some idt_handle_exception
          else (if i == 0x20 then some idt_clock else t.interrupt_callbacks i)))
idt_init-IsGate e t i h small = (
  rw (idt_init-descriptors e t i h) (gate_fields-IsGate (handler e i) small),
  idt_init-callbacks e t i,
)
