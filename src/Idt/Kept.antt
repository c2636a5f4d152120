-- ===== src/Idt/Kept.antt =====
-- What the registration of src/idt/idt.c leaves of the commands.
use marrow_os.Base.{ℕ, zero, suc, ◌+◌, ◌<◌, ◌≡◌, refl, ◌∙◌, leb_lt, pos, arith}
use marrow_os.Idt.{
  Idt, Entries, InterruptCallback, total_interrupts, idt_handle_exception, idt_clock, cleared_idt,
  idt_set, set_from, register_from, idt_register_interrupt_callback, idt_init,
}

pub register-commands :
    (i : ℕ) (callback : InterruptCallback) (t : Idt)
    → i < total_interrupts
    → (idt_register_interrupt_callback (pos i) callback t).1.isr80h_commands ≡ t.isr80h_commands
unfolding idt_register_interrupt_callback
register-commands i callback t h = rw (leb_lt total_interrupts i h) refl

set_from-commands :
    (left i : ℕ) (table : ℕ → ℕ) (t : Idt)
    → (set_from left i table t).isr80h_commands ≡ t.isr80h_commands
unfolding set_from idt_set
set_from-commands zero i table t = refl
set_from-commands (suc left) i table t =
    set_from-commands left (i + 1) table (idt_set i (table i) t)

register_from-commands :
    (left i : ℕ) (t : Idt)
    → i + left < total_interrupts
    → (register_from left i t).isr80h_commands ≡ t.isr80h_commands
unfolding register_from
register_from-commands zero i t h = refl
register_from-commands (suc left) i t h =
    register_from-commands left (i + 1)
      (idt_register_interrupt_callback (pos i) idt_handle_exception t).1 (omega arith)
    ∙ register-commands i idt_handle_exception t (omega arith)

pub idt_init-commands : (e : Entries) (t : Idt) → (idt_init e t).isr80h_commands ≡ t.isr80h_commands
unfolding idt_init idt_set cleared_idt
idt_init-commands e t =
    register-commands 0x20 idt_clock _ (omega arith)
    ∙ register_from-commands 0x20 0 _ (omega arith)
    ∙ set_from-commands 512 0 e.interrupt_pointer_table (cleared_idt e t)
