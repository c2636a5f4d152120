-- ===== src/Tests/Lines.antt =====
-- A command line that is typed, its words, and the tables of interrupts and commands.
use marrow_os.Base.{
  ℕ, ◌+◌, ◌≤◌, ◌≡◌, ◌≢◌, ◌==◌, refl, arith, true, none, some, List, [], ◌∷◌, ◌++◌, take, drop,
  replicate, ltb, if◌then◌else◌, pos, negsuc,
}
use marrow_os.Command.{marrowos_parse_command, marrowos_terminal_readline}
use marrow_os.Command.Typing.{edit, marrowos_terminal_readline-edit}
use marrow_os.Command.Words.{
  AllWords, first_met, line, marrowos_parse_command-words, marrowos_parse_command-cut,
}
use marrow_os.Idt.Commands.{HasCommands, isr80h_register_commands-finds}
use marrow_os.Idt.Gates.{IsGate, handler, idt_init-IsGate}
use marrow_os.Idt.{
  Idt, Entries, idt_init, idt_handle_exception, idt_clock, isr80h_register_commands,
  isr80h_find_command, no_desc,
}

-- "run a b"
abbrev run_words : List (List ℕ)
run_words = (b'r' ∷ b'u' ∷ b'n' ∷ []) ∷ (b'a' ∷ []) ∷ (b'b' ∷ []) ∷ []

some_word : (c : ℕ) (cs : List ℕ) → ◌≢◌ {A = List ℕ} (c ∷ cs) []
some_word c cs e = cc

run_words-AllWords : AllWords run_words
run_words-AllWords = (
  some_word _ _,
  omega arith,
  omega arith,
  (some_word _ _, omega arith, omega arith, (some_word _ _, omega arith, omega arith, tt)),
)

marrowos_parse_command-words_example :
    marrowos_parse_command (first_met 5) none (line run_words) 1024 ≡ some (run_words, none)
unfolding line
marrowos_parse_command-words_example =
    marrowos_parse_command-words run_words run_words-AllWords (omega arith) 5 1024 (omega arith)
      (omega arith)

-- There is memory for the first word only; the next call goes on with the last word.
marrowos_parse_command-cut_example :
    (sp : List ℕ) × (marrowos_parse_command (first_met 1) none (line run_words) 1024
      ≡ some (take 1 run_words, some sp))
    × ((next : List ℕ)
        → marrowos_parse_command (first_met 5) (some sp) next 1024 ≡ some (drop 2 run_words, none))
unfolding line
marrowos_parse_command-cut_example =
    marrowos_parse_command-cut run_words run_words-AllWords (omega arith) 1 5 1024 (omega arith)
      (omega arith) (omega arith)

-- "lt", a backspace, "s"
abbrev keys : List ℕ
keys = b'l' ∷ b't' ∷ 8 ∷ b's' ∷ []

marrowos_terminal_readline-edit_example :
    (junk : List ℕ) × (marrowos_terminal_readline (keys ++ 13 ∷ 0 ∷ []) (replicate 16 7) 16 true
      ≡ some (edit [] keys ++ 0 ∷ junk, if true then keys else []))
marrowos_terminal_readline-edit_example =
    marrowos_terminal_readline-edit keys (0 ∷ []) (replicate 16 7) 16 true (omega arith)
      (omega arith) (omega arith)

abbrev empty_idt : Idt
empty_idt = record {
  descriptors = λ _. no_desc;
  idtr = record { limit = 0; base = 0 };
  interrupt_callbacks = λ _. none;
  isr80h_commands = λ _. none;
}

abbrev entries : Entries
entries = record {
  interrupt_pointer_table = λ i. 0x100000 + i;
  idt_zero = 0x200000;
  isr80h_wrapper = 0x200010;
  idtr_descriptors = 0x300000;
}

idt_init-IsGate_example :
    IsGate (handler entries 0x80) ((idt_init entries empty_idt).descriptors 0x80)
    × ((idt_init entries empty_idt).interrupt_callbacks 0x80 ≡ (
        if ltb 0x80 0x20
        then some idt_handle_exception
        else (if 0x80 == 0x20 then some idt_clock else empty_idt.interrupt_callbacks 0x80)))
unfolding handler
idt_init-IsGate_example = idt_init-IsGate entries empty_idt 0x80 (omega arith) (omega arith)

isr80h_register_commands-finds_example :
    (t' : Idt) × (isr80h_register_commands empty_idt ≡ some t')
    × HasCommands t'
    × ((i : ℕ) → 10 ≤ i → isr80h_find_command (pos i) t' ≡ none)
    × ((n : ℕ) → isr80h_find_command (negsuc n) t' ≡ none)
    × (isr80h_register_commands t' ≡ none)
isr80h_register_commands-finds_example = isr80h_register_commands-finds empty_idt (λ i. refl)
