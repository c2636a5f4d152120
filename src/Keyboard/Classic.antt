-- ===== src/Keyboard/Classic.antt =====
-- src/keyboard/classic.c: the PS/2 driver, from a scan code to the key that is queued.
use mathlib.Core.Option
use marrow_os.Base.{
  ℕ, zero, suc, ◌+◌, ◌<◌, ◌≡◌, refl, sym, ap, ◌∙◌, ℕ_discrete, dec_lt, ◌≢◌, ◌↔◌, ◌⊎◌, inl, inr,
  Bool, true, false, not, ◌&&◌, Option, none, some, List, [], ◌∷◌, length, get_elem?, ltb, leb,
  ◌==◌, if◌then◌else◌, bit_and, arith, ==_ne, ltb_le, lt→ltb, Option-cases, Bool-cases,
}
use marrow_os.Base.Bits.{bit_and_top}
use marrow_os.Keyboard.{Keys, keyboard_push}

pub data Capslock : Type 0 where
  on off : Capslock

-- `keyboard_scan_set_one`
abbrev pub keyboard_scan_set_one : List ℕ
keyboard_scan_set_one =
    0x00 ∷ 0x1B ∷ b'1' ∷ b'2' ∷ b'3' ∷ b'4' ∷ b'5' ∷ b'6' ∷ b'7' ∷ b'8' ∷ b'9' ∷ b'0' ∷ b'-' ∷ b'='
    ∷ 0x08 ∷ 0x09 ∷ b'Q' ∷ b'W' ∷ b'E' ∷ b'R' ∷ b'T' ∷ b'Y' ∷ b'U' ∷ b'I' ∷ b'O' ∷ b'P' ∷ b'['
    ∷ b']' ∷ 0x0d ∷ 0x00 ∷ b'A' ∷ b'S' ∷ b'D' ∷ b'F' ∷ b'G' ∷ b'H' ∷ b'J' ∷ b'K' ∷ b'L' ∷ b';'
    ∷ 0x27 ∷ b'`' ∷ 0x00 ∷ 0x5c ∷ b'Z' ∷ b'X' ∷ b'C' ∷ b'V' ∷ b'B' ∷ b'N' ∷ b'M' ∷ b',' ∷ b'.'
    ∷ b'/' ∷ 0x00 ∷ b'*' ∷ 0x00 ∷ 0x20 ∷ 0x00 ∷ 0x00 ∷ 0x00 ∷ 0x00 ∷ 0x00 ∷ 0x00 ∷ 0x00 ∷ 0x00
    ∷ 0x00 ∷ 0x00 ∷ 0x00 ∷ b'7' ∷ b'8' ∷ b'9' ∷ b'-' ∷ b'4' ∷ b'5' ∷ b'6' ∷ b'+' ∷ b'1' ∷ b'2'
    ∷ b'3' ∷ b'0' ∷ b'.' ∷ []

abbrev pub capslock_scancode : ℕ
capslock_scancode = 0x3A

abbrev pub key_released : ℕ
key_released = 0x80

abbrev is_upper : ℕ → Bool
is_upper c = leb b'A' c && leb c b'Z'

-- The character with the state of caps lock applied.
unfoldable pub fold_case : Capslock → ℕ → ℕ
fold_case on c = c
fold_case off c = if is_upper c then c + 32 else c

-- `none` is a read behind the table: the guard lets its length through.
unfoldable pub classic_keyboard_scancode_to_char : Capslock → ℕ → Option ℕ
classic_keyboard_scancode_to_char state scancode =
    if ltb (length keyboard_scan_set_one) scancode
    then some 0
    else Option.map (fold_case state) (get_elem? keyboard_scan_set_one scancode)

-- What the interrupt works on: the key rings, caps lock, and whether a task's page directory is on.
pub record Input : Type 0 where
  pub keys : Keys
  pub capslock : Capslock
  pub on_task_page : Bool

abbrev toggle : Capslock → Capslock
toggle on = off
toggle off = on

-- `scancode` is the first byte that the input port gives; a second one is read and dropped.
pub classic_keyboard_handle_interrupt : ℕ → Input → Option Input
classic_keyboard_handle_interrupt scancode s =
    let paged : Input = record s { on_task_page = false } in
    if not (bit_and scancode key_released == 0)
    then some paged
    else let state : Capslock =
        if scancode == capslock_scancode then toggle s.capslock else s.capslock in
      Option.map
        (λ c. record paged {
          keys = if c == 0 then s.keys else keyboard_push c s.keys;
          capslock = state;
          on_task_page = true;
        })
        (classic_keyboard_scancode_to_char state scancode)

get_elem?-in : (xs : List ℕ) (i : ℕ) → i < length xs → (c : ℕ) × (get_elem? xs i ≡ some c)
get_elem?-in [] i h = absurd (omega arith)
get_elem?-in (x ∷ xs) zero h = (x, refl)
get_elem?-in (x ∷ xs) (suc i) h = get_elem?-in xs i (omega arith)

none_ne_some : {c : ℕ} → ◌≢◌ {A = Option ℕ} none (some c)
none_ne_some e = cc

scancode_to_char_defined :
    (state : Capslock) (scancode : ℕ)
    → scancode ≢ 82
    → (c : ℕ) × (classic_keyboard_scancode_to_char state scancode ≡ some c)
unfolding classic_keyboard_scancode_to_char
scancode_to_char_defined state scancode h = elim (dec_lt 82 scancode) [
  | yes past ↦ (0, rw (lt→ltb 82 scancode past))
  | no inside ↦
      let (c, e) = get_elem?-in keyboard_scan_set_one scancode (omega arith) in
      (fold_case state c, rw (ltb_le 82 scancode (omega arith), e))
]

abbrev none_lower : List ℕ → Bool
none_lower [] = true
none_lower (c ∷ cs) = not (leb b'a' c && leb c b'z') && none_lower cs

none_lower-get :
    (xs : List ℕ) (i c : ℕ)
    → none_lower xs ≡ true
    → get_elem? xs i ≡ some c
    → ((c < b'a') ⊎ (b'z' < c))
none_lower-get [] i c h e = cc
none_lower-get (x ∷ xs) zero c h e = ground arith
none_lower-get (x ∷ xs) (suc i) c h e = none_lower-get xs i c (ground arith) e

char_outcome :
    (t : List ℕ) (f : ℕ → ℕ) (i c : ℕ)
    → (if ltb (length t) i then some 0 else Option.map f (get_elem? t i)) ≡ some c
    → (c ≡ 0) ⊎ ((d : ℕ) × (get_elem? t i ≡ some d) × (f d ≡ c))
char_outcome t f i c h = elim (Option-cases (get_elem? t i)) [
  | inl out ↦ inl (ground arith)
  | inr (d, e) ↦ elim (Bool-cases (ltb (length t) i)) [
    | inl past ↦ inl (ground arith)
    | inr inside ↦ inr (d, e, ground arith)
  ]
]

typed_on :
    (scancode c : ℕ)
    → classic_keyboard_scancode_to_char on scancode ≡ some c
    → ((c < b'a') ⊎ (b'z' < c))
unfolding classic_keyboard_scancode_to_char fold_case
typed_on scancode c h = elim (char_outcome keyboard_scan_set_one (fold_case on) scancode c h) [
  | inl z ↦ omega arith
  | inr (d, e, same) ↦ none_lower-get keyboard_scan_set_one scancode c refl (e ∙ ap some same)
]

folded : (d c : ℕ) → fold_case off d ≡ c → ((c < b'A') ⊎ (b'Z' < c))
unfolding fold_case
folded d c h = ground arith

typed_off :
    (scancode c : ℕ)
    → classic_keyboard_scancode_to_char off scancode ≡ some c
    → ((c < b'A') ⊎ (b'Z' < c))
unfolding classic_keyboard_scancode_to_char fold_case
typed_off scancode c h = elim (char_outcome keyboard_scan_set_one (fold_case off) scancode c h) [
  | inl z ↦ omega arith
  | inr (d, e, same) ↦ folded d c same
]

-- The table is read inside its 82 entries for every scan code but 82 itself, which reads the byte
-- behind the table.
pub scancode_to_char_defined_iff :
    (state : Capslock) (scancode : ℕ)
    → (classic_keyboard_scancode_to_char state scancode ≡ none) ↔ (scancode ≡ 82)
unfolding classic_keyboard_scancode_to_char
scancode_to_char_defined_iff state scancode = (
  λ e. elim (ℕ_discrete scancode 82) [
    | yes at ↦ at
    | no other ↦
        let (c, e') = scancode_to_char_defined state scancode other in
        absurd (none_ne_some (sym e ∙ e'))
  ],
  λ at. rw at,
)

-- A key release (top bit set) changes no key ring and leaves caps lock as it is.
pub release_ignored :
    (low : ℕ) (s : Input)
    → low < 128
    → classic_keyboard_handle_interrupt (128 + low) s ≡ some (record s { on_task_page = false })
unfolding classic_keyboard_handle_interrupt
release_ignored low s h = rw (bit_and_top 1 low h (omega arith))

-- With caps lock off no upper-case letter is typed; with it on no lower-case letter is.
pub letters_follow_capslock :
    (state : Capslock) (scancode c : ℕ)
    → classic_keyboard_scancode_to_char state scancode ≡ some c
    → ((state ≡ off) × ((c < b'A') ⊎ (b'Z' < c))) ⊎ ((state ≡ on) × ((c < b'a') ⊎ (b'z' < c)))
letters_follow_capslock on scancode c h = inr (refl, typed_on scancode c h)
letters_follow_capslock off scancode c h = inl (refl, typed_off scancode c h)

-- A key that is pressed and has a character is pushed.
pub classic_keyboard_handle_interrupt-pushes :
    (scancode c : ℕ) (s : Input)
    → bit_and scancode key_released ≡ 0
    → scancode ≢ capslock_scancode
    → classic_keyboard_scancode_to_char s.capslock scancode ≡ some c
    → c ≢ 0
    → classic_keyboard_handle_interrupt scancode s
      ≡ some (record s { keys = keyboard_push c s.keys; on_task_page = true })
unfolding classic_keyboard_handle_interrupt
classic_keyboard_handle_interrupt-pushes scancode c s pressed other char n =
    rw (pressed, ==_ne scancode capslock_scancode other, char, ==_ne c 0 n) refl
