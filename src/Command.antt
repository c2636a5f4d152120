-- ===== src/Command.antt =====
-- strtok of programs/stdlib/src/string.c, and reading, parsing and running a command line in
-- programs/stdlib/src/marrowos.c. A text is the list of its bytes before the terminator.
pub mod Words
pub mod Typing
use mathlib.Core.Option
use marrow_os.Base.{
  ℕ, zero, suc, ◌+◌, ◌-◌, Bool, true, false, ◌||◌, ◌&&◌, not, ltb, leb, ◌==◌, if◌then◌else◌, Option,
  none, some, List, [], ◌∷◌, ◌++◌, take, store,
}

abbrev pub command_size : ℕ
command_size = 1025

abbrev pub command_argument_size : ℕ
command_argument_size = 512

unfoldable pub is_delimiter : List ℕ → ℕ → Bool
is_delimiter [] c = false
is_delimiter (d ∷ delimiters) c = c == d || is_delimiter delimiters c

-- The first loop of `strtok`: the text behind the delimiters.
unfoldable pub skip_delimiters : List ℕ → List ℕ → List ℕ
skip_delimiters delimiters [] = []
skip_delimiters delimiters (c ∷ text) =
    let more = skip_delimiters delimiters text in
    if is_delimiter delimiters c then more else c ∷ text

-- The second loop: the token, and the text behind the delimiter that ends it.
unfoldable pub split_token : List ℕ → List ℕ → List ℕ × List ℕ
split_token delimiters [] = ([], [])
split_token delimiters (c ∷ text) =
    let more = split_token delimiters text in
    if is_delimiter delimiters c then ([], text) else (c ∷ more.0, more.1)

-- From `p_start` on: the token, and `sp`.
unfoldable pub token_at : List ℕ → List ℕ → Option (List ℕ) × Option (List ℕ)
token_at delimiters [] = (none, none)
token_at delimiters (c ∷ text) =
    let (token, rest) = split_token delimiters (c ∷ text) in (some token, some rest)

-- Null pointers are `none`; `sp` is what is left from the call before. A text that is given while `sp`
-- is set is not read.
unfoldable pub strtok :
    Option (List ℕ) → List ℕ → Option (List ℕ) → Option (List ℕ) × Option (List ℕ)
strtok none delimiters none = (none, none)
strtok (some str) delimiters none = token_at delimiters (skip_delimiters delimiters str)
strtok str delimiters (some sp) = token_at delimiters (skip_delimiters delimiters sp)

abbrev pub space : List ℕ
space = b' ' ∷ []

-- The loop over the tokens behind the first, on fuel; `malloc` says which requests the system call
-- meets. What is left of `sp` comes with the arguments.
unfoldable pub more_arguments :
    ℕ
    → (ℕ → Bool)
    → ℕ
    → Option (List ℕ) × Option (List ℕ)
    → Option (List (List ℕ) × Option (List ℕ))
more_arguments zero malloc n next = none
more_arguments (suc fuel) malloc n (none, sp) = some ([], sp)
more_arguments (suc fuel) malloc n (some token, sp) = elim (malloc n) [
  | false ↦ some ([], sp)
  | true ↦
      Option.map (λ r. (take (command_argument_size - 1) token ∷ r.0, r.1))
        (more_arguments fuel malloc (n + 1) (strtok none space sp))
]

-- The first request that is not met ends the list, so the first token is as the others. Each round but
-- the last takes a byte at least. `sp` is the text that `strtok` still points at when the call is made: in
-- the buffer of an earlier call, which is no longer that call's, so it may hold anything.
unfoldable pub marrowos_parse_command :
    (ℕ → Bool) → Option (List ℕ) → List ℕ → ℕ → Option (List (List ℕ) × Option (List ℕ))
marrowos_parse_command malloc sp command max =
    if leb command_size max
    then some ([], sp)
    else let scommand = take (command_size - 1) command in
      more_arguments command_size malloc 0 (strtok (some scommand) space sp)

-- What the system call is given; `none` for the -1 that is returned without it.
unfoldable pub marrowos_system_run :
    (ℕ → Bool) → Option (List ℕ) → List ℕ → Option (Option (List (List ℕ)) × Option (List ℕ))
marrowos_system_run malloc sp command =
    Option.map (λ r. (elim r.0 [ [] ↦ none | word ∷ words ↦ some (word ∷ words) ], r.1))
      (marrowos_parse_command malloc sp (take 1023 command) 1024)

-- The results of `marrowos_getkey_block`, one call after another, from those of `marrowos_getkey`.
unfoldable pub getkey_block_results : List ℕ → List ℕ
getkey_block_results [] = []
getkey_block_results (val ∷ vals) =
    let more = getkey_block_results vals in if val == 0 then more else val ∷ more

-- The loop of `marrowos_terminal_readline` at index `i` over the keys to come; the second text is what
-- it puts out. `none` is a write behind the buffer, or a key that never comes.
unfoldable pub readline_from : List ℕ → ℕ → ℕ → Bool → List ℕ → List ℕ → Option (List ℕ × List ℕ)
readline_from [] i last output_while_typing out shown =
    if ltb i last then none else Option.map (λ line. (line, shown)) (store out i 0)
readline_from (key ∷ keys) i last output_while_typing out shown =
    let done = Option.map (λ line. (line, shown)) (store out i 0) in
    let shown' = if output_while_typing then shown ++ key ∷ [] else shown in
    let backspace =
      Option.bind (store out (i - 1) 0)
        (λ o. readline_from keys (i - 1) last output_while_typing o shown') in
    let more =
      Option.bind (store out i key)
        (λ o. readline_from keys (i + 1) last output_while_typing o shown') in
    if not (ltb i last)
    then done
    else (if key == 13 then done else (if key == 0x08 && leb 1 i then backspace else more))

unfoldable pub marrowos_terminal_readline : List ℕ → List ℕ → ℕ → Bool → Option (List ℕ × List ℕ)
marrowos_terminal_readline keys out max output_while_typing =
    readline_from (getkey_block_results keys) 0 (max - 1) output_while_typing out []
