-- ===== src/Command/Words.antt =====
-- The arguments of a command line are its words.
use marrow_os.Base.{
  ℕ, zero, suc, ◌+◌, ◌-◌, ◌≤◌, ◌<◌, ◌≡◌, ◌≢◌, refl, ap, Bool, ==_ne, none, some, List, [], ◌∷◌,
  ◌++◌, length, length-append, take, drop, ltb, lt→ltb, ltb_le, leb_lt, arith,
}
use marrow_os.Command.{
  is_delimiter, skip_delimiters, split_token, token_at, strtok, space, command_size,
  command_argument_size, more_arguments, marrowos_parse_command,
}

-- No byte is a space.
abbrev pub NoSpace : List ℕ → Type 0
NoSpace [] = Unit
NoSpace (c ∷ word) = (c ≢ b' ') × NoSpace word

-- Words, of which none is empty or longer than an argument.
abbrev pub AllWords : List (List ℕ) → Type 0
AllWords [] = Unit
AllWords (word ∷ words) =
    (word ≢ []) × NoSpace word × (length word < command_argument_size) × AllWords words

-- A line: each word with one space behind it.
unfoldable pub line : List (List ℕ) → List ℕ
line [] = []
line (word ∷ words) = word ++ b' ' ∷ line words

split_token-word :
    (word text : List ℕ) → NoSpace word → split_token space (word ++ b' ' ∷ text) ≡ (word, text)
unfolding split_token is_delimiter
split_token-word [] text h = refl
split_token-word (c ∷ word) text h = rw (==_ne c b' ' h.0, split_token-word word text h.1) refl

next_token :
    (word text : List ℕ)
    → word ≢ []
    → NoSpace word
    → token_at space (skip_delimiters space (word ++ b' ' ∷ text)) ≡ (some word, some text)
unfolding token_at skip_delimiters is_delimiter
next_token [] text ne h = absurd (ne refl)
next_token (c ∷ word) text ne h =
    rw (==_ne c b' ' h.0) (ap (λ r. (some r.0, some r.1)) (split_token-word (c ∷ word) text h))

take_all : (n : ℕ) (xs : List ℕ) → length xs ≤ n → take n xs ≡ xs
take_all zero [] h = refl
take_all zero (x ∷ xs) h = absurd (omega arith)
take_all (suc n) [] h = refl
take_all (suc n) (x ∷ xs) h = ap (λ t. x ∷ t) (take_all n xs (omega arith))

length-words : (words : List (List ℕ)) → AllWords words → length words ≤ length (line words)
unfolding line
length-words [] h = omega arith
length-words ([] ∷ words) h = absurd (h.0 refl)
length-words ((c ∷ word) ∷ words) h =
    omega (arith, length-append word (b' ' ∷ line words), length-words words h.3)

-- The first `met` requests are met.
abbrev pub first_met : ℕ → ℕ → Bool
first_met met n = ltb n met

more_arguments-words :
    (met : ℕ) (words : List (List ℕ)) (fuel n : ℕ)
    → length words < fuel
    → n + length words ≤ met
    → AllWords words
    → more_arguments fuel (first_met met) n (token_at space (skip_delimiters space (line words)))
      ≡ some (words, none)
unfolding more_arguments strtok line token_at skip_delimiters
more_arguments-words met words zero n f m h = absurd (omega arith)
more_arguments-words met [] (suc fuel) n f m h = refl
more_arguments-words met (word ∷ words) (suc fuel) n f m h =
    rw
      (
        next_token word (line words) h.0 h.1,
        lt→ltb n met (omega arith),
        more_arguments-words met words fuel (n + 1) (omega arith) (omega arith) h.3,
        take_all (command_argument_size - 1) word (omega arith),
        more_arguments,
      )
      refl

more_arguments-cut :
    (met left : ℕ) (words : List (List ℕ)) (fuel n : ℕ)
    → length words < fuel
    → n + left ≡ met
    → left < length words
    → AllWords words
    → more_arguments fuel (first_met met) n (token_at space (skip_delimiters space (line words)))
      ≡ some (take left words, some (line (drop (suc left) words)))
unfolding more_arguments strtok line token_at skip_delimiters
more_arguments-cut met left words zero n f e m h = absurd (omega arith)
more_arguments-cut met left [] (suc fuel) n f e m h = absurd (omega arith)
more_arguments-cut met zero (word ∷ words) (suc fuel) n f e m h =
    rw (next_token word (line words) h.0 h.1, ltb_le n met (omega arith), more_arguments) refl
more_arguments-cut met (suc left) (word ∷ words) (suc fuel) n f e m h =
    rw
      (
        next_token word (line words) h.0 h.1,
        lt→ltb n met (omega arith),
        more_arguments-cut met left words fuel (n + 1) (omega arith) (omega arith) (omega arith)
            h.3,
        take_all (command_argument_size - 1) word (omega arith),
        more_arguments,
      )
      refl

AllWords-drop : (n : ℕ) (words : List (List ℕ)) → AllWords words → AllWords (drop n words)
AllWords-drop zero words h = h
AllWords-drop (suc n) [] h = h
AllWords-drop (suc n) (word ∷ words) h = AllWords-drop n words h.3

length-drop_le : (n : ℕ) (words : List (List ℕ)) → length (drop n words) ≤ length words
length-drop_le zero words = omega arith
length-drop_le (suc n) [] = omega arith
length-drop_le (suc n) (word ∷ words) = omega (arith, length-drop_le n words)

module _ (words : List (List ℕ)) (h : AllWords words)
    (short : length (line words) < command_size) where
  scommand-line : take (command_size - 1) (line words) ≡ line words
  scommand-line = take_all (command_size - 1) (line words) (omega arith)

  few_words : length words < command_size
  few_words = omega (arith, length-words words h)

  -- Where strtok has no text left over, the memory for every word of a line is given, the words
  -- are not empty and fit an argument, have no space in them, and the line fits the buffer,
  -- marrowos_parse_command of the line with a space behind each word returns the words.
  pub marrowos_parse_command-words :
      (met max : ℕ)
      → length words ≤ met
      → max < command_size
      → marrowos_parse_command (first_met met) none (line words) max ≡ some (words, none)
  unfolding marrowos_parse_command strtok
  marrowos_parse_command-words met max m l =
      rw
        (
          leb_lt command_size max l,
          scommand-line,
          more_arguments-words met words command_size 0 few_words (omega arith) h,
        )
        refl

  -- Where the memory for the first words of such a line only is given, marrowos_parse_command
  -- returns those; where the buffer of that call still holds its text, the next call, with memory
  -- enough, returns the words behind the first that found no memory, whatever line it is given:
  -- strtok reads on through the old text.
  pub marrowos_parse_command-cut :
      (met enough max : ℕ)
      → met < length words
      → length words ≤ enough
      → max < command_size
      → (sp : List ℕ) × (marrowos_parse_command (first_met met) none (line words) max
          ≡ some (take met words, some sp))
        × ((next : List ℕ)
            → marrowos_parse_command (first_met enough) (some sp) next max
              ≡ some (drop (suc met) words, none))
  unfolding marrowos_parse_command strtok
  marrowos_parse_command-cut met enough max m e l =
      let left = drop (suc met) words in
      let few : length left ≤ length words = length-drop_le (suc met) words in
      (
        line left,
        rw
            (
              leb_lt command_size max l,
              scommand-line,
              more_arguments-cut met met words command_size 0 few_words (omega arith) m h,
            )
            refl,
        λ next.
            rw
              (
                leb_lt command_size max l,
                more_arguments-words enough left command_size 0 (omega (arith, few, few_words))
                    (omega (arith, few)) (AllWords-drop (suc met) words h),
              )
              refl,
      )
