-- ===== src/Fat16/Names.antt =====
-- The names of directory items in src/fs/fat/fat16.c, written into a buffer. `none` is a write behind
-- the buffer.
pub mod Trimmed
use mathlib.Core.Option
use marrow_os.Base.{
  ℕ, ◌+◌, Bool, ◌||◌, ◌==◌, if◌then◌else◌, Option, none, some, List, [], ◌∷◌, store, replicate,
}
use marrow_os.Fat16.{FatDirectoryItem, byte_at}

-- The tests that end a field.
unfoldable pub ends_field : ℕ → Bool
ends_field c = c == 0x00 || c == 0x20

-- The copy of a field, whose bytes are all that the loop reads, to index `at` of the buffer: the
-- buffer, and the index of the terminator.
pub fat16_to_proper_string : List ℕ → ℕ → List ℕ → Option (List ℕ × ℕ)
fat16_to_proper_string out at [] = Option.map (λ b. (b, at)) (store out at 0)
fat16_to_proper_string out at (c ∷ field) =
    let more = Option.bind (store out at c) (λ b. fat16_to_proper_string b (at + 1) field) in
    if ends_field c then Option.map (λ b. (b, at)) (store out at 0) else more

-- The extension behind a dot, where there is one.
pub append_ext : List ℕ → List ℕ → ℕ → Option (List ℕ)
append_ext ext out at =
    if ends_field (byte_at ext 0)
    then some out
    else Option.bind (store out at b'.')
        (λ b. Option.map (λ r. r.0) (fat16_to_proper_string b (at + 1) ext))

pub fat16_get_full_relative_filename : FatDirectoryItem → ℕ → Option (List ℕ)
fat16_get_full_relative_filename item max_len =
    Option.bind (fat16_to_proper_string (replicate max_len 0) 0 item.filename)
      (λ r. append_ext item.ext r.0 r.1)
