-- ===== src/Gdt.antt =====
-- src/gdt/gdt.c: segment descriptors in the layout of the processor.
pub mod Decode
use marrow_os.Base.{
  ℕ, ◌+◌, ◌*◌, ◌/◌, ◌%◌, ◌^◌, ◌==◌, ltb, not, ◌&&◌, bit_and, bit_or, List, [], ◌∷◌, Option, none,
  some, if◌then◌else◌,
}
use marrow_os.Memory.{Mem, update}

pub record GdtStructured : Type 0 where
  pub base : ℕ
  pub limit : ℕ
  pub type : ℕ

-- The bytes that a descriptor at `target` gets once the granularity is chosen.
unfoldable pub encode_fields : ℕ → ℕ → ℕ → GdtStructured → Mem → Mem
encode_fields target flags limit source m =
    let m = update m (target + 6) flags in
    let m = update m target (bit_and limit 0xff) in
    let m = update m (target + 1) (bit_and (limit / 2 ^ 8) 0xff) in
    let m = update m (target + 6) (bit_or (m (target + 6)) (bit_and (limit / 2 ^ 16) 0x0f)) in
    let m = update m (target + 2) (bit_and source.base 0xff) in
    let m = update m (target + 3) (bit_and (source.base / 2 ^ 8) 0xff) in
    let m = update m (target + 4) (bit_and (source.base / 2 ^ 16) 0xff) in
    let m = update m (target + 7) (bit_and (source.base / 2 ^ 24) 0xff) in
    update m (target + 5) source.type

-- `encodeGdtEntry`; `none` is the panic. The table stands in memory, so its addresses do not wrap.
pub encode_gdt_entry : ℕ → GdtStructured → Mem → Option Mem
encode_gdt_entry target source m =
    if ltb 65536 source.limit && not (bit_and source.limit 0xfff == 0xfff)
    then none
    else (if ltb 65536 source.limit
        then some (encode_fields target 0xc0 (source.limit / 2 ^ 12) source m)
        else some (encode_fields target 0x40 source.limit source m))

-- The loop over the entries that are left, the next of which goes to `gdt`.
pub gdt_structured_to_gdt : ℕ → List GdtStructured → Mem → Option Mem
gdt_structured_to_gdt gdt [] m = some m
gdt_structured_to_gdt gdt (source ∷ structured_gdt) m = elim (encode_gdt_entry gdt source m) [
  | none ↦ none
  | some m' ↦ gdt_structured_to_gdt (gdt + 8) structured_gdt m'
]

-- The table that src/kernel.c loads, for a task state segment at `tss` of 108 bytes.
unfoldable pub gdt_segments : ℕ → List GdtStructured
gdt_segments tss =
    record { base = 0; limit = 0; type = 0 }
    ∷ record { base = 0; limit = 0xffffffff; type = 0x9a }
    ∷ record { base = 0; limit = 0xffffffff; type = 0x92 }
    ∷ record { base = 0; limit = 0xffffffff; type = 0xf8 }
    ∷ record { base = 0; limit = 0xffffffff; type = 0xf2 }
    ∷ record { base = tss; limit = 108; type = 0xe9 }
    ∷ []
