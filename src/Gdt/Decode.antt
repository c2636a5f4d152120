-- ===== src/Gdt/Decode.antt =====
-- Descriptors read the way the processor reads them, and that what is written is what is read.
use marrow_os.Base.{
  ℕ, ◌+◌, ◌*◌, ◌/◌, ◌%◌, ◌^◌, ◌≤◌, ◌<◌, ◌≡◌, ◌≢◌, ◌⊎◌, inl, inr, ◌==◌, List, [], ◌∷◌, length, none,
  some, if◌then◌else◌, arith, dec_lt, refl, ap, ◌∙◌, bit_and, bit_or,
}
use marrow_os.Base.Bits.{bit_and_byte, bit_and_nibble, bit_and_ones, bit_or_low}
use marrow_os.Memory.{Mem}
use marrow_os.Gdt.{GdtStructured, encode_fields, encode_gdt_entry, gdt_structured_to_gdt}

-- The fields of the descriptor at `p`; a set granularity bit counts the limit in pages.
unfoldable pub descriptor_base : Mem → ℕ → ℕ
descriptor_base m p = m (p + 2) + 256 * m (p + 3) + 65536 * m (p + 4) + 16777216 * m (p + 7)

unfoldable pub descriptor_limit : Mem → ℕ → ℕ
descriptor_limit m p =
    let limit = m p + 256 * m (p + 1) + 65536 * (m (p + 6) % 16) in
    if m (p + 6) / 128 % 2 == 1 then limit * 4096 + 4095 else limit

-- The descriptor at `p` describes the segment, as a 32-bit one that is accessed as `type` says.
pub Describes : Mem → ℕ → GdtStructured → Type 0
Describes m p source =
    (descriptor_base m p ≡ source.base)
    × (descriptor_limit m p ≡ source.limit)
    × (m (p + 5) ≡ source.type)
    × (m (p + 6) / 64 % 2 ≡ 1)

-- The fields are words of the machine, and the limit is one that a descriptor can hold.
abbrev pub IsSegment : GdtStructured → Type 0
IsSegment source =
    (source.base < 2 ^ 32)
    × (source.limit < 2 ^ 32)
    × ((source.limit ≤ 65536) ⊎ (source.limit % 4096 ≡ 4095))

-- The eight bytes that are written, and no other.
encode_fields-bytes :
    (target flags limit : ℕ) (source : GdtStructured) (m : Mem)
    → let m' = encode_fields target flags limit source m in
      (m' target ≡ bit_and limit 0xff)
      × (m' (target + 1) ≡ bit_and (limit / 2 ^ 8) 0xff)
      × (m' (target + 2) ≡ bit_and source.base 0xff)
      × (m' (target + 3) ≡ bit_and (source.base / 2 ^ 8) 0xff)
      × (m' (target + 4) ≡ bit_and (source.base / 2 ^ 16) 0xff)
      × (m' (target + 5) ≡ source.type)
      × (m' (target + 6) ≡ bit_or flags (bit_and (limit / 2 ^ 16) 0x0f))
      × (m' (target + 7) ≡ bit_and (source.base / 2 ^ 24) 0xff)
      × ((q : ℕ) → (q < target) ⊎ (target + 8 ≤ q) → m' q ≡ m q)
unfolding encode_fields
encode_fields-bytes target flags limit source m = (
  ground arith,
  ground arith,
  ground arith,
  ground arith,
  ground arith,
  ground arith,
  ground arith,
  ground arith,
  λ q h. ground arith,
)

encode_fields-Describes :
    (target flags limit : ℕ) (source : GdtStructured) (m : Mem)
    → source.base < 2 ^ 32
    → limit < 2 ^ 20
    → (flags ≡ 0x40) × (limit ≡ source.limit)
      ⊎ (flags ≡ 0xc0) × (limit * 4096 + 4095 ≡ source.limit)
    → Describes (encode_fields target flags limit source m) target source
unfolding Describes descriptor_base descriptor_limit
encode_fields-Describes target flags limit source m hb hl h =
    let (b0, b1, b2, b3, b4, b5, b6, b7, _) = encode_fields-bytes target flags limit source m in
    let c0 = b0 ∙ bit_and_byte limit in
    let c1 = b1 ∙ bit_and_byte (limit / 2 ^ 8) in
    let c2 = b2 ∙ bit_and_byte source.base in
    let c3 = b3 ∙ bit_and_byte (source.base / 2 ^ 8) in
    let c4 = b4 ∙ bit_and_byte (source.base / 2 ^ 16) in
    let c6 = b6 ∙ ap (λ k. bit_or flags k) (bit_and_nibble (limit / 2 ^ 16)) in
    let c7 = b7 ∙ bit_and_byte (source.base / 2 ^ 24) in
    elim h [
      | inl (e, e') ↦
          let c =
            c6
            ∙ ap (λ k. bit_or k (limit / 2 ^ 16 % 16)) e
            ∙ bit_or_low 4 4 (limit / 2 ^ 16 % 16) (omega arith) in
          (
            omega (arith, c0, c1, c2, c3, c4, c7),
            ground (arith, c0, c1, c, e'),
            b5,
            omega (arith, c),
          )
      | inr (e, e') ↦
          let c =
            c6
            ∙ ap (λ k. bit_or k (limit / 2 ^ 16 % 16)) e
            ∙ bit_or_low 4 12 (limit / 2 ^ 16 % 16) (omega arith) in
          (
            omega (arith, c0, c1, c2, c3, c4, c7),
            ground (arith, c0, c1, c, e'),
            b5,
            omega (arith, c),
          )
    ]

-- A segment becomes a descriptor that the processor reads as that segment; the eight bytes of the
-- descriptor are the only ones that change.
pub encode_gdt_entry-Describes :
    (target : ℕ) (source : GdtStructured) (m : Mem)
    → IsSegment source
    → (m' : Mem) × (encode_gdt_entry target source m ≡ some m')
      × Describes m' target source
      × ((q : ℕ) → (q < target) ⊎ (target + 8 ≤ q) → m' q ≡ m q)
unfolding encode_gdt_entry
encode_gdt_entry-Describes target source m (hb, hl, h) = elim (dec_lt 65536 source.limit) [
  | yes l ↦
      let full : source.limit % 4096 ≡ 4095 = ground arith in
      (
        encode_fields target 0xc0 (source.limit / 2 ^ 12) source m,
        ground (arith, bit_and_ones 12 source.limit),
        encode_fields-Describes target 0xc0 (source.limit / 2 ^ 12) source m hb (omega arith)
            (inr (refl, omega arith)),
        (encode_fields-bytes target 0xc0 (source.limit / 2 ^ 12) source m).8,
      )
  | no nl ↦ (
    encode_fields target 0x40 source.limit source m,
    ground arith,
    encode_fields-Describes target 0x40 source.limit source m hb (omega arith) (inl (refl, refl)),
    (encode_fields-bytes target 0x40 source.limit source m).8,
  )
]

-- A limit above 64 KiB that is not the last byte of a page is refused by a panic.
pub encode_gdt_entry-refuses :
    (target : ℕ) (source : GdtStructured) (m : Mem)
    → 65536 < source.limit
    → source.limit % 4096 ≢ 4095
    → encode_gdt_entry target source m ≡ none
unfolding encode_gdt_entry
encode_gdt_entry-refuses target source m h ne = ground (arith, bit_and_ones 12 source.limit)

abbrev pub AllSegments : List GdtStructured → Type 0
AllSegments [] = Unit
AllSegments (source ∷ rest) = IsSegment source × AllSegments rest

-- The table at `gdt` describes the segments in order.
pub DescribesAll : Mem → ℕ → List GdtStructured → Type 0
DescribesAll m gdt [] = Unit
DescribesAll m gdt (source ∷ rest) = Describes m gdt source × DescribesAll m (gdt + 8) rest

Describes-outside :
    (m m' : Mem) (p : ℕ) (source : GdtStructured)
    → ((q : ℕ) → q < p + 8 → m' q ≡ m q)
    → Describes m p source
    → Describes m' p source
unfolding Describes descriptor_base descriptor_limit
Describes-outside m m' p source same (b, l, t, f) =
    rw
      (
        same p (omega arith),
        same (p + 1) (omega arith),
        same (p + 2) (omega arith),
        same (p + 3) (omega arith),
        same (p + 4) (omega arith),
        same (p + 5) (omega arith),
        same (p + 6) (omega arith),
        same (p + 7) (omega arith),
      )
      (b, l, t, f)

-- Over a list of segments `gdt_structured_to_gdt` succeeds, and the processor reads the table as
-- those segments in order; no byte before the table or behind it changes.
pub gdt_structured_to_gdt-DescribesAll :
    (gdt : ℕ) (structured_gdt : List GdtStructured) (m : Mem)
    → AllSegments structured_gdt
    → (m' : Mem) × (gdt_structured_to_gdt gdt structured_gdt m ≡ some m')
      × DescribesAll m' gdt structured_gdt
      × ((q : ℕ) → (q < gdt) ⊎ (gdt + 8 * length structured_gdt ≤ q) → m' q ≡ m q)
unfolding gdt_structured_to_gdt DescribesAll
gdt_structured_to_gdt-DescribesAll gdt [] m h = (m, refl, tt, λ q out. refl)
gdt_structured_to_gdt-DescribesAll gdt (source ∷ rest) m (h, hs) =
    let (m', e, d, o) = encode_gdt_entry-Describes gdt source m h in
    let (m'', e', d', o') = gdt_structured_to_gdt-DescribesAll (gdt + 8) rest m' hs in
    (
      m'',
      rw (e, gdt_structured_to_gdt) e',
      (Describes-outside m' m'' gdt source (λ q l. o' q (inl l)) d, d'),
      λ q out. elim out [
        | inl l ↦ o' q (inl (omega arith)) ∙ o q (inl l)
        | inr l ↦ o' q (inr (omega arith)) ∙ o q (inr (omega arith))
      ],
    )
