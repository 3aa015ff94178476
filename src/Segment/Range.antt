-- ===== src/Segment/Range.antt =====
-- experiment/segment_descriptor_parser.cc: the offsets of a segment, and the range printed.
use lambda_linux_kernel.Prelude.{
  ℕ, ◌+◌, ◌-◌, ◌*◌, ◌/◌, ◌^◌, ◌<◌, ◌≡◌, refl, Bool, false, ◌&&◌, ◌||◌, List, ◌∷◌, ltb, leb, ◌==◌,
  if◌then◌else◌, arith, inl, inr, Bool-cases,
}
use lambda_linux_kernel.Segment.{
  Descriptor, d_b, g, type_bit, segment_limit, Line, expand_up, expand_down, bytes, print_range,
}
use lambda_linux_kernel.Segment.Numbers.{units, unit, segment_limit-units}

-- An offset is within a segment that expands up if its unit is at most the limit, and within a data
-- segment that expands down if it is above the limit, up to the bound that D/B gives.
abbrev pub allows : Descriptor → ℕ → Bool
allows d x =
    if type_bit d 3 == 1 || type_bit d 2 == 0
    then leb (x / unit d) (units d)
    else ltb (units d) (x / unit d) && leb x (if d_b d == 0 then 0xffff else 0xffffffff)

abbrev pub in_range : List Line → ℕ → Bool
in_range (expand_up last ∷ lines) x = leb x last
in_range (expand_down first last ∷ lines) x = leb first x && leb x last
in_range lines x = false

-- A size that is printed unsigned is the number of offsets in the range.
abbrev pub IsSized : List Line → Type 0
IsSized (expand_down first last ∷ bytes n ∷ lines) = n + first ≡ last + 1
IsSized lines = Unit

-- An offset is above the limit exactly if its unit is.
limit_iff :
    (d : Descriptor) (x : ℕ)
    → (segment_limit d < x → units d < x / unit d) × (units d < x / unit d → segment_limit d < x)
limit_iff d x = elim (Bool-cases (g d == 0)) [
  | inl small ↦
      let one : unit d ≡ 1 = rw small refl in
      let limit : segment_limit d ≡ (units d + 1) * 1 - 1 = rw one at (segment_limit-units d).0 in
      rw one (λ h. omega arith, λ h. omega arith)
  | inr pages ↦
      let many : unit d ≡ 4096 = rw pages refl in
      let limit : segment_limit d ≡ (units d + 1) * 4096 - 1 =
        rw many at (segment_limit-units d).0 in
      rw many (λ h. omega arith, λ h. omega arith)
]

-- For a descriptor whose limit is below 4 GB - 1, an offset is in the range that is printed
-- exactly if the segment allows it: its unit, a byte or 4 KB, is at most the limit, or for a data
-- segment that expands down above the limit and the offset up to the bound of D/B; and a size
-- that is printed unsigned is the number of offsets in the range.
pub print_range-IsSized :
    (d : Descriptor) (x : ℕ)
    → segment_limit d < 2 ^ 32 - 1
    → (in_range (print_range d) x ≡ allows d x) × IsSized (print_range d)
unfolding print_range
print_range-IsSized d x below =
    let (up_to, from) = limit_iff d x in
    let upper = if d_b d == 0 then 0xffff else 0xffffffff in
    let bound : upper < 2 ^ 32 = ground arith in
    elim (Bool-cases (type_bit d 3 == 1 || type_bit d 2 == 0)) [
      | inl up ↦ rw up (ground arith, tt)
      | inr down ↦ rw down (elim (Bool-cases (ltb (segment_limit d) upper)) [
        | inl room ↦ rw room (ground arith, ground arith)
        | inr none ↦ rw none (ground arith, tt)
      ])
    ]
