-- ===== src/Segment/Diagram.antt =====
-- experiment/segment_descriptor_parser.cc: the diagram, read back.
use lambda_linux_kernel.Prelude.{
  ℕ, ◌+◌, ◌*◌, ◌/◌, ◌%◌, ◌^◌, ◌<◌, ◌≡◌, refl, Bool, true, ◌||◌, Option, none, some, List, [], ◌∷◌,
  ◌==◌, bit_or, arith, ◌∙◌, ap, inl, inr, Bool-cases,
}
use lambda_linux_kernel.Prelude.Bits.{bit}
use lambda_linux_kernel.Segment.{
  Descriptor, s, p, dpl, g, zeros, param_count, base_16_23, base_24_31, limit_16_19, type_bit,
  type_of, to_binary, Line, GateDiagram, SegmentDiagram, gate_diagram, segment_diagram,
  diagram_of_gate, diagram_of_segment, is_gate_type, gate_lines, handle_gate,
  handle_code_or_data_segment, print_range, print_default, print_kind, parse_system, parse,
  parse_words,
}
use lambda_linux_kernel.Segment.Numbers.{bit_or_shift, from_binary, from_binary-to_binary}

-- The four words of a diagram, the lowest first.
abbrev pub Words : Type 0
Words = ℕ × ℕ × ℕ × ℕ

abbrev pub access : (p dpl s t3 t2 t1 t0 : ℕ) → ℕ
access p dpl s t3 t2 t1 t0 =
    (p * 128 + from_binary 10 dpl * 32 + s * 16 + t3 * 8 + t2 * 4 + t1 * 2 + t0) * 256

abbrev pub gate_words : GateDiagram → Words
gate_words t = (
  t.low_offset,
  t.selector,
  access t.p t.dpl t.s t.type_0x8 t.type_0x4 t.type_0x2 t.type_0x1
      + from_binary 10 t.zeros * 32
      + from_binary 10 t.param_count,
  t.high_offset,
)

abbrev pub segment_words : SegmentDiagram → Words
segment_words t = (
  t.low_limit,
  t.low_base,
  access t.p t.dpl t.s t.type_0x8 t.type_0x4 t.type_0x2 t.type_0x1 + from_binary 10 t.mid_base,
  from_binary 10 t.high_base * 256
      + t.g * 128
      + t.d_b * 64
      + t.l * 32
      + t.avl * 16
      + from_binary 10 t.high_limit,
)

abbrev pub read_back : List Line → Option Words
read_back [] = none
read_back (gate_diagram t ∷ lines) = some (gate_words t)
read_back (segment_diagram t ∷ lines) = some (segment_words t)
read_back (line ∷ lines) = read_back lines

module _ (d : Descriptor) where
  read_back-segment :
      read_back (handle_code_or_data_segment d) ≡ some (segment_words (diagram_of_segment d))
  unfolding handle_code_or_data_segment print_range print_default print_kind
  read_back-segment = ground arith

  read_back-gate_lines : read_back (gate_lines d) ≡ some (gate_words (diagram_of_gate d))
  unfolding gate_lines
  read_back-gate_lines = ground arith

  type_bits : type_bit d 3 * 8 + type_bit d 2 * 4 + type_bit d 1 * 2 + type_bit d 0 ≡ type_of d
  unfolding bit
  type_bits = omega arith

  abbrev access_of : ℕ
  access_of =
      access (p d) (to_binary (dpl d)) (s d) (type_bit d 3) (type_bit d 2) (type_bit d 1)
        (type_bit d 0)

  access_lem : access_of ≡ d.h_dw / 2 ^ 8 % 2 ^ 8 * 256
  access_lem = rw (from_binary-to_binary (dpl d) (omega arith)) (omega (arith, type_bits))

-- The halves that `main` makes of four words.
halves :
    (low high : ℕ)
    → low < 2 ^ 16
    → high < 2 ^ 16
    → bit_or (high * 2 ^ 16 % 2 ^ 32) low ≡ high * 2 ^ 16 + low
halves low high lt lt' =
    let same : high * 2 ^ 16 % 2 ^ 32 ≡ high * 2 ^ 16 = omega arith in
    rw same (bit_or_shift 16 low high lt)

-- The descriptor is one of code or data, or a gate.
abbrev pub has_diagram : ℕ → Bool
has_diagram c = c / 2 ^ 12 % 2 == 1 || is_gate_type (c / 2 ^ 8 % 16)

parse_system-handle_gate :
    (t : ℕ) (d : Descriptor) → is_gate_type t ≡ true → parse_system t d ≡ handle_gate d
unfolding parse_system
parse_system-handle_gate t d h = ground arith

-- The words of the two halves.
abbrev words : Descriptor → Words
words d = (d.l_dw % 2 ^ 16, d.l_dw / 2 ^ 16 % 2 ^ 16, d.h_dw % 2 ^ 16, d.h_dw / 2 ^ 16 % 2 ^ 16)

Words-eq :
    (a a' b b' c c' d d' : ℕ)
    → a ≡ a'
    → b ≡ b'
    → c ≡ c'
    → d ≡ d'
    → ◌≡◌ {A = Words} (a, b, c, d) (a', b', c', d')
Words-eq a a' b b' c c' d d' e f g h = rw (e, f, g, h) refl

module _ (d : Descriptor) where
  words_of_gate : gate_words (diagram_of_gate d) ≡ words d
  unfolding diagram_of_gate
  words_of_gate =
      let low : access_of d
            + from_binary 10 (to_binary (zeros d)) * 32
            + from_binary 10 (to_binary (param_count d))
          ≡ d.h_dw % 2 ^ 16 =
        rw
          (
            from_binary-to_binary (zeros d) (omega arith),
            from_binary-to_binary (param_count d) (omega arith),
          )
          (omega (arith, access_lem d)) in
      rw low (Words-eq _ _ _ _ _ _ _ _ (omega arith) refl refl refl)

  words_of_segment : segment_words (diagram_of_segment d) ≡ words d
  unfolding diagram_of_segment
  words_of_segment =
      let low : access_of d + from_binary 10 (to_binary (base_16_23 d)) ≡ d.h_dw % 2 ^ 16 =
        rw (from_binary-to_binary (base_16_23 d) (omega arith)) (omega (arith, access_lem d)) in
      rw
        (
          low,
          from_binary-to_binary (base_24_31 d) (omega arith),
          from_binary-to_binary (limit_16_19 d) (omega arith),
        )
        (Words-eq _ _ _ _ _ _ _ _ (omega arith) refl refl (omega arith))

parse-read_back :
    (d : Descriptor) → has_diagram d.h_dw ≡ true → read_back (parse d) ≡ some (words d)
unfolding parse handle_gate
parse-read_back d h = elim (Bool-cases (s d == 0)) [
  | inr code ↦ rw code (read_back-segment d ∙ ap some (words_of_segment d))
  | inl system ↦
      let kind : is_gate_type (type_of d) ≡ true = ground arith in
      rw (system, parse_system-handle_gate (type_of d) d kind)
        (rw kind (read_back-gate_lines d ∙ ap some (words_of_gate d)))
]

-- For four words of 16 bits that make a code or data segment or a gate, the numbers of the
-- diagram that the program prints, with the binary digits read as such, are the bits of these
-- four words.
pub read_back-parse_words :
    (a b c d : ℕ)
    → a < 2 ^ 16
    → b < 2 ^ 16
    → c < 2 ^ 16
    → d < 2 ^ 16
    → has_diagram c ≡ true
    → read_back (parse_words a b c d) ≡ some (a, b, c, d)
unfolding parse_words
read_back-parse_words a b c d lt_a lt_b lt_c lt_d h =
    let desc : Descriptor = record { l_dw = b * 2 ^ 16 + a; h_dw = d * 2 ^ 16 + c } in
    let shown : has_diagram desc.h_dw ≡ true = ground arith in
    rw (halves a b lt_a lt_b, halves c d lt_c lt_d)
      (parse-read_back desc shown
        ∙ ap some
            (Words-eq _ _ _ _ _ _ _ _ (omega arith) (omega arith) (omega arith) (omega arith)))
