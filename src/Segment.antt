-- ===== src/Segment.antt =====
-- experiment/segment_descriptor_parser.cc: a segment descriptor is read as four words and described.
-- Each printf is a line with its arguments, numbers before they are formatted; the words around them
-- are left out. A descriptor is its two 32-bit halves, whose bit fields are read from the lowest up.
pub mod Numbers
pub mod Range
pub mod Diagram
mod Tests
use lambda_linux_kernel.Prelude.{
  ℕ, zero, suc, ◌+◌, ◌-◌, ◌*◌, ◌/◌, ◌%◌, ◌^◌, Bool, true, false, ◌||◌, List, [], ◌∷◌, ◌++◌, ltb,
  ◌==◌, if◌then◌else◌, bit_or,
}
use lambda_linux_kernel.Prelude.Int.{ℤ, pos, negsuc, of_word}
use lambda_linux_kernel.Prelude.Bits.{bit}

pub record Descriptor : Type 0 where
  pub l_dw : ℕ
  pub h_dw : ℕ

-- The field of `width` bits from bit `low` on.
abbrev pub field : (low width dw : ℕ) → ℕ
field low width dw = dw / 2 ^ low % 2 ^ width

-- Of code and data segments.
abbrev pub limit_0_15 : Descriptor → ℕ
limit_0_15 d = field 0 16 d.l_dw

abbrev pub base_0_15 : Descriptor → ℕ
base_0_15 d = field 16 16 d.l_dw

abbrev pub base_16_23 : Descriptor → ℕ
base_16_23 d = field 0 8 d.h_dw

abbrev pub limit_16_19 : Descriptor → ℕ
limit_16_19 d = field 16 4 d.h_dw

abbrev pub avl : Descriptor → ℕ
avl d = field 20 1 d.h_dw

abbrev pub l : Descriptor → ℕ
l d = field 21 1 d.h_dw

abbrev pub d_b : Descriptor → ℕ
d_b d = field 22 1 d.h_dw

abbrev pub g : Descriptor → ℕ
g d = field 23 1 d.h_dw

abbrev pub base_24_31 : Descriptor → ℕ
base_24_31 d = field 24 8 d.h_dw

-- Of gates.
abbrev pub offset_0_15 : Descriptor → ℕ
offset_0_15 d = field 0 16 d.l_dw

abbrev pub selector : Descriptor → ℕ
selector d = field 16 16 d.l_dw

abbrev pub param_count : Descriptor → ℕ
param_count d = field 0 5 d.h_dw

abbrev pub zeros : Descriptor → ℕ
zeros d = field 5 3 d.h_dw

abbrev pub offset_16_31 : Descriptor → ℕ
offset_16_31 d = field 16 16 d.h_dw

-- Of all.
abbrev pub type_of : Descriptor → ℕ
type_of d = field 8 4 d.h_dw

abbrev pub s : Descriptor → ℕ
s d = field 12 1 d.h_dw

abbrev pub dpl : Descriptor → ℕ
dpl d = field 13 2 d.h_dw

abbrev pub p : Descriptor → ℕ
p d = field 15 1 d.h_dw

abbrev pub type_bit : Descriptor → ℕ → ℕ
type_bit d k = bit (type_of d) k

-- The loop of `ToBinary`, from the bit below `k` on.
pub to_binary_from : (k n b : ℕ) → ℕ
to_binary_from zero n b = b
to_binary_from (suc k) n b = to_binary_from k n ((b * 10 + bit n k) % 2 ^ 32)

pub to_binary : ℕ → ℕ
to_binary n = to_binary_from 32 n 0

pub segment_base : Descriptor → ℕ
segment_base d = bit_or (bit_or (base_24_31 d * 2 ^ 24) (base_16_23 d * 2 ^ 16)) (base_0_15 d)

pub segment_limit : Descriptor → ℕ
segment_limit d =
    let units = bit_or (limit_16_19 d * 2 ^ 16) (limit_0_15 d) + 1 in
    (units * 2 ^ (if g d == 0 then 0 else 12) % 2 ^ 32 + 2 ^ 32 - 1) % 2 ^ 32

pub data Gate : Type 0 where
  call : Gate
  task : Gate
  interrupt : Gate
  trap : Gate

pub data Name : Type 0 where
  reserved : Name
  tss : Name
  ldt : Name
  gate : Gate → Name
  code_segment : Name
  data_segment : Name

-- The arguments of the diagram of a gate and of a segment, in their order.
pub record GateDiagram : Type 0 where
  pub is_task : Bool
  pub is_call : Bool
  pub high_offset : ℕ
  pub p : ℕ
  pub dpl : ℕ
  pub s : ℕ
  pub type_0x8 : ℕ
  pub type_0x4 : ℕ
  pub type_0x2 : ℕ
  pub type_0x1 : ℕ
  pub zeros : ℕ
  pub param_count : ℕ
  pub selector : ℕ
  pub low_offset : ℕ

pub record SegmentDiagram : Type 0 where
  pub is_code : Bool
  pub high_base : ℕ
  pub g : ℕ
  pub d_b : ℕ
  pub l : ℕ
  pub avl : ℕ
  pub high_limit : ℕ
  pub p : ℕ
  pub dpl : ℕ
  pub s : ℕ
  pub type_0x8 : ℕ
  pub type_0x4 : ℕ
  pub type_0x2 : ℕ
  pub type_0x1 : ℕ
  pub mid_base : ℕ
  pub low_base : ℕ
  pub low_limit : ℕ

-- What is printed. `bytes_signed` is the size of a range printed as an int.
pub data Line : Type 0 where
  name_is : Name → Line
  invalid_gate : ℕ → Line
  invalid_type : ℕ → Line
  selector_is : (of_tss : Bool) → ℕ → Line
  offset_is : ℕ → Line
  presence : ℕ → Line
  privilege : ℕ → Line
  class_is : ℕ → Line
  type_is : ℕ → Line
  size_is : ℕ → Line
  no_size : Line
  parameters : ℕ → Line
  base_is : ℕ → Line
  limit_is : ℕ → Line
  kilobytes : ℤ → Line
  expand_up : ℕ → Line
  expand_down : (first last : ℕ) → Line
  bytes : ℕ → Line
  bytes_signed : ℤ → Line
  granularity : ℕ → Line
  default_length : ℕ → Line
  stack_pointer : ℕ → Line
  upper_bound : ℕ → Line
  segment_kind : (is_code : Bool) → ℕ → Line
  conforming : ℕ → Line
  readable : ℕ → Line
  expands_down : ℕ → Line
  writable : ℕ → Line
  accessed : ℕ → Line
  gate_diagram : GateDiagram → Line
  segment_diagram : SegmentDiagram → Line

-- `Print_P_DPL_S_TYPE`
abbrev pub print_type : Descriptor → List Line
print_type d = presence (p d) ∷ privilege (dpl d) ∷ class_is (s d) ∷ type_is (type_of d) ∷ []

abbrev pub is_gate_type : ℕ → Bool
is_gate_type t = t == 4 || t == 5 || t == 6 || t == 7 || t == 12 || t == 14 || t == 15

-- `gate_type_str[gate_type - 4]`
abbrev pub gate_named : ℕ → Gate
gate_named t = if t == 4 then call else if t == 5 then task else if t == 6 then interrupt else trap

pub diagram_of_gate : Descriptor → GateDiagram
diagram_of_gate d = record {
  is_task = type_of d % 8 == 5;
  is_call = type_of d % 8 == 4;
  high_offset = offset_16_31 d;
  p = p d;
  dpl = to_binary (dpl d);
  s = s d;
  type_0x8 = type_bit d 3;
  type_0x4 = type_bit d 2;
  type_0x2 = type_bit d 1;
  type_0x1 = type_bit d 0;
  zeros = to_binary (zeros d);
  param_count = to_binary (param_count d);
  selector = selector d;
  low_offset = offset_0_15 d;
}

-- `HandleGate` after its switch.
pub gate_lines : Descriptor → List Line
gate_lines d =
    let gate_type = type_of d % 8 in
    let is_call = gate_type == 4 in
    let is_task = gate_type == 5 in
    let has_size = gate_type == 6 || gate_type == 7 in
    (name_is (gate (gate_named gate_type)) ∷ selector_is is_task (selector d) ∷ [])
    ++ (if is_task then [] else offset_is (bit_or (offset_16_31 d * 2 ^ 16) (offset_0_15 d)) ∷ [])
    ++ print_type d
    ++ ((if has_size then size_is (type_bit d 3) else no_size) ∷ [])
    ++ (if is_call then parameters (param_count d) ∷ [] else [])
    ++ (gate_diagram (diagram_of_gate d) ∷ [])

pub handle_gate : Descriptor → List Line
handle_gate d = if is_gate_type (type_of d) then gate_lines d else invalid_gate (type_of d) ∷ []

pub diagram_of_segment : Descriptor → SegmentDiagram
diagram_of_segment d = record {
  is_code = type_bit d 3 == 1;
  high_base = to_binary (base_24_31 d);
  g = g d;
  d_b = d_b d;
  l = l d;
  avl = avl d;
  high_limit = to_binary (limit_16_19 d);
  p = p d;
  dpl = to_binary (dpl d);
  s = s d;
  type_0x8 = type_bit d 3;
  type_0x4 = type_bit d 2;
  type_0x2 = type_bit d 1;
  type_0x1 = type_bit d 0;
  mid_base = to_binary (base_16_23 d);
  low_base = base_0_15 d;
  low_limit = limit_0_15 d;
}

-- `x >> 10` of an int.
abbrev pub asr10 : ℤ → ℤ
asr10 (pos n) = pos (n / 2 ^ 10)
asr10 (negsuc n) = negsuc (n / 2 ^ 10)

-- The range of the offsets.
pub print_range : Descriptor → List Line
print_range d =
    let limit = segment_limit d in
    let upper = if d_b d == 0 then 0xffff else 0xffffffff in
    let size = (upper + 2 ^ 32 - limit) % 2 ^ 32 in
    if type_bit d 3 == 1 || type_bit d 2 == 0
    then expand_up limit ∷ []
    else expand_down ((limit + 1) % 2 ^ 32) upper
      ∷ (if ltb limit upper then bytes size else bytes_signed (of_word size))
      ∷ []

-- The lines that differ between code and data: on the bit D or B, and on the bits of the type.
pub print_default : Descriptor → List Line
print_default d =
    if type_bit d 3 == 1
    then default_length (d_b d) ∷ []
    else if type_bit d 2 == 1
    then stack_pointer (d_b d) ∷ upper_bound (d_b d) ∷ []
    else stack_pointer (d_b d) ∷ []

pub print_kind : Descriptor → List Line
print_kind d =
    if type_bit d 3 == 1
    then segment_kind true 1 ∷ conforming (type_bit d 2) ∷ readable (type_bit d 1) ∷ []
    else segment_kind false 0 ∷ expands_down (type_bit d 2) ∷ writable (type_bit d 1) ∷ []

pub handle_code_or_data_segment : Descriptor → List Line
handle_code_or_data_segment d =
    let limit = segment_limit d in
    (name_is (if type_bit d 3 == 1 then code_segment else data_segment)
      ∷ base_is (segment_base d)
      ∷ limit_is limit
      ∷ [])
    ++ (if g d == 0 then [] else kilobytes (asr10 (of_word ((limit + 1) % 2 ^ 32))) ∷ [])
    ++ print_range d
    ++ (granularity (g d) ∷ [])
    ++ print_default d
    ++ print_type d
    ++ print_kind d
    ++ (accessed (type_bit d 0) ∷ segment_diagram (diagram_of_segment d) ∷ [])

-- The switch of `Parse`.
pub parse_system : ℕ → Descriptor → List Line
parse_system t d =
    if t == 0 || t == 8 || t == 10 || t == 13
    then name_is reserved ∷ []
    else if t == 1 || t == 3 || t == 9 || t == 11
    then name_is tss ∷ []
    else if t == 2
    then name_is ldt ∷ []
    else if t == 4 || t == 12
    then handle_gate d
    else if t == 5
    then handle_gate d
    else if t == 6 || t == 14
    then handle_gate d
    else if t == 7 || t == 15
    then handle_gate d
    else invalid_type t ∷ []

pub parse : Descriptor → List Line
parse d = if s d == 0 then parse_system (type_of d) d else handle_code_or_data_segment d

-- A round of `main`, on the four words that are read, each an unsigned int.
pub parse_words : (a b c d : ℕ) → List Line
parse_words a b c d =
    parse (record { l_dw = bit_or (b * 2 ^ 16 % 2 ^ 32) a; h_dw = bit_or (d * 2 ^ 16 % 2 ^ 32) c })
