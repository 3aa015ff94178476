-- ===== src/Segment/Tests.antt =====
-- experiment/segment_descriptor_parser.cc: two of the examples that it prints.
use lambda_linux_kernel.Prelude.{◌≡◌, refl, some, arith, [], ◌∷◌}
use lambda_linux_kernel.Segment.{
  Descriptor, parse_words, print_range, expand_down, bytes, segment_limit,
}
use lambda_linux_kernel.Prelude.Bits.{bit}
use lambda_linux_kernel.Segment.Range.{in_range, allows, IsSized, print_range-IsSized}
use lambda_linux_kernel.Segment.Diagram.{read_back, read_back-parse_words}

-- A stack segment that expands down from 0xffffffff to 8 MB.
abbrev stack : Descriptor
stack = record { l_dw = 0x07ff; h_dw = 0x00c09600 }

print_range-stack : print_range stack ≡ expand_down 0x800000 0xffffffff ∷ bytes 0xff800000 ∷ []
unfolding print_range segment_limit bit
print_range-stack = refl

print_range-IsSized_example :
    (in_range (print_range stack) 0x800000 ≡ allows stack 0x800000) × IsSized (print_range stack)
unfolding segment_limit
print_range-IsSized_example = print_range-IsSized stack 0x800000 (omega arith)

read_back-parse_words_example :
    read_back (parse_words 0x03ff 0x0000 0xfa00 0x00c0) ≡ some (0x03ff, 0x0000, 0xfa00, 0x00c0)
read_back-parse_words_example =
    read_back-parse_words 0x03ff 0x0000 0xfa00 0x00c0 (omega arith) (omega arith) (omega arith)
      (omega arith) refl
