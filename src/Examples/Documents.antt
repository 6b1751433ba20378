-- ===== src/Examples/Documents.antt =====
-- Tests of the JSON parser and printer.
use testforge.Base.{
  any, true, negsuc, eq_bytes, length, codes, ℕ, pos, refl, [], ◌++◌, ◌∷◌, ◌≢◌, ◌≡◌, ◌≤◌, arith,
}
use testforge.Json.Text.Number.{format_double, parse_number, CLibrary}
use testforge.Json.Text.Parser.{thrown, out_of_fuel, parsed, parse, ParseLimits}
use testforge.Json.{
  boolean, nil, double, cons, end, integer, array, member, object, find_member, Value,
}
use testforge.Json.Text.Literal.{parse_string}
use testforge.Json.Text.Document.{ReadsBack, Document}
use testforge.Json.Text.Printer.{dump}
use testforge.Json.Text.Escape.{quote}
use testforge.Json.Text.Outcome.{done}
use testforge.Json.Text.RoundTrip.{parse-dump}
use testforge.Json.Text.Quoted.{parse_string-quote}
use testforge.Json.Text.Total.{parse-Document, parse_ends}

-- The bits of 1.5, the only double that this C library knows.
abbrev one_and_a_half : ℕ
one_and_a_half = 0x3FF8000000000000

abbrev libc : CLibrary
libc = record { print_general = λ _ _. codes "1.5"; strtod = λ _. one_and_a_half }

abbrev limits : ParseLimits
limits = record { max_length = 1000; max_depth = 3 }

-- A name with a line break, a number of each kind, and an empty array.
abbrev document : Value
document = object (
    member (10 ∷ b'"' ∷ []) (array (cons (integer (negsuc 41)) (cons (double one_and_a_half) nil)))
      (member (codes "b") (boolean true) (member (codes "c") (array nil) end)))

parse_string-quote_example :
    parse_string (quote (b'\\' ∷ 0 ∷ 31 ∷ b'"' ∷ 200 ∷ []) ++ codes ",")
    ≡ done (b'\\' ∷ 0 ∷ 31 ∷ b'"' ∷ 200 ∷ []) (codes ",")
parse_string-quote_example = parse_string-quote (b'\\' ∷ 0 ∷ 31 ∷ b'"' ∷ 200 ∷ []) (codes ",")

one_and_a_half-ReadsBack : ReadsBack libc one_and_a_half
unfolding parse_number format_double any
one_and_a_half-ReadsBack = refl

document-Document : Document (ReadsBack libc) limits 0 document
unfolding Document find_member eq_bytes
document-Document = (
  omega arith,
  (refl, (refl, (refl, tt))),
  (
    (omega arith, ((omega arith, omega arith), ((omega arith, one_and_a_half-ReadsBack), tt))),
    (omega arith, ((omega arith, tt), tt)),
  ),
)

length-dump : length (dump libc (pos 2) document) ≤ 1000
unfolding dump any
length-dump = omega arith

parse-dump_example : parse libc limits (dump libc (pos 2) document) ≡ parsed document
parse-dump_example = parse-dump libc limits (pos 2) document document-Document length-dump

parse_ends_example : parse libc limits (codes "[[[[1]]]]") ≢ out_of_fuel
parse_ends_example = parse_ends libc limits (codes "[[[[1]]]]")

parse_twice :
    parse libc limits (codes "{\"a\":1,\"a\":2}")
    ≡ parsed (object (member (codes "a") (integer (pos 2)) end))
unfolding parse
parse_twice = refl

parse_deep :
    parse libc limits (codes "[[\n[[[1]]]]")
    ≡ thrown (record {
      message = codes "maximum nesting depth exceeded";
      offset = 5;
      line = 2;
      column = 3;
    })
unfolding parse
parse_deep = refl

parse-Document_example :
    Document (λ _. Unit) limits 0 (object (member (codes "a") (integer (pos 2)) end))
parse-Document_example = parse-Document libc limits (codes "{\"a\":1,\"a\":2}") _ parse_twice
