-- ===== src/Json/Text/Document.antt =====
-- The documents that the printer and the parser exchange (src/core/Json.cpp), and how a written
-- value begins.
use testforge.Base.{IsInt64}
use testforge.Base.{ℕ, suc, [], ◌≡◌, ◌≤◌}
use testforge.Json.{
  null, string, boolean, nil, cons, Items, object, array, double, end, integer, Value, member,
  Members,
}
use testforge.Json.Text.Number.{format_double, parse_number, CLibrary}
use testforge.Json.Text.Parser.{ParseLimits}
use testforge.Json.Text.Outcome.{done}
use testforge.Json.Names.{Names}

module _ (libc : CLibrary) where
  -- The text of the double, read on its own, is the double.
  abbrev pub ReadsBack : ℕ → Type 0
  ReadsBack bits = parse_number libc (format_double libc bits) ≡ done (double bits) []

-- `IsGood` is asked of the doubles.
module _ (IsGood : ℕ → Type 0) (limits : ParseLimits) where
  -- A value at this depth within the limit on nesting, with integers of 64 bits, good doubles and
  -- objects without a name twice.
  unfoldable mutual
    pub Document : ℕ → Value → Type 0
    Document depth (integer n) = (depth ≤ limits.max_depth) × IsInt64 n
    Document depth (double bits) = (depth ≤ limits.max_depth) × IsGood bits
    Document depth (array xs) = (depth ≤ limits.max_depth) × DocumentItems (suc depth) xs
    Document depth (object ms) =
        (depth ≤ limits.max_depth) × Names ms × DocumentMembers (suc depth) ms
    Document depth _ = depth ≤ limits.max_depth

    pub DocumentItems : ℕ → Items → Type 0
    DocumentItems depth nil = Unit
    DocumentItems depth (cons x xs) = Document depth x × DocumentItems depth xs

    pub DocumentMembers : ℕ → Members → Type 0
    DocumentMembers depth end = Unit
    DocumentMembers depth (member k v ms) = Document depth v × DocumentMembers depth ms

  pub Document-depth : (depth : ℕ) (v : Value) → Document depth v → depth ≤ limits.max_depth
  unfolding Document
  Document-depth depth null h = h
  Document-depth depth (boolean b) h = h
  Document-depth depth (integer n) h = h.0
  Document-depth depth (double bits) h = h.0
  Document-depth depth (string s) h = h
  Document-depth depth (array xs) h = h.0
  Document-depth depth (object ms) h = h.0
