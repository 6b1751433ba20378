-- ===== src/Json/Text/Printer.antt =====
-- Writing JSON text (src/core/Json.cpp: dumpInto, Value::dump). A negative indent writes one line.
use testforge.Base.{codes, Bytes, negsuc, pos, suc, zero, [], ◌++◌, ◌∷◌, ◌*◌, if◌then◌else◌, ℕ, ℤ}
use testforge.Json.{
  null, object, array, string, double, integer, boolean, end, nil, member, cons, Value, Members,
  Items,
}
use testforge.Json.Text.Number.{format_double, CLibrary}
use testforge.Decimal.{decimal}
use testforge.Json.Text.Escape.{quote}

unfoldable pub spaces : ℕ → Bytes
spaces zero = []
spaces (suc n) = b' ' ∷ spaces n

unfoldable pub pad_text : ℤ → ℕ → Bytes
unfolding spaces
pad_text (pos n) depth = spaces (n * depth)
pad_text (negsuc n) depth = []

unfoldable pub newline : ℤ → Bytes
newline (pos n) = 10 ∷ []
newline (negsuc n) = []

unfoldable pub colon_space : ℤ → Bytes
colon_space (pos n) = b':' ∷ b' ' ∷ []
colon_space (negsuc n) = b':' ∷ []

-- A comma in front of what follows, if anything does.
abbrev pub items_comma : Items → Bytes
items_comma nil = []
items_comma (cons x xs) = b',' ∷ []

abbrev pub members_comma : Members → Bytes
members_comma end = []
members_comma (member k v ms) = b',' ∷ []

module _ (libc : CLibrary) (indent : ℤ) where
  unfoldable mutual
    unfolding decimal format_double quote pad_text newline colon_space

    pub dump_into : Value → ℕ → Bytes
    dump_into null depth = codes "null"
    dump_into (boolean b) depth = if b then codes "true" else codes "false"
    dump_into (integer n) depth = decimal n
    dump_into (double bits) depth = format_double libc bits
    dump_into (string s) depth = quote s
    dump_into (array nil) depth = codes "[]"
    dump_into (array (cons x xs)) depth =
        b'[' ∷ newline indent ++ dump_items (cons x xs) depth ++ pad_text indent depth ++ b']' ∷ []
    dump_into (object end) depth = codes "{}"
    dump_into (object (member k v ms)) depth =
        b'{' ∷ newline indent
        ++ dump_members (member k v ms) depth
        ++ pad_text indent depth
        ++ b'}' ∷ []

    pub dump_items : Items → ℕ → Bytes
    dump_items nil depth = []
    dump_items (cons x xs) depth =
        pad_text indent (suc depth)
        ++ dump_into x (suc depth)
        ++ items_comma xs
        ++ newline indent
        ++ dump_items xs depth

    pub dump_members : Members → ℕ → Bytes
    dump_members end depth = []
    dump_members (member k v ms) depth =
        pad_text indent (suc depth)
        ++ quote k
        ++ colon_space indent
        ++ dump_into v (suc depth)
        ++ members_comma ms
        ++ newline indent
        ++ dump_members ms depth

-- `Value::dump(indent)`, and `Value::dump()` with -1.
unfoldable pub dump : CLibrary → ℤ → Value → Bytes
unfolding dump_into
dump libc indent v = dump_into libc indent v 0
