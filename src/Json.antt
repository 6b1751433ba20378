-- ===== src/Json.antt =====
-- The JSON document model (include/testforge/core/Json.hpp, src/core/Json.cpp): values, their
-- accessors and the operations that change them.
--
-- An object keeps its members in the order of insertion. A double is the number that its 64 bits
-- make, and an integer is a signed number; that it fits into 64 bits is no part of the type.
pub mod Objects
pub mod Access
pub mod Names
pub mod Text
use testforge.Base.{
  leb, ◌==◌, if◌then◌else◌, length, is_empty, eq_bytes, Bytes, ℤ, pos, sub_ℕ, ℕ, zero, suc, ◌+◌,
  ◌-◌, ◌*◌, ◌/◌, ◌%◌, ◌^◌, Bool, true, false, Option, none, some, [], ◌∷◌,
}

mutual
  pub data Value : Type 0 where
    null : Value
    boolean : Bool → Value
    integer : ℤ → Value
    double : ℕ → Value
    string : Bytes → Value
    array : Items → Value
    object : Members → Value

  pub data Items : Type 0 where
    nil : Items
    cons : Value → Items → Items

  pub data Members : Type 0 where
    end : Members
    member : Bytes → Value → Members → Members

-- `static_cast<std::int64_t>` of a finite double: the value rounded towards zero. An exponent of
-- 1075 makes the significand a whole number.
unfoldable pub truncate_double : ℕ → ℤ
truncate_double bits =
    let exponent = bits / 2 ^ 52 % 2 ^ 11 in
    let significand = 2 ^ 52 + bits % 2 ^ 52 in
    let magnitude =
      if exponent == 0
      then 0
      else if leb 1075 exponent
      then significand * 2 ^ (exponent - 1075)
      else significand / 2 ^ (1075 - exponent) in
    if bits / 2 ^ 63 == 1 then sub_ℕ 0 magnitude else pos magnitude

-- `none` is the `TypeError` that the source throws.
unfoldable pub as_bool : Value → Option Bool
as_bool (boolean b) = some b
as_bool _ = none

unfoldable pub as_int : Value → Option ℤ
unfolding truncate_double
as_int (integer n) = some n
as_int (double bits) = some (truncate_double bits)
as_int _ = none

unfoldable pub as_string : Value → Option Bytes
as_string (string s) = some s
as_string _ = none

unfoldable pub is_number : Value → Bool
is_number (integer n) = true
is_number (double bits) = true
is_number _ = false

unfoldable pub is_object : Value → Bool
is_object (object ms) = true
is_object _ = false

unfoldable pub bool_or : Bool → Value → Bool
bool_or fallback (boolean b) = b
bool_or fallback _ = fallback

unfoldable pub int_or : ℤ → Value → ℤ
unfolding truncate_double
int_or fallback (integer n) = n
int_or fallback (double bits) = truncate_double bits
int_or fallback _ = fallback

unfoldable pub string_or : Bytes → Value → Bytes
string_or fallback (string s) = s
string_or fallback _ = fallback

unfoldable pub find_member : Bytes → Members → Option Value
unfolding eq_bytes
find_member key end = none
find_member key (member k v ms) =
    let later = find_member key ms in if eq_bytes k key then some v else later

-- `Value::find`: no member in what is no object.
unfoldable pub find : Bytes → Value → Option Value
unfolding find_member
find key (object ms) = find_member key ms
find key _ = none

-- The loop of `Value::set`: overwrite the member, or append one.
unfoldable pub set_member : Bytes → Value → Members → Members
unfolding eq_bytes
set_member key value end = member key value end
set_member key value (member k v ms) =
    let later = set_member key value ms in
    if eq_bytes k key then member k value ms else member k v later

-- `Value::set`: a null becomes an object first; `none` is the `TypeError` of any other type.
unfoldable pub set : Bytes → Value → Value → Option Value
unfolding set_member
set key value null = some (object (set_member key value end))
set key value (object ms) = some (object (set_member key value ms))
set key value _ = none

unfoldable pub append_item : Value → Items → Items
append_item value nil = cons value nil
append_item value (cons x xs) = cons x (append_item value xs)

-- `Value::push`.
unfoldable pub push : Value → Value → Option Value
unfolding append_item
push value null = some (array (append_item value nil))
push value (array xs) = some (array (append_item value xs))
push value _ = none

-- `Value::path`: the dotted path as the code walks it, one segment after another. The rest of the
-- path is `none` behind the last segment.
unfoldable pub split_dot : Bytes → Bytes × Option Bytes
split_dot [] = ([], none)
split_dot (c ∷ s) =
    let later = split_dot s in if c == b'.' then ([], some s) else (c ∷ later.0, later.1)

unfoldable pub walk : ℕ → Bytes → Value → Option Value
unfolding split_dot find
walk zero dotted current = none
walk (suc fuel) dotted current =
    let parts = split_dot dotted in
    if is_empty parts.0 then none else elim (find parts.0 current) [
      | none ↦ none
      | some next ↦ elim parts.1 [ none ↦ some next | some rest ↦ walk fuel rest next ]
    ]

-- A path of n bytes has at most n + 1 segments.
unfoldable pub path : Bytes → Value → Option Value
unfolding walk
path dotted v = walk (suc (length dotted)) dotted v
