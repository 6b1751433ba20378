-- ===== src/Json/Objects.antt =====
-- What is found in an object after a member is set (src/core/Json.cpp).
use testforge.Base.{
  ap, eq_bytes_iff, sym, eq_bytes→eq, none, true, ◌∙◌, subst, false, Bool-cases, eq_bytes, inr, inl,
  refl, some, ◌≡◌, if◌then◌else◌, Bytes, arith,
}
use testforge.Json.{
  null, array, string, double, integer, end, boolean, object, member, Members, Value, set_member,
  find_member, find, set,
}

find_member-set_member :
    (key k : Bytes) (value : Value) (ms : Members)
    → find_member k (set_member key value ms)
      ≡ (if eq_bytes key k then some value else find_member k ms)
unfolding find_member set_member
find_member-set_member key k value end = refl
find_member-set_member key k value (member j v ms) = elim (Bool-cases (eq_bytes j key)) [
  | inl same ↦
      rw (same, find_member) (ground (arith, ap (λ x. eq_bytes x k) (eq_bytes→eq j key same)))
  | inr other ↦
      rw (other, find_member) (ground (arith, find_member-set_member key k value ms, apart other))
]
  where
    apart : eq_bytes j key ≡ false → eq_bytes j k ≡ true → eq_bytes key k ≡ true → ⊥
    apart other a b =
        let e : j ≡ key = eq_bytes→eq j k a ∙ sym (eq_bytes→eq key k b) in
        cc (other, (eq_bytes_iff j key).1 e)

-- After a member is set, its value is found under its key, and under every other key what was found
-- before; a null, in which nothing is found, becomes an object.
pub find-set :
    (key k : Bytes) (value v w : Value)
    → set key value v ≡ some w
    → find k w ≡ (if eq_bytes key k then some value else find k v)
unfolding find set
find-set key k value null w h =
    let e : object (set_member key value end) ≡ w = cc h in
    subst (λ x. find k x ≡ (if eq_bytes key k then some value else none)) e refl
find-set key k value (object ms) w h =
    let e : object (set_member key value ms) ≡ w = cc h in
    subst (λ x. find k x ≡ (if eq_bytes key k then some value else find_member k ms)) e
      (find_member-set_member key k value ms)
find-set key k value (boolean b) w h = cc
find-set key k value (integer i) w h = cc
find-set key k value (double d) w h = cc
find-set key k value (string s) w h = cc
find-set key k value (array xs) w h = cc
