-- ===== src/Json/Names.antt =====
-- Setting the members of an object one after another, which `parseObject` does
-- (src/core/Json.cpp), rebuilds the object.
use testforge.Base.{
  eq_bytes_self, ◌∙◌, eq_bytes→eq, sym, ap, eq_bytes, Bool-cases, Bytes, inr, inl, refl, none,
  false, ◌≡◌,
}
use testforge.Json.{end, Value, member, find_member, set_member, Members}

-- Nothing in the members has this name.
abbrev pub Names : Members → Type 0
Names end = Unit
Names (member k v ms) = (find_member k ms ≡ none) × Names ms

unfoldable pub put_all : Members → Members → Members
unfolding set_member
put_all before end = before
put_all before (member k v ms) = put_all (set_member k v before) ms

append_members : Members → Members → Members
append_members end ns = ns
append_members (member k v ms) ns = member k v (append_members ms ns)

-- No name of the second members is among the first.
Apart : Members → Members → Type 0
Apart before end = Unit
Apart before (member k v ms) = (find_member k before ≡ none) × Apart before ms

set_member-append :
    (k : Bytes) (v : Value) (before : Members)
    → find_member k before ≡ none
    → set_member k v before ≡ append_members before (member k v end)
unfolding set_member find_member append_members
set_member-append k v end h = refl
set_member-append k v (member l w ms) h = elim (Bool-cases (eq_bytes l k)) [
  | inl e ↦ cc (rw e at h)
  | inr e ↦ rw (e) (ap (member l w) (set_member-append k v ms (rw e at h)))
]

find_member-append :
    (k l : Bytes) (v : Value) (before : Members)
    → find_member k before ≡ none
    → eq_bytes l k ≡ false
    → find_member k (append_members before (member l v end)) ≡ none
unfolding find_member append_members
find_member-append k l v end h e = rw e refl
find_member-append k l v (member m w ms) h e = elim (Bool-cases (eq_bytes m k)) [
  | inl d ↦ cc (rw d at h)
  | inr d ↦ rw (d) (find_member-append k l v ms (rw d at h) e)
]

eq_bytes_flip : (s t : Bytes) → eq_bytes s t ≡ false → eq_bytes t s ≡ false
eq_bytes_flip s t h = elim (Bool-cases (eq_bytes t s)) [
  | inl e ↦ cc (h, eq_bytes→eq t s e, eq_bytes_self s)
  | inr e ↦ e
]

Apart-append :
    (before ms : Members) (k : Bytes) (v : Value)
    → Apart before ms
    → find_member k ms ≡ none
    → Apart (append_members before (member k v end)) ms
unfolding Apart find_member
Apart-append before end k v h e = tt
Apart-append before (member l w ms) k v h e = elim (Bool-cases (eq_bytes l k)) [
  | inl d ↦ cc (rw d at e)
  | inr d ↦ (
    find_member-append l k v before h.0 (eq_bytes_flip l k d),
    Apart-append before ms k v h.1 (rw d at e),
  )
]

append_members-end : (ms : Members) → append_members ms end ≡ ms
unfolding append_members
append_members-end end = refl
append_members-end (member k v ms) = ap (member k v) (append_members-end ms)

append_members_assoc :
    (ms : Members) (k : Bytes) (v : Value) (ns : Members)
    → append_members (append_members ms (member k v end)) ns ≡ append_members ms (member k v ns)
unfolding append_members
append_members_assoc end k v ns = refl
append_members_assoc (member l w ms) k v ns = ap (member l w) (append_members_assoc ms k v ns)

put_all-append :
    (before ms : Members)
    → Names ms
    → Apart before ms
    → put_all before ms ≡ append_members before ms
unfolding put_all Apart append_members
put_all-append before end names apart = sym (append_members-end before)
put_all-append before (member k v ms) names apart = rw (set_member-append k v before apart.0) (
    put_all-append (append_members before (member k v end)) ms names.1
      (Apart-append before ms k v apart.1 names.0)
    ∙ append_members_assoc before k v ms)

Apart-end : (ms : Members) → Apart end ms
unfolding Apart find_member
Apart-end end = tt
Apart-end (member k v ms) = (refl, Apart-end ms)

pub put_all-Names : (ms : Members) → Names ms → put_all end ms ≡ ms
unfolding append_members
put_all-Names ms names = put_all-append end ms names (Apart-end ms)

find_member-set_member_other :
    (k l : Bytes) (v : Value) (ms : Members)
    → find_member l ms ≡ none
    → eq_bytes k l ≡ false
    → find_member l (set_member k v ms) ≡ none
unfolding find_member set_member
find_member-set_member_other k l v end h ne = rw ne refl
find_member-set_member_other k l v (member m w ms) h ne = elim (Bool-cases (eq_bytes m l)) [
  | inl e ↦ cc (rw e at h)
  | inr e ↦ elim (Bool-cases (eq_bytes m k)) [
    | inl d ↦ rw (d, e, find_member) (rw e at h)
    | inr d ↦ rw (d, e, find_member) (find_member-set_member_other k l v ms (rw e at h) ne)
  ]
]

-- Setting a member keeps the names apart.
pub Names-set_member : (k : Bytes) (v : Value) (ms : Members) → Names ms → Names (set_member k v ms)
unfolding find_member set_member
Names-set_member k v end h = (refl, tt)
Names-set_member k v (member l w ms) h = elim (Bool-cases (eq_bytes l k)) [
  | inl e ↦ rw (e, Names) h
  | inr e ↦
      rw (e, Names)
        (
          find_member-set_member_other k l v ms h.0 (eq_bytes_flip l k e),
          Names-set_member k v ms h.1,
        )
]
