-- ===== src/Runner/Context.antt =====
-- What a test records through its context (include/testforge/core/TestContext.hpp,
-- src/core/TestContext.cpp), and how the runner folds it into a result (`applyContextOutput`).
use testforge.Base.{
  codes, eq_bytes, refl, some, none, [], true, ◌++◌, ◌∷◌, ◌≡◌, if◌then◌else◌, List, any, Bytes,
  arith,
}
use testforge.Json.{
  null, array, string, double, integer, boolean, member, is_object, set_member, end, Members, set,
  object, Value,
}
use testforge.TestResult.{TestResult}

-- `lines` is what the thread logged, rendered, which `ScopedLogCapture` reads.
pub record Context : Type 0 where
  pub collected : Value
  pub extra_tags : List Bytes
  pub notes : List Bytes
  pub lines : List Bytes

abbrev pub no_output : Context
no_output = record { collected = object end; extra_tags = []; notes = []; lines = [] }

-- `set` on a value that is an object, where it does not throw.
unfoldable pub set_fact : Bytes → Value → Value → Value
unfolding set
set_fact key fact v = elim (set key fact v) [ none ↦ v | some w ↦ w ]

unfoldable pub add_metadata : Bytes → Value → Context → Context
unfolding set_fact
add_metadata key fact c = record c { collected = set_fact key fact c.collected }

-- A tag is added where it does not stand yet.
unfoldable pub push_tag : List Bytes → Bytes → List Bytes
unfolding any eq_bytes
push_tag tags tag = if any (λ t. eq_bytes t tag) tags then tags else tags ++ tag ∷ []

unfoldable pub add_tag : Bytes → Context → Context
unfolding push_tag
add_tag tag c = record c { extra_tags = push_tag c.extra_tags tag }

unfoldable pub add_note : Bytes → Context → Context
add_note note c = record c { notes = c.notes ++ note ∷ [] }

unfoldable pub set_facts : Members → Value → Value
unfolding set_fact
set_facts end v = v
set_facts (member key fact rest) v = set_facts rest (set_fact key fact v)

unfoldable pub members_of : Value → Members
members_of (object ms) = ms
members_of _ = end

unfoldable pub push_tags : List Bytes → List Bytes → List Bytes
unfolding push_tag
push_tags [] tags = tags
push_tags (tag ∷ rest) tags = push_tags rest (push_tag tags tag)

unfoldable pub note_text : List Bytes → Bytes
note_text [] = []
note_text (note ∷ rest) = codes "\n  note: " ++ note ++ note_text rest

unfoldable pub apply_context_output : Context → TestResult → TestResult
unfolding set_facts push_tags note_text members_of
apply_context_output c r = record r {
  metadata = set_facts (members_of c.collected) r.metadata;
  tags = push_tags c.extra_tags r.tags;
  error_detail = r.error_detail ++ note_text c.notes;
}

set-object :
    (key : Bytes) (fact : Value) (ms : Members)
    → set key fact (object ms) ≡ some (object (set_member key fact ms))
unfolding set
set-object key fact ms = refl

pub set_fact-is_object :
    (key : Bytes) (fact v : Value) → is_object v ≡ true → is_object (set_fact key fact v) ≡ true
unfolding set_fact set is_object
set_fact-is_object key fact (object ms) h = refl
set_fact-is_object key fact null h = ground arith
set_fact-is_object key fact (boolean b) h = ground arith
set_fact-is_object key fact (integer i) h = ground arith
set_fact-is_object key fact (double d) h = ground arith
set_fact-is_object key fact (string s) h = ground arith
set_fact-is_object key fact (array xs) h = ground arith

pub set_facts-is_object :
    (ms : Members) (v : Value) → is_object v ≡ true → is_object (set_facts ms v) ≡ true
unfolding set_facts
set_facts-is_object end v h = h
set_facts-is_object (member key fact rest) v h =
    set_facts-is_object rest (set_fact key fact v) (set_fact-is_object key fact v h)
