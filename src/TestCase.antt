-- ===== src/TestCase.antt =====
-- What is known of a test before it runs (include/testforge/core/TestCase.hpp and the end of
-- src/core/TestContext.cpp).
use testforge.Base.{
  codes, [], Bool, ℤ, eq_bytes, is_empty, List, ◌++◌, ◌∷◌, if◌then◌else◌, any, Bytes,
}
use testforge.Json.{
  boolean, nil, array, integer, end, string, Items, Members, object, Value, set_member, append_item,
}

pub record TestMetadata : Type 0 where
  pub name : Bytes
  pub suite : Bytes
  pub description : Bytes
  pub tags : List Bytes
  pub timeout_ms : ℤ
  pub enabled : Bool
  pub disabled_reason : Bytes
  pub owner : Bytes
  pub source_file : Bytes
  pub source_line : ℤ

-- The suite and the name, joined by a dot where there is a suite.
unfoldable pub qualify : Bytes → Bytes → Bytes
qualify suite name = if is_empty suite then name else suite ++ b'.' ∷ name

unfoldable pub qualified_name : TestMetadata → Bytes
unfolding qualify
qualified_name m = qualify m.suite m.name

unfoldable pub has_tag : TestMetadata → Bytes → Bool
unfolding any eq_bytes
has_tag m tag = any (λ candidate. eq_bytes candidate tag) m.tags

-- The loop of `toJson` that pushes the tags.
unfoldable push_each : List Bytes → Items → Items
unfolding append_item
push_each [] items = items
push_each (tag ∷ tags) items = push_each tags (append_item (string tag) items)

-- A text that is set only when there is one, and the line that goes with a source file.
unfoldable set_text : Bytes → Bytes → Members → Members
unfolding set_member
set_text key text out = if is_empty text then out else set_member key (string text) out

unfoldable set_source : Bytes → ℤ → Members → Members
unfolding set_member
set_source file line out =
    if is_empty file
    then out
    else set_member (codes "source_line") (integer line)
        (set_member (codes "source_file") (string file) out)

unfoldable set_head : TestMetadata → Members
unfolding set_member qualified_name push_each
set_head m =
    let named =
      set_member (codes "suite") (string m.suite) (set_member (codes "name") (string m.name) end) in
    let qualified = set_member (codes "qualified_name") (string (qualified_name m)) named in
    let described = set_member (codes "description") (string m.description) qualified in
    let tagged = set_member (codes "tags") (array (push_each m.tags nil)) described in
    let timed = set_member (codes "timeout_ms") (integer m.timeout_ms) tagged in
    set_member (codes "enabled") (boolean m.enabled) timed

unfoldable pub metadata_to_json : TestMetadata → Value
unfolding set_head set_text set_source
metadata_to_json m = object (
    set_source m.source_file m.source_line (
      set_text (codes "owner") m.owner
        (set_text (codes "disabled_reason") m.disabled_reason (set_head m))))
