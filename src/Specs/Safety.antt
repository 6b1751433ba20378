-- ===== src/Specs/Safety.antt =====
-- What a name and an endpoint of a generated test may look like (src/ai/SpecValidator.cpp:
-- isSafeName, isSafeEndpoint). `none` is a safe text, and else the reason why it is not.
use testforge.Base.{
  not, length, ltb, is_empty, codes, Option, Bool, pos, some, none, [], false, ◌++◌, ◌∷◌, ◌||◌,
  if◌then◌else◌, ◌==◌, ℕ, Bytes, List, any,
}
use testforge.Url.{is_alnum}
use testforge.Strings.Search.{contains}
use testforge.Strings.Search.{starts_with}
use testforge.Decimal.{decimal}
use testforge.Strings.Case.{to_lower}

abbrev pub max_name_length : ℕ
max_name_length = 80

abbrev pub max_endpoint_length : ℕ
max_endpoint_length = 512

unfoldable pub is_control : ℕ → Bool
is_control c = ltb c 0x20 || c == 0x7F

unfoldable pub has_control_character : Bytes → Bool
unfolding any is_control
has_control_character text = any is_control text

unfoldable pub is_name_character : ℕ → Bool
unfolding is_alnum
is_name_character c = is_alnum c || c == b'_' || c == b'-' || c == b'.'

-- The loop over the characters of a name: the reason of the first that is refused.
unfoldable pub bad_character : Bytes → Option Bytes
unfolding is_name_character
bad_character [] = none
bad_character (c ∷ s) =
    let later = bad_character s in
    if is_name_character c
    then later
    else some (
        codes "name contains an unsupported character '"
        ++ c ∷ codes "' (allowed: letters, digits, '_', '-', '.')")

unfoldable pub starts_with_dot : Bytes → Bool
starts_with_dot [] = false
starts_with_dot (c ∷ s) = c == b'.'

unfoldable pub unsafe_name : Bytes → Option Bytes
unfolding bad_character starts_with_dot contains decimal
unsafe_name name =
    if is_empty name
    then some (codes "name is empty")
    else if ltb max_name_length (length name)
    then some (codes "name exceeds " ++ decimal (pos max_name_length) ++ codes " characters")
    else elim (bad_character name) [
      | some reason ↦ some reason
      | none ↦
          if starts_with_dot name || contains name (codes "..")
          then some (codes "name must not start with '.' or contain '..'")
          else none
    ]

abbrev pub url_schemes : List Bytes
url_schemes =
    codes "http:"
    ∷ codes "https:"
    ∷ codes "file:"
    ∷ codes "ftp:"
    ∷ codes "gopher:"
    ∷ codes "data:"
    ∷ codes "javascript:"
    ∷ []

unfoldable pub starts_with_slash : Bytes → Bool
starts_with_slash [] = false
starts_with_slash (c ∷ s) = c == b'/'

unfoldable pub names_scheme : Bytes → Bool
unfolding any contains to_lower
names_scheme endpoint =
    let lowered = to_lower endpoint in any (λ scheme. contains lowered scheme) url_schemes

-- The dash of the text is the character U+2014, in three bytes.
abbrev absolute : Bytes
absolute =
    codes "endpoint must be a path beginning with '/' "
    ++ (0xE2 ∷ 0x80 ∷ 0x94 ∷ [])
    ++ codes " absolute URLs are not allowed, so a generated test cannot choose its own target host"

unfoldable pub unsafe_endpoint : Bytes → Option Bytes
unfolding has_control_character starts_with_slash starts_with contains names_scheme decimal
unsafe_endpoint endpoint =
    if is_empty endpoint
    then some (codes "endpoint is empty")
    else if ltb max_endpoint_length (length endpoint)
    then some
        (codes "endpoint exceeds " ++ decimal (pos max_endpoint_length) ++ codes " characters")
    else if has_control_character endpoint
    then some (codes "endpoint contains a control character")
    else if not (starts_with_slash endpoint)
    then some absolute
    else if starts_with endpoint (codes "//")
    then some (codes "endpoint must not start with '//' (that is a protocol-relative URL)")
    else if contains endpoint (codes "..")
    then some (codes "endpoint must not contain '..'")
    else if names_scheme endpoint
    then some (codes "endpoint must not contain a URL scheme")
    else if contains endpoint (codes "@")
    then some (codes "endpoint must not contain '@'")
    else none
