-- ===== src/Specs/Permitted.antt =====
-- What a generated test must be like to run, as include/testforge/ai/SpecValidator.hpp puts it:
-- stated without the checks of the validator.
use testforge.Base.{
  codes, All, length, List, negsuc, pos, some, [], true, ◌++◌, ◌∷◌, ◌⊎◌, ◌≢◌, ◌≡◌, ◌<◌, ◌≤◌, ◌≤ℤ◌,
  Bytes, ℤ,
}
use testforge.Specs.Checks.{forbidden_headers, allowed_methods, SpecValidator}
use testforge.Json.{
  end, array, truncate_double, double, integer, member, string, null, Members, Value,
}
use testforge.Json.Text.Number.{CLibrary}
use testforge.Specs.{status_code_in, response_time_under, to_lower, TestSpec, SpecAssertion, Kind}
use testforge.Url.{join_url}
use testforge.Specs.Safety.{url_schemes, is_name_character}
use testforge.Url.Policy.{reject_raw}
use testforge.Json.Text.Printer.{dump}
use testforge.Strings.Search.{Occurs}
use testforge.Json.Access.{count_members}

abbrev pub StartsWith : Bytes → Bytes → Type 0
StartsWith prefix text = (rest : Bytes) × (text ≡ prefix ++ rest)

abbrev pub OneOf : Bytes → List Bytes → Type 0
OneOf text [] = ⊥
OneOf text (t ∷ ts) = (t ≡ text) ⊎ OneOf text ts

-- No control characters.
abbrev pub IsPrintable : Bytes → Type 0
IsPrintable = All λ c. (0x20 ≤ c) × (c ≢ 0x7F)

-- Letters, digits and three signs, at most 80 of them; no dot in front and no two in a row.
abbrev pub IsSafeName : Bytes → Type 0
IsSafeName name =
    (0 < length name)
    × ((length name ≤ 80)
        × (All (λ c. is_name_character c ≡ true) name
            × ((¬ StartsWith (codes ".") name) × (¬ Occurs (codes "..") name))))

-- A path from the root, without "..", "@" or the name of a scheme.
abbrev pub IsSafeEndpoint : Bytes → Type 0
IsSafeEndpoint e =
    (0 < length e)
    × ((length e ≤ 512)
        × (IsPrintable e
            × (StartsWith (codes "/") e
                × ((¬ StartsWith (codes "//") e)
                    × ((¬ Occurs (codes "..") e)
                        × (All (λ scheme. ¬ Occurs scheme (to_lower e)) url_schemes
                            × (¬ Occurs (codes "@") e)))))))

-- The endpoint under the base URL is a URL that the policy lets through.
abbrev pub IsReachable : SpecValidator → Bytes → Type 0
IsReachable v e =
    (resolved : Bytes) × (join_url v.base_url e ≡ some resolved)
    × (reject_raw v.policy resolved ≡ [])

abbrev pub IsStatus : ℤ → Type 0
IsStatus n = (pos 100 ≤ℤ n) × (n ≤ℤ pos 599)

abbrev pub IsHeaderValue : Value → Type 0
IsHeaderValue (string value) = IsPrintable value × (length value ≤ 1024)
IsHeaderValue _ = Unit

-- No credentials and no routing, whatever the case of the letters.
abbrev pub AreHeaders : Members → Type 0
AreHeaders end = Unit
AreHeaders (member key value ms) =
    (¬ OneOf (to_lower key) forbidden_headers)
    × (IsPrintable key × (IsHeaderValue value × AreHeaders ms))

abbrev pub IsBody : CLibrary → Value → Type 0
IsBody libc body = (body ≡ null) ⊎ (length (dump libc (negsuc 0) body) ≤ 65536)

abbrev pub HasExpected : Kind → Value → Type 0
HasExpected response_time_under (integer n) = pos 1 ≤ℤ n
HasExpected response_time_under (double bits) = pos 1 ≤ℤ truncate_double bits
HasExpected response_time_under _ = ⊥
HasExpected status_code_in (array xs) = Unit
HasExpected status_code_in _ = ⊥
HasExpected _ _ = Unit

abbrev pub IsAssertion : SpecAssertion → Type 0
IsAssertion a = IsPrintable a.target × ((length a.target ≤ 200) × HasExpected a.kind a.expected)

abbrev pub IsPermitted : CLibrary → SpecValidator → TestSpec → Type 0
IsPermitted libc v spec =
    IsSafeName spec.name
    × (OneOf spec.method allowed_methods
        × ((IsSafeEndpoint spec.endpoint × IsReachable v spec.endpoint)
            × ((IsStatus spec.expected_status × All IsStatus spec.acceptable_statuses)
                × (((pos 0 ≤ℤ spec.max_response_time_ms)
                      × (spec.max_response_time_ms ≤ℤ pos 600_000))
                    × (((count_members spec.headers ≤ 16) × AreHeaders spec.headers)
                        × (IsBody libc spec.body
                            × ((length spec.assertions ≤ 20)
                                × All IsAssertion spec.assertions)))))))
