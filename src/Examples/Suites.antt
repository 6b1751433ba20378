-- ===== src/Examples/Suites.antt =====
-- Tests of the specifications and of their validator.
use testforge.Base.{
  take, pos_part, codes, max, pos, inr, refl, [], false, true, ◌∷◌, ◌⊎◌, ◌↔◌, ◌≡◌, ◌<◌, ◌≤◌, ◌+◌,
  length, Bytes,
}
use testforge.Json.Text.Number.{CLibrary}
use testforge.Specs.Checks.{validate_one, SpecValidator}
use testforge.Specs.{json_field_exists, TestSpec, TestSpecSuite}
use testforge.Specs.Validator.{max_tests, any_fatal, validate}
use testforge.Specs.Reading.{spec_from_json}
use testforge.Specs.Permitted.{IsPermitted, IsSafeName}
use testforge.Specs.Writing.{spec_to_json}
use testforge.Specs.Gate.{validate-Sifted, validate-counted, Sifted}
use testforge.Specs.Target.{validate-AreDistinct, AreDistinct}
use testforge.Json.{null, end, string, member}
use testforge.Specs.Passing.Fields.{validate_one_iff}

abbrev libc : CLibrary
libc = record { print_general = λ precision bits. codes "1.5"; strtod = λ s. 0 }

abbrev gate : SpecValidator
gate = record {
  max_generated_tests = pos 3;
  policy = record {
    allowed_schemes = codes "http" ∷ codes "https" ∷ [];
    allowed_hosts = codes "localhost" ∷ [];
    block_link_local = true;
    block_loopback = false;
    block_private_networks = false;
  };
  base_url = codes "http://localhost:8080/api/";
}

abbrev get : Bytes → Bytes → TestSpec
get name endpoint = record {
  name = name;
  description = [];
  method = codes "GET";
  endpoint = endpoint;
  headers = member (codes "Accept") (string (codes "*/*")) end;
  body = null;
  expected_status = pos 200;
  acceptable_statuses = [];
  max_response_time_ms = pos 0;
  assertions = record { kind = json_field_exists; target = codes "id"; expected = null } ∷ [];
  tags = [];
}

abbrev suite : TestSpecSuite
suite = record {
  suite = codes "users";
  requirement = [];
  source = codes "mock";
  model = [];
  tests =
      get (codes "list") (codes "/users")
      ∷ get (codes "List") (codes "/users?all=1")
      ∷ get (codes "theft") (codes "//evil.com/")
      ∷ get (codes "late") (codes "/late")
      ∷ [];
}

two_rejected : (validate libc gate suite).1.tests ≡ get (codes "list") (codes "/users") ∷ []
unfolding validate validate_one
two_rejected = refl

counts : (validate libc gate suite).0.rejected ≡ 3
unfolding validate validate_one
counts = refl

read_back :
    spec_from_json (spec_to_json (get (codes "list") (codes "/users")))
    ≡ inr (get (codes "list") (codes "/users"))
unfolding spec_from_json spec_to_json
read_back = refl

validate_one_iff_example :
    (any_fatal (validate_one libc gate (get (codes "theft") (codes "//evil.com/")) 2) ≡ false)
    ↔ IsPermitted libc gate (get (codes "theft") (codes "//evil.com/"))
validate_one_iff_example = validate_one_iff libc gate (get (codes "theft") (codes "//evil.com/")) 2

validate-Sifted_example :
    (IsSafeName suite.suite
      × Sifted libc gate [] (take (max_tests gate) suite.tests) (validate libc gate suite).1.tests)
    ⊎ ((¬ IsSafeName suite.suite) × ((validate libc gate suite).1.tests ≡ []))
validate-Sifted_example = validate-Sifted libc gate suite

validate-counted_example :
    ((validate libc gate suite).0.accepted ≡ length (validate libc gate suite).1.tests)
    × ((validate libc gate suite).0.accepted + (validate libc gate suite).0.rejected
        ≡ length suite.tests)
    × (((validate libc gate suite).0.valid ≡ true)
        ↔ (0 < length (validate libc gate suite).1.tests))
    × ((validate libc gate suite).1 ≡ record suite { tests = (validate libc gate suite).1.tests })
validate-counted_example = validate-counted libc gate suite

validate-AreDistinct_example :
    (length (validate libc gate suite).1.tests ≤ max 1 (pos_part gate.max_generated_tests))
    × AreDistinct (validate libc gate suite).1.tests
validate-AreDistinct_example = validate-AreDistinct libc gate suite
