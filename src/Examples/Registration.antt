-- ===== src/Examples/Registration.antt =====
-- Tests of the registry.
use testforge.Registry.{Operation, find}
use testforge.Base.{
  lt_bytes, Bytes, List, eq_bytes, codes, ℕ, refl, some, none, [], ◌∷◌, ◌≡◌, if◌then◌else◌,
}
use testforge.Examples.{login, search}
use testforge.Registry.{all, create, removes, registers, run, register_test, Registry}
use testforge.Registry.Invariant.{run-all-Ascends, Ascends, IsRegistry}
use testforge.TestCase.{qualified_name}
use testforge.Registry.Lookup.{register_test-finds}

abbrev registry : Registry ℕ
registry =
    (codes "auth.login", record { metadata = login; factory = some (some 1) })
    ∷ (codes "web.search", record { metadata = search; factory = some none })
    ∷ []

abbrev operations : List (Operation ℕ)
operations = registers login (some (some 1)) ∷ removes (codes "web") ∷ []

run-all-Ascends_example : IsRegistry (run operations []) × Ascends (all (run operations []))
run-all-Ascends_example = run-all-Ascends operations

abbrev no_tests : Registry ℕ
no_tests = []

abbrev registered : Registry ℕ
registered = (codes "auth.login", record { metadata = login; factory = some (some 1) }) ∷ []

registers-login : register_test login (some (some 1)) no_tests ≡ some registered
unfolding register_test qualified_name
registers-login = refl

abbrev web : Bytes
web = codes "web.search"

register_test-finds_example :
    (find web registered
      ≡ (if eq_bytes (qualified_name login) web then some login else find web no_tests))
    × (create web registered
        ≡ (if eq_bytes (qualified_name login) web then some 1 else create web no_tests))
register_test-finds_example =
    register_test-finds login (some (some 1)) no_tests registered web registers-login

registry-IsRegistry : IsRegistry registry
unfolding qualified_name lt_bytes
registry-IsRegistry = (((refl, tt), (tt, tt)), (refl, (refl, tt)))
