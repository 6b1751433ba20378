-- ===== src/Examples.antt =====
-- Concrete tests of the modelled program, and the values that they share.
pub mod Texts
pub mod Arguments
pub mod Pages
pub mod Documents
pub mod Suites
pub mod Selection
pub mod Registration
pub mod Classification
pub mod Results
pub mod Threads
pub mod Running
use testforge.Base.{codes, Bytes, pos, [], true, ◌∷◌, arith}
use testforge.TestCase.{TestMetadata}
use testforge.TestResult.{TestResult, make}
use testforge.Status.{TestStatus, passed, failed}

abbrev pub sample_test : Bytes → Bytes → TestMetadata
sample_test suite name = record {
  name = name;
  suite = suite;
  description = [];
  tags = codes "smoke" ∷ [];
  timeout_ms = pos 0;
  enabled = true;
  disabled_reason = [];
  owner = [];
  source_file = [];
  source_line = pos 0;
}

abbrev pub login : TestMetadata
login = sample_test (codes "auth") (codes "login")

abbrev pub search : TestMetadata
search = sample_test (codes "web") (codes "search")
