-- ===== src/CommandLine/Options.antt =====
-- The tables of the command line (src/cli/CommandLine.cpp: globalOptions, selectionOptions,
-- isFlagOption, CommandLine::commands, CommandLine::knownOptions).
use testforge.Base.{codes, eq_bytes, Bool, any, List, Bytes, some, none, [], ◌++◌, ◌∷◌, ◌||◌}
use testforge.StringMap.{lookup}

abbrev pub global_options : List Bytes
global_options =
    codes "config"
    ∷ codes "log-level"
    ∷ codes "log-file"
    ∷ codes "log-json"
    ∷ codes "no-color"
    ∷ codes "color"
    ∷ codes "db"
    ∷ codes "no-db"
    ∷ codes "help"
    ∷ codes "version"
    ∷ codes "quiet"
    ∷ codes "verbose"
    ∷ []

abbrev pub selection_options : List Bytes
selection_options =
    codes "suite"
    ∷ codes "test"
    ∷ codes "tag"
    ∷ codes "exclude-tag"
    ∷ codes "exclude-suite"
    ∷ codes "shard"
    ∷ codes "shards"
    ∷ codes "shuffle"
    ∷ codes "seed"
    ∷ codes "include-disabled"
    ∷ []

abbrev pub flag_options : List Bytes
flag_options =
    codes "help"
    ∷ codes "version"
    ∷ codes "no-color"
    ∷ codes "color"
    ∷ codes "log-json"
    ∷ codes "quiet"
    ∷ codes "verbose"
    ∷ codes "shuffle"
    ∷ codes "fail-fast"
    ∷ codes "no-db"
    ∷ codes "include-disabled"
    ∷ codes "json"
    ∷ codes "no-report"
    ∷ codes "mock"
    ∷ codes "register"
    ∷ codes "watch"
    ∷ codes "open"
    ∷ codes "dry-run"
    ∷ codes "no-persist"
    ∷ codes "gpu"
    ∷ codes "full"
    ∷ codes "prune"
    ∷ codes "all"
    ∷ codes "execute"
    ∷ codes "flaky"
    ∷ []

abbrev pub commands : List Bytes
commands =
    codes "list"
    ∷ codes "run"
    ∷ codes "report"
    ∷ codes "diagnose"
    ∷ codes "history"
    ∷ codes "stats"
    ∷ codes "serve"
    ∷ codes "ai"
    ∷ codes "spec"
    ∷ codes "db"
    ∷ codes "version"
    ∷ codes "help"
    ∷ []

-- `std::find(list.begin(), list.end(), name) != list.end()`.
unfoldable pub listed : Bytes → List Bytes → Bool
unfolding any eq_bytes
listed name names = any (λ n. eq_bytes n name) names

-- The table `kByCommand`.
abbrev pub options_by_command : List (Bytes × List Bytes)
options_by_command =
    (
      codes "ai",
      codes "requirement"
          ∷ codes "file"
          ∷ codes "suite"
          ∷ codes "max-tests"
          ∷ codes "register"
          ∷ codes "run"
          ∷ codes "test"
          ∷ codes "json"
          ∷ codes "mock"
          ∷ codes "limit"
          ∷ [],
    )
    ∷ (codes "db", codes "json" ∷ codes "prune" ∷ codes "days" ∷ codes "all" ∷ [])
    ∷ (codes "diagnose", codes "json" ∷ codes "gpu" ∷ codes "full" ∷ [])
    ∷ (codes "help", [])
    ∷ (
      codes "history",
      codes "limit" ∷ codes "test" ∷ codes "json" ∷ codes "prune" ∷ codes "days" ∷ [],
    )
    ∷ (codes "list", selection_options ++ (codes "json" ∷ codes "format" ∷ []))
    ∷ (codes "report", codes "run" ∷ codes "format" ∷ codes "output" ∷ codes "open" ∷ [])
    ∷ (
      codes "run",
      selection_options
          ++ (codes "workers"
              ∷ codes "timeout"
              ∷ codes "fail-fast"
              ∷ codes "retry-failed"
              ∷ codes "label"
              ∷ codes "report-dir"
              ∷ codes "no-report"
              ∷ codes "json"
              ∷ codes "no-persist"
              ∷ codes "dry-run"
              ∷ []),
    )
    ∷ (
      codes "serve",
      codes "host" ∷ codes "port" ∷ codes "workers" ∷ codes "static" ∷ codes "open" ∷ [],
    )
    ∷ (
      codes "spec",
      codes "file" ∷ codes "register" ∷ codes "execute" ∷ codes "json" ∷ codes "workers" ∷ [],
    )
    ∷ (codes "stats", codes "runs" ∷ codes "json" ∷ codes "flaky" ∷ codes "limit" ∷ [])
    ∷ (codes "version", codes "json" ∷ [])
    ∷ []

unfoldable pub known_options : Bytes → List Bytes
unfolding lookup
known_options command = elim (lookup command options_by_command) [ none ↦ [] | some names ↦ names ]

-- An option that the command, or every command, takes.
unfoldable pub is_known : Bytes → Bytes → Bool
unfolding listed known_options
is_known command name = listed name (known_options command) || listed name global_options

unfoldable pub is_flag_option : Bytes → Bool
unfolding listed
is_flag_option name = listed name flag_options
