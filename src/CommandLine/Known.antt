-- ===== src/CommandLine/Known.antt =====
-- Only options that the command takes get into the parsed command (src/cli/CommandLine.cpp).
use testforge.Base.{
  is_empty, ◌∙◌, not-false, drop, refl, ◌||◌, ◌&&◌, subst, if_cases, codes, eq_bytes, not, if_both,
  Option, some, none, [], false, ◌∷◌, List, All, true, ◌≡◌, Bytes,
}
use testforge.CommandLine.{
  commands, listed, nothing_parsed, parse_arguments, conclude_with, with_version, with_help,
  command_word, subcommand_word, cut, leading_flags, dash_dash, is_long_option, is_option, stop,
  is_flag_option, consume, proceed, long_option, turn, touch, parse_rest, push_value, take_option,
  Turn, is_known, ParsedCommand,
}
use testforge.StringMap.{All-insert}

-- Every option that was given is one that this command, or every command, takes.
abbrev pub IsKnown : Bytes → ParsedCommand → Type 0
IsKnown command p =
    (p.command ≡ command) × All (λ (e : Bytes × List Bytes). is_known command e.0 ≡ true) p.options

abbrev KnownAfter : Bytes → Turn → Type 0
KnownAfter command (proceed q) = IsKnown command q
KnownAfter command (consume q) = IsKnown command q
KnownAfter command (stop q) = IsKnown command q

-- The loop behind a turn.
abbrev after : Bytes → List Bytes → Turn → ParsedCommand
after b rest (proceed q) = parse_rest (b ∷ rest) q
after b rest (consume q) = parse_rest rest q
after b rest (stop q) = q

module _ (command : Bytes) where
  touch-IsKnown :
      (name : Bytes) (p : ParsedCommand)
      → is_known command name ≡ true
      → IsKnown command p
      → IsKnown command (touch name p)
  unfolding touch
  touch-IsKnown name p k (e, h) =
      (e, All-insert (λ (f : Bytes × List Bytes). is_known command f.0 ≡ true) name _ p.options k h)

  push_value-IsKnown :
      (name v : Bytes) (p : ParsedCommand)
      → is_known command name ≡ true
      → IsKnown command p
      → IsKnown command (push_value name v p)
  unfolding push_value
  push_value-IsKnown name v p k (e, h) =
      (e, All-insert (λ (f : Bytes × List Bytes). is_known command f.0 ≡ true) name _ p.options k h)

  take_option-KnownAfter :
      (name : Bytes) (inline_value next : Option Bytes) (p : ParsedCommand)
      → is_known command name ≡ true
      → IsKnown command p
      → KnownAfter command (take_option name inline_value next p)
  unfolding take_option
  take_option-KnownAfter name (some v) next p k h = push_value-IsKnown name v p k h
  take_option-KnownAfter name none none p k h =
      if_both (KnownAfter command) (is_flag_option name) _ _ (touch-IsKnown name p k h) h
  take_option-KnownAfter name none (some v) p k h =
      if_both (KnownAfter command) (is_flag_option name) _ _ (touch-IsKnown name p k h)
        (if_both (KnownAfter command) (is_long_option v) _ _ h (push_value-IsKnown name v p k h))

  long_option-KnownAfter :
      (name : Bytes) (inline_value next : Option Bytes) (p : ParsedCommand)
      → IsKnown command p
      → KnownAfter command (long_option name inline_value next p)
  unfolding long_option
  long_option-KnownAfter name inline_value next p h =
      if_both (KnownAfter command) (eq_bytes name (codes "help")) _ _ h (
        if_both (KnownAfter command) (eq_bytes name (codes "version")) _ _ h (
          if_cases (KnownAfter command) (not (is_known p.command name)) _ _ (λ _. h)
            (λ e. take_option-KnownAfter name inline_value next p (known_here e) h)))
    where
      known_here : not (is_known p.command name) ≡ false → is_known command name ≡ true
      known_here e = subst (λ c. is_known c name ≡ true) h.0 (not-false (is_known p.command name) e)

  turn-KnownAfter :
      (argument : Bytes) (next : Option Bytes) (p : ParsedCommand)
      → IsKnown command p
      → KnownAfter command (turn argument next p)
  unfolding turn
  turn-KnownAfter argument next p h =
      if_both (KnownAfter command) (not (is_option argument)) _ _ h (
        if_both (KnownAfter command) (eq_bytes argument (codes "-h")) _ _ h (
          if_both (KnownAfter command) (eq_bytes argument (codes "-V")) _ _ h (
            if_both (KnownAfter command) (not (is_long_option argument)) _ _ h (
              long_option-KnownAfter (cut b'=' (drop 2 argument)).0 (cut b'=' (drop 2 argument)).1
                next p h))))

  parse_rest-IsKnown :
      (arguments : List Bytes) (p : ParsedCommand)
      → IsKnown command p
      → IsKnown command (parse_rest arguments p)
  unfolding parse_rest
  parse_rest-IsKnown [] p h = h
  parse_rest-IsKnown (a ∷ []) p h =
      if_both (IsKnown command) (eq_bytes a dash_dash) _ _ h
        (last (turn a none p) (turn-KnownAfter a none p h))
    where
      last :
          (t : Turn)
          → KnownAfter command t
          → IsKnown command
              (elim t as (λ _. ParsedCommand) [ proceed q ↦ q | consume q ↦ q | stop q ↦ q ])
      last (proceed q) k = k
      last (consume q) k = k
      last (stop q) k = k
  parse_rest-IsKnown (a ∷ b ∷ rest) p h =
      let others : IsKnown command (after b rest (turn a (some b) p)) =
        elim (turn a (some b) p) as (λ t. KnownAfter command t → IsKnown command (after b rest t)) [
          | proceed q ↦ λ k. parse_rest-IsKnown (b ∷ rest) q k
          | consume q ↦ λ k. parse_rest-IsKnown rest q k
          | stop q ↦ λ k. k
        ]
          (turn-KnownAfter a (some b) p h) in
      if_both (IsKnown command) (eq_bytes a dash_dash) _ _ h others

leading_flags-options :
    (arguments : List Bytes) (p : ParsedCommand) → (leading_flags arguments p).1.options ≡ p.options
unfolding leading_flags
leading_flags-options [] p = refl
leading_flags-options (a ∷ rest) p =
    let P : List Bytes × ParsedCommand → Type 0 = λ r. r.1.options ≡ p.options in
    if_both P (eq_bytes a (codes "-h") || eq_bytes a (codes "--help")) _ _
      (leading_flags-options rest (with_help p))
      (if_both P (eq_bytes a (codes "-V") || eq_bytes a (codes "--version")) _ _
        (leading_flags-options rest (with_version p)) refl)

command_word-options : (r : List Bytes × ParsedCommand) → (command_word r).1.options ≡ r.1.options
unfolding command_word
command_word-options ([], p) = refl
command_word-options (a ∷ rest, p) =
    if_both (λ (r : List Bytes × ParsedCommand). r.1.options ≡ p.options) (is_option a) _ _ refl
      refl

subcommand_word-options :
    (r : List Bytes × ParsedCommand) → (subcommand_word r).1.options ≡ r.1.options
unfolding subcommand_word
subcommand_word-options ([], p) = refl
subcommand_word-options (a ∷ rest, p) =
    if_both (λ (r : List Bytes × ParsedCommand). r.1.options ≡ p.options)
      ((eq_bytes p.command (codes "ai") || eq_bytes p.command (codes "db")) && not (is_option a)) _
      _ refl refl

conclude_with-IsKnown :
    (command : Bytes) (error : Option Bytes) (p : ParsedCommand)
    → IsKnown command p
    → IsKnown command (conclude_with error p)
unfolding conclude_with
conclude_with-IsKnown command (some message) p h = h
conclude_with-IsKnown command none p h =
    let asked = p.help_requested || p.version_requested in
    if_both (IsKnown command) (is_empty p.command) _ _ (if_both (IsKnown command) asked _ _ h h)
      (if_both (IsKnown command) (asked || listed p.command commands) _ _ h h)

-- Whatever the arguments are, and whether they are in order or not, the options of the parsed command
-- are options of its command or of every command.
pub parse-IsKnown :
    (arguments : List Bytes)
    → let p = parse_arguments arguments in
      All (λ (e : Bytes × List Bytes). is_known p.command e.0 ≡ true) p.options
unfolding parse_arguments
parse-IsKnown arguments =
    let flags = leading_flags arguments nothing_parsed in
    let start = subcommand_word (command_word flags) in
    let none_yet : start.1.options ≡ [] =
      subcommand_word-options (command_word flags)
      ∙ (command_word-options flags ∙ leading_flags-options arguments nothing_parsed) in
    let begins : IsKnown start.1.command start.1 = (refl, rw none_yet tt) in
    let parsed = parse_rest start.0 start.1 in
    let whole =
      conclude_with-IsKnown start.1.command parsed.error parsed
        (parse_rest-IsKnown start.1.command start.0 start.1 begins) in
    rw whole.0 whole.1
