-- ===== src/Logger/Lines.antt =====
-- The lines of a program that logs and sets its log level: src/common/logger/Logger.cpp behind setLogLevel of
-- src/api/qpid-proton/common/ModernClient.cpp.
use cli_cpp.Prelude.{
  Bool, true, false, Bool-cases, subst, inl, inr, str_eq→eq, str_eq-false_sym, ◌≡◌, refl, sym, ap,
  ◌∙◌, arith, Option, none, some, List, [], ◌∷◌, ◌++◌, map, Str, codes, str_eq, leb, if◌then◌else◌,
}
use cli_cpp.StrMap.{lookup}
use cli_cpp.Optparse.{Values, value_of, is_set}
use cli_cpp.Logger.{
  LogLevel, level_number, info, debug, trace, warning, Loggable, char_item, Output, flushes, prints,
  stdout, decimal, format_of, printed_item, Logging, started, new_logger, insert_all, prefix_of,
  no_level, error, c_str, statement, set_log_level,
}

-- What a program does with its log.
pub data Action : Type 0 where
  sets : Values → Action
  logs : LogLevel → List Loggable → Action

abbrev pub run : List Action → Logging → List Output
run [] s = []
run (sets vs ∷ l) s = run l (set_log_level vs s)
run (logs level is ∷ l) s = statement level is s ++ run l s

-- The level that the options name, of the three that can be named.
abbrev pub known_levels : List (Str × LogLevel)
known_levels = (codes "trace", trace) ∷ (codes "debug", debug) ∷ (codes "info", info) ∷ []

abbrev pub named_level : Values → Option LogLevel
named_level vs =
    if is_set (codes "client-log-level") vs
    then lookup (value_of (codes "client-log-level") vs) known_levels
    else none

abbrev pub or_else : Option LogLevel → Option LogLevel → Option LogLevel
or_else (some l) o = some l
or_else none o = o

abbrev pub threshold : Option LogLevel → LogLevel
threshold none = warning
threshold (some l) = l

-- A line: the name of its level, its items and a line end, each in decimal.
abbrev pub line : LogLevel → List Loggable → List Output
line level is =
    map (λ i. prints stdout (format_of decimal i) i)
      (prefix_of level ++ (map printed_item is ++ char_item b'\n' ∷ []))

-- The first level that is named holds from then on, and warning before.
abbrev pub lines : Option LogLevel → List Action → List Output
lines c [] = []
lines c (sets vs ∷ l) = lines (or_else c (named_level vs)) l
lines c (logs level is ∷ l) =
    flushes stdout
    ∷ ((if leb (level_number (threshold c)) (level_number level) then line level is else [])
        ++ lines c l)

abbrev state_of : Option LogLevel → Logging
state_of none = started
state_of (some l) = record {
  log_configuration = record { minimum_level = l; stream = stdout };
  initialized = true;
}

-- The tests of a name one after the other.
abbrev level_tests : Str → Option LogLevel
level_tests n =
    if str_eq n (codes "info")
    then some info
    else if str_eq n (codes "debug")
    then some debug
    else if str_eq n (codes "trace")
    then some trace
    else none

lookup-known_levels_at :
    (k n : Str)
    → n ≡ k
    → lookup k known_levels ≡ level_tests k
    → lookup n known_levels ≡ level_tests n
lookup-known_levels_at k n e h = subst (λ x. lookup x known_levels ≡ level_tests x) (sym e) h

lookup-known_levels : (n : Str) → lookup n known_levels ≡ level_tests n
unfolding lookup str_eq
lookup-known_levels n = elim (Bool-cases (str_eq n (codes "info"))) [
  | inl e ↦ lookup-known_levels_at (codes "info") n (str_eq→eq n (codes "info") e) refl
  | inr e₁ ↦ elim (Bool-cases (str_eq n (codes "debug"))) [
    | inl e ↦ lookup-known_levels_at (codes "debug") n (str_eq→eq n (codes "debug") e) refl
    | inr e₂ ↦ elim (Bool-cases (str_eq n (codes "trace"))) [
      | inl e ↦ lookup-known_levels_at (codes "trace") n (str_eq→eq n (codes "trace") e) refl
      | inr e₃ ↦
          rw
            (
              e₁,
              e₂,
              e₃,
              str_eq-false_sym n (codes "info") e₁,
              str_eq-false_sym n (codes "debug") e₂,
              str_eq-false_sym n (codes "trace") e₃,
            )
            refl
    ]
  ]
]

set_log_level-state :
    (vs : Values) (c : Option LogLevel)
    → set_log_level vs (state_of c) ≡ state_of (or_else c (named_level vs))
unfolding set_log_level
set_log_level-state vs none =
    let keys = lookup-known_levels (value_of (codes "client-log-level") vs) in ground (arith, keys)
set_log_level-state vs (some l) = ground arith

abbrev as_output : List Loggable → List Output
as_output = map (λ i. prints stdout (format_of decimal i) i)

prefix-printed : (level : LogLevel) → map printed_item (prefix_of level) ≡ prefix_of level
unfolding c_str
prefix-printed no_level = refl
prefix-printed trace = refl
prefix-printed debug = refl
prefix-printed info = refl
prefix-printed warning = refl
prefix-printed error = refl

as_output-append : (l k : List Loggable) → as_output (l ++ k) ≡ as_output l ++ as_output k
as_output-append [] k = refl
as_output-append (i ∷ l) k = ap (◌∷◌ (prints stdout (format_of decimal i) i)) (as_output-append l k)

module _ (level m : LogLevel) (has_init : Bool) where
  abbrev state : Logging
  state = record {
    log_configuration = record { minimum_level = m; stream = stdout };
    initialized = has_init;
  }

  insert_all-shown :
      (b : Bool)
      → leb (level_number m) (level_number level) ≡ b
      → (is : List Loggable)
      → insert_all (new_logger level state) state is
        ≡ (if b then as_output (map printed_item is) else [])
  unfolding insert_all
  insert_all-shown true e [] = refl
  insert_all-shown false e [] = refl
  insert_all-shown true e (i ∷ is) = rw (e, insert_all-shown true e is) refl
  insert_all-shown false e (i ∷ is) = rw (e, insert_all-shown false e is) refl

  statement-line :
      (b : Bool)
      → leb (level_number m) (level_number level) ≡ b
      → (is : List Loggable)
      → statement level is state ≡ flushes stdout ∷ (if b then line level is else [])
  unfolding statement
  statement-line true e is =
      rw
        (
          insert_all-shown true e (prefix_of level),
          prefix-printed level,
          insert_all-shown true e is,
          e,
        )
        (ap (◌∷◌ (flushes stdout)) (
          sym (
            as_output-append (prefix_of level) (map printed_item is ++ char_item b'\n' ∷ [])
            ∙ ap (◌++◌ (as_output (prefix_of level)))
                (as_output-append (map printed_item is) (char_item b'\n' ∷ [])))))
  statement-line false e is =
      rw (insert_all-shown false e (prefix_of level), insert_all-shown false e is, e) refl

statement-state :
    (level : LogLevel) (is : List Loggable) (c : Option LogLevel)
    → statement level is (state_of c)
      ≡ flushes stdout
        ∷ (if leb (level_number (threshold c)) (level_number level) then line level is else [])
statement-state level is none =
    statement-line level warning false (leb (level_number warning) (level_number level)) refl is
statement-state level is (some l) =
    statement-line level l true (leb (level_number l) (level_number level)) refl is

run_from-lines : (l : List Action) (c : Option LogLevel) → run l (state_of c) ≡ lines c l
run_from-lines [] c = refl
run_from-lines (sets vs ∷ l) c =
    ap (run l) (set_log_level-state vs c) ∙ run_from-lines l (or_else c (named_level vs))
run_from-lines (logs level is ∷ l) c = rw (statement-state level is c, run_from-lines l c) refl

-- The statements of a log, in every program of statements and settings of its level, print a line for each one whose level
-- is at least the first level that was named before it, or warning: the name of the level, the items and a
-- line end. Later settings and other names change nothing. Each statement flushes the stream.
pub run-lines : (l : List Action) → run l started ≡ lines none l
run-lines l = run_from-lines l none
