-- ===== src/Logger.antt =====
-- src/common/logger/Logger.cpp, LoggerWrapper.cpp and src/common/output/Printer.cpp, and setLogLevel of
-- src/api/qpid-proton/common/ModernClient.cpp. The static members are a state; a call of fprintf is its stream, its format
-- and its argument. A logger that operator() returns is the object that its caller gets (the copy is elided), so that its
-- destructor runs once, at the end of the statement.
pub mod Lines
mod Tests
use cli_cpp.Prelude.{
  ℕ, zero, suc, String, Bool, true, false, not, List, [], ◌∷◌, ◌++◌, Str, codes, str_eq, leb, ◌==◌,
  if◌then◌else◌,
}
use cli_cpp.Prelude.Int.{ℤ}
use cli_cpp.Optparse.{Values, value_of, is_set}

pub data LogLevel : Type 0 where
  no_level : LogLevel
  trace : LogLevel
  debug : LogLevel
  info : LogLevel
  warning : LogLevel
  error : LogLevel

abbrev pub level_number : LogLevel → ℕ
level_number no_level = 0
level_number trace = 1
level_number debug = 2
level_number info = 3
level_number warning = 4
level_number error = 5

pub data Stream : Type 0 where
  stdout : Stream
  other_stream : ℕ → Stream

pub data Base : Type 0 where
  hexadecimal : Base
  decimal : Base
  octal : Base

-- What the print functions and the operators << take: a double and a pointer by a number of theirs.
pub data Loggable : Type 0 where
  int_item : ℤ → Loggable
  unsigned_item : ℕ → Loggable
  long_item : ℤ → Loggable
  unsigned_long_item : ℕ → Loggable
  double_item : ℕ → Loggable
  char_item : ℕ → Loggable
  long_long_item : ℤ → Loggable
  pointer_item : ℕ → Loggable
  text_item : Str → Loggable

pub data Output : Type 0 where
  flushes : Stream → Output
  prints : Stream → Str → Loggable → Output

pub record Printer : Type 0 where
  pub base : Base
  pub stream : Stream

abbrev pub by_base : Base → Str → Str → Str → Str
by_base hexadecimal h o d = h
by_base octal h o d = o
by_base decimal h o d = d

-- The format that print passes to fprintf.
unfoldable pub format_of : Base → Loggable → Str
format_of b (int_item n) = by_base b (codes "%x") (codes "%o") (codes "%d")
format_of b (unsigned_item n) = by_base b (codes "%#x") (codes "%#o") (codes "%u")
format_of b (long_item n) = by_base b (codes "%#lx") (codes "%#lo") (codes "%ld")
format_of b (unsigned_long_item n) = by_base b (codes "%lx") (codes "%#lo") (codes "%lu")
format_of b (double_item d) = by_base b (codes "#%a") (codes "%#lg") (codes "%lg")
format_of b (char_item c) = codes "%c"
format_of b (long_long_item n) = by_base b (codes "%llx") (codes "%#llo") (codes "%lld")
format_of b (pointer_item p) = codes "%p"
format_of b (text_item s) = codes "%s"

unfoldable pub print : Printer → Loggable → List Output
unfolding format_of
print p i = prints p.stream (format_of p.base i) i ∷ []

pub record LogConfiguration : Type 0 where
  pub minimum_level : LogLevel
  pub stream : Stream

-- The static members of Logger and of LoggerWrapper
pub record Logging : Type 0 where
  pub log_configuration : LogConfiguration
  pub initialized : Bool

abbrev pub started : Logging
started = record {
  log_configuration = record { minimum_level = warning; stream = stdout };
  initialized = false;
}

pub record Logger : Type 0 where
  pub level : LogLevel
  pub printer : Printer

-- Logger(level), which flushes the stream
abbrev pub new_logger : LogLevel → Logging → Logger
new_logger l s = record {
  level = l;
  printer = record { base = decimal; stream = s.log_configuration.stream };
}

unfoldable pub is_logged : Logger → Logging → Bool
is_logged l s = leb (level_number s.log_configuration.minimum_level) (level_number l.level)

-- c_str, as %s reads it
unfoldable pub c_str : Str → Str
c_str [] = []
c_str (c ∷ s) = let rest = c_str s in if c == 0 then [] else c ∷ rest

abbrev pub printed_item : Loggable → Loggable
printed_item (int_item n) = int_item n
printed_item (unsigned_item n) = unsigned_item n
printed_item (long_item n) = long_item n
printed_item (unsigned_long_item n) = unsigned_long_item n
printed_item (double_item d) = double_item d
printed_item (char_item c) = char_item c
printed_item (long_long_item n) = long_long_item n
printed_item (pointer_item p) = pointer_item p
printed_item (text_item s) = text_item (c_str s)

-- The operators <<
unfoldable pub insert : Logger → Logging → Loggable → List Output
unfolding is_logged print
insert l s i = if is_logged l s then print l.printer (printed_item i) else []

unfoldable pub insert_all : Logger → Logging → List Loggable → List Output
unfolding insert
insert_all l s [] = []
insert_all l s (i ∷ is) = insert l s i ++ insert_all l s is

-- ~Logger
unfoldable pub destroy : Logger → Logging → List Output
unfolding is_logged print
destroy l s = if is_logged l s then print l.printer (char_item b'\n') else []

-- What operator() puts in front
abbrev pub prefix_of : LogLevel → List Loggable
prefix_of no_level = []
prefix_of trace = text_item (codes "[trace]: ") ∷ []
prefix_of debug = text_item (codes "[debug]: ") ∷ []
prefix_of info = text_item (codes "[info ]: ") ∷ []
prefix_of warning = text_item (codes "[warn ]: ") ∷ []
prefix_of error = text_item (codes "[error]: ") ∷ []

-- logger(level) << item << item ..., as a statement
unfoldable pub statement : LogLevel → List Loggable → Logging → List Output
unfolding insert_all destroy
statement level is s =
    let l = new_logger level s in
    flushes s.log_configuration.stream
    ∷ (insert_all l s (prefix_of level) ++ (insert_all l s is ++ destroy l s))

-- LoggerWrapper::initLogger
unfoldable pub init_logger : LogConfiguration → Logging → Logging
init_logger c s =
    if not s.initialized then record { log_configuration = c; initialized = true } else s

-- logInfo, logDebug and logTrace
abbrev pub log_from : LogLevel → Logging → Logging
log_from l = init_logger (record { minimum_level = l; stream = stdout })

unfoldable pub set_log_level : Values → Logging → Logging
unfolding init_logger
set_log_level vs s =
    let log_level = value_of (codes "client-log-level") vs in
    if is_set (codes "client-log-level") vs
    then (if str_eq log_level (codes "info")
        then log_from info s
        else if str_eq log_level (codes "debug")
        then log_from debug s
        else if str_eq log_level (codes "trace")
        then log_from trace s
        else s)
    else s
