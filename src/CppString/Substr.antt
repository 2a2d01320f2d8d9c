-- ===== src/CppString/Substr.antt =====
-- `substr` on a text that is given in parts.
use cli_cpp.Prelude.{
  ℕ, ◌≤◌, ◌≡◌, some, ◌++◌, arith, Str, le→leb, length, length-append, drop-length_append,
  take-length_append, take-all, length-drop-le, drop, ◌≤◌,
}
use cli_cpp.CppString.{npos, substr, substr_from}

-- The part that stands at the position, with its length for the count.
pub substr-append :
    (a b d : Str) (pos n : ℕ) {s : Str}
    → s ≡ a ++ (b ++ d)
    → pos ≡ length a
    → n ≡ length b
    → substr s pos n ≡ some b
unfolding substr
substr-append a b d pos n e p q = rw (
  e,
  p,
  q,
  le→leb (length a) (length (a ++ (b ++ d))) (omega (arith, length-append a (b ++ d))),
  drop-length_append a (b ++ d),
  take-length_append b d,
)

-- A count at least as long as what is left gives all of it.
pub substr-rest :
    (a b : Str) (pos n : ℕ) {s : Str}
    → s ≡ a ++ b
    → pos ≡ length a
    → length b ≤ n
    → substr s pos n ≡ some b
unfolding substr
substr-rest a b pos n e p q = rw (
  e,
  p,
  le→leb (length a) (length (a ++ b)) (omega (arith, length-append a b)),
  drop-length_append a b,
  take-all n b q,
)

pub substr_from-append :
    (a b : Str) (pos : ℕ) {s : Str}
    → s ≡ a ++ b
    → pos ≡ length a
    → length b ≤ npos
    → substr_from s pos ≡ some b
unfolding substr_from
substr_from-append a b pos e p q = substr-rest a b pos npos e p q

pub substr_from-drop :
    (s : Str) (pos : ℕ) → pos ≤ length s → length s ≤ npos → substr_from s pos ≡ some (drop pos s)
unfolding substr_from
substr_from-drop s pos h k =
    rw (le→leb pos (length s) h, take-all npos (drop pos s) (omega (arith, length-drop-le pos s)))
