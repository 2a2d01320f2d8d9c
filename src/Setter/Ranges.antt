-- ===== src/Setter/Ranges.antt =====
-- The range of the numbers that the clients read: the int of the class Value of src/contrib/optparse/OptionParser.h, and
-- strtol cut to an int32_t in src/api/qpid-proton/reactor.
use cli_cpp.Prelude.{
  ◌≤◌, ◌<◌, ◌≡◌, refl, inl, inr, ◌⊎◌, Option, none, some, arith, Str, Option-cases,
}
use cli_cpp.Prelude.Int.{ℤ, pos, negsuc}
use cli_cpp.Optparse.Numbers.{read_long, strtol, strtol_32, low_int}
use cli_cpp.Setter.{as_int, as_long}

-- From -2^31 to 2^31 - 1.
abbrev pub IsInt : ℤ → Type 0
IsInt (pos n) = n ≤ 2147483647
IsInt (negsuc n) = n ≤ 2147483647

abbrev pub IsOutside : ℤ → Type 0
IsOutside (pos n) = 2147483647 < n
IsOutside (negsuc n) = 2147483647 < n

as_int-read :
    (s : Str) (z : ℤ)
    → read_long s ≡ some z
    → IsInt (as_int (some s))
      × ((as_int (some s) ≡ as_long (some s))
          ⊎ ((as_int (some s) ≡ pos 0) × IsOutside (as_long (some s))))
unfolding as_int as_long
as_int-read s (pos n) e = rw (e, as_int, as_long) (ground arith)
as_int-read s (negsuc n) e = rw (e, as_int, as_long) (ground arith)

-- A Value is read as an int in the range of an int: its number, or 0 if that is outside of the range.
pub as_int-IsInt :
    (v : Option Str)
    → IsInt (as_int v) × ((as_int v ≡ as_long v) ⊎ ((as_int v ≡ pos 0) × IsOutside (as_long v)))
unfolding as_int as_long
as_int-IsInt none = (omega arith, inl refl)
as_int-IsInt (some s) = elim (Option-cases (read_long s)) [
  | inl e ↦ rw (e, as_int, as_long) (omega arith, inl refl)
  | inr (z, e) ↦ as_int-read s z e
]

strtol_32-cut :
    (s : Str) (z : ℤ)
    → strtol s ≡ z
    → IsInt (strtol_32 s) × ((strtol_32 s ≡ strtol s) ⊎ IsOutside (strtol s))
unfolding strtol_32 low_int
strtol_32-cut s (pos n) e = rw (e, strtol_32) (ground arith)
strtol_32-cut s (negsuc n) e = rw (e, strtol_32) (ground arith)

-- A number that strtol reads and that is cut to 32 bits is in the range of an int, and it is the number that
-- was read or that number is outside of the range.
pub strtol_32-IsInt :
    (s : Str) → IsInt (strtol_32 s) × ((strtol_32 s ≡ strtol s) ⊎ IsOutside (strtol s))
strtol_32-IsInt s = strtol_32-cut s (strtol s) refl
