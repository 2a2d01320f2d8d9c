-- ===== src/CppString.antt =====
-- What the sources use of std::string: the words of size_t, find and substr.
-- A text is the list of its bytes, and `size_max` is 2^64, the modulus of size_t.
pub mod Find
pub mod Substr
pub mod Fields
use cli_cpp.Prelude.{
  ℕ, suc, zero, ◌<◌, ◌≤◌, ◌≡◌, arith, ◌+◌, ◌-◌, ◌/◌, ◌%◌, map, ◌++◌, Bool, true, false, ◌&&◌,
  Option, none, some, List, [], ◌∷◌, Str, ◌==◌, leb, ltb, if◌then◌else◌, length, take, drop,
}

abbrev pub size_max : ℕ
size_max = 18446744073709551616

-- std::string::npos, the largest size_t
abbrev pub npos : ℕ
npos = 18446744073709551615

-- a + b and a - b at type size_t
abbrev pub add64 : ℕ → ℕ → ℕ
add64 a b = (a + b) % size_max

abbrev pub sub64 : ℕ → ℕ → ℕ
sub64 a b = (a + size_max - b) % size_max

-- Whether a text begins with a pattern.
unfoldable pub starts_with : Str → Str → Bool
starts_with [] s = true
starts_with (p ∷ ps) [] = false
starts_with (p ∷ ps) (x ∷ xs) = p == x && starts_with ps xs

-- The first position of the pattern in a text that itself stands at position i.
unfoldable pub scan : Str → Str → ℕ → Option ℕ
scan pat [] i = if starts_with pat [] then some i else none
scan pat (x ∷ xs) i =
    let rest = scan pat xs (suc i) in if starts_with pat (x ∷ xs) then some i else rest

abbrev pub pos_or_npos : Option ℕ → ℕ
pos_or_npos none = npos
pos_or_npos (some i) = i

-- s.find(pat, pos)
unfoldable pub find : Str → Str → ℕ → ℕ
unfolding scan starts_with
find s pat pos = if leb pos (length s) then pos_or_npos (scan pat (drop pos s) pos) else npos

-- s.substr(pos, n); `none` is the exception std::out_of_range.
unfoldable pub substr : Str → ℕ → ℕ → Option Str
substr s pos n = if leb pos (length s) then some (take n (drop pos s)) else none

-- s.substr(pos)
unfoldable pub substr_from : Str → ℕ → Option Str
unfolding substr
substr_from s pos = substr s pos npos

-- s.replace(pos, n, r), at a position within the text
unfoldable pub replace : Str → ℕ → ℕ → Str → Str
replace s pos n r = take pos s ++ (r ++ drop (pos + n) s)

-- s.find(pat) != npos
unfoldable pub contains : Str → Str → Bool
unfolding find
contains s pat = if find s pat 0 == npos then false else true

-- ::tolower on every byte, in the C locale
unfoldable pub to_lower : Str → Str
to_lower = map (λ c. if leb b'A' c && leb c b'Z' then c + 32 else c)

-- What an ostream prints for an unsigned number: its decimal digits.
decimal_fuel : ℕ → ℕ → Str
decimal_fuel zero n = []
decimal_fuel (suc f) n =
    let front = decimal_fuel f (n / 10) in
    if ltb n 10 then (48 + n) ∷ [] else front ++ (48 + n % 10) ∷ []

unfoldable pub decimal : ℕ → Str
unfolding decimal_fuel
decimal n = decimal_fuel (suc n) n

pub not_npos : (n : ℕ) → n < npos → (n == npos) ≡ false
not_npos n h = ground arith

pub add64_small : (a b : ℕ) → a + b < size_max → add64 a b ≡ a + b
add64_small a b h = omega arith

pub sub64_small : (a b : ℕ) → b ≤ a → a < size_max → sub64 a b ≡ a - b
sub64_small a b h k = omega arith
