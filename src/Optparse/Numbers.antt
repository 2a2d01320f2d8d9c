-- ===== src/Optparse/Numbers.antt =====
-- The numbers that src/contrib/optparse/OptionParser.cpp and its clients read with string streams,
-- strtol, strtoul and atoi, and the successor that str_inc prints.
use cli_cpp.Prelude.{
  ℕ, ◌+◌, ◌-◌, ◌*◌, ◌%◌, Bool, true, false, not, ◌&&◌, ◌||◌, Option, none, some, [], ◌∷◌, Str,
  codes, str_eq, ltb, leb, ◌==◌, if◌then◌else◌,
}
use cli_cpp.Prelude.Int.{ℤ, pos, negsuc, sub_ℕ, ◌+ℤ◌}
use cli_cpp.CppString.{decimal}

unfoldable pub is_space : ℕ → Bool
is_space c = c == 32 || (leb 9 c && leb c 13)

unfoldable pub skip_spaces : Str → Str
skip_spaces [] = []
skip_spaces (c ∷ s) = let rest = skip_spaces s in if is_space c then rest else c ∷ s

unfoldable pub is_digit : ℕ → Bool
is_digit c = leb b'0' c && leb c b'9'

unfoldable pub read_digits : ℕ → Str → ℕ
read_digits n [] = n
read_digits n (c ∷ s) =
    let rest = read_digits (n * 10 + (c - b'0')) s in if is_digit c then rest else n

unfoldable pub read_unsigned : Str → Option ℕ
read_unsigned [] = none
read_unsigned (c ∷ s) = if is_digit c then some (read_digits 0 (c ∷ s)) else none

in_range : Bool → ℕ → Option ℤ
in_range true n = if leb n 9223372036854775808 then some (sub_ℕ 0 n) else none
in_range false n = if ltb n 9223372036854775808 then some (pos n) else none

signed : Str → Option ℤ
signed [] = none
signed (c ∷ s) =
    if c == b'-'
    then elim (read_unsigned s) [ none ↦ none | some n ↦ in_range true n ]
    else elim (read_unsigned (if c == b'+' then s else c ∷ s)) [
      | none ↦ none
      | some n ↦ in_range false n
    ]

-- istringstream(s) >> t for a long t; `none` is a failed extraction.
unfoldable pub read_long : Str → Option ℤ
unfolding is_space skip_spaces is_digit read_digits read_unsigned in_range signed
read_long s = signed (skip_spaces s)

unfoldable pub print_long : ℤ → Str
print_long (pos n) = decimal n
print_long (negsuc n) = b'-' ∷ decimal (n + 1)

-- str_inc; a failed extraction leaves 0.
unfoldable pub str_inc : Str → Str
unfolding read_long print_long
str_inc s =
    let v = if str_eq s [] then codes "0" else s in
    print_long (elim (read_long v) [ none ↦ pos 0 | some i ↦ i ] +ℤ pos 1)

-- strtol and strtoul of base 10: the end of the range where the number is out of it, 0 without one.
clamped : ℕ → Bool → ℕ → ℤ
clamped limit true n = if leb n limit then sub_ℕ 0 n else sub_ℕ 0 limit
clamped limit false n = if ltb n limit then pos n else sub_ℕ limit 1

unfoldable pub signed_digits {ℓ} : {A : Type ℓ} → A → (Bool → ℕ → A) → Str → A
signed_digits zero_of f [] = zero_of
signed_digits zero_of f (c ∷ s) =
    if c == b'-'
    then elim (read_unsigned s) [ none ↦ zero_of | some n ↦ f true n ]
    else elim (read_unsigned (if c == b'+' then s else c ∷ s)) [
      | none ↦ zero_of
      | some n ↦ f false n
    ]

unfoldable pub strtol : Str → ℤ
unfolding is_space skip_spaces is_digit read_digits read_unsigned clamped signed_digits
strtol s = signed_digits (pos 0) (clamped 9223372036854775808) (skip_spaces s)

-- An int of the low 32 bits.
unfoldable pub low_int : ℕ → ℤ
low_int n = if ltb n 2147483648 then pos n else sub_ℕ n 4294967296

-- strtol(s, NULL, 10) cut to an int, which is atoi(s).
unfoldable pub strtol_32 : Str → ℤ
unfolding strtol low_int
strtol_32 s = elim (strtol s) [
  | pos n ↦ low_int (n % 4294967296)
  | negsuc n ↦ low_int (4294967295 - n % 4294967296)
]

unfoldable pub atoi : Str → ℤ
unfolding strtol_32
atoi s = strtol_32 s

unsigned_of : Bool → ℕ → ℕ
unsigned_of neg n =
    if leb n 18446744073709551615
    then (if neg && not (n == 0) then 18446744073709551616 - n else n)
    else 18446744073709551615

-- strtoul(s, NULL, 10)
unfoldable pub strtoul : Str → ℕ
unfolding is_space skip_spaces is_digit read_digits read_unsigned unsigned_of signed_digits
strtoul s = signed_digits 0 unsigned_of (skip_spaces s)
