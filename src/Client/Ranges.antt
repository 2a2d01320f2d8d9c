-- ===== src/Client/Ranges.antt =====
-- The options that the clients of src/api/qpid-proton/reactor read with strtol into an int32_t.
use cli_cpp.Prelude.{◌≡◌, ◌⊎◌, String, true, codes}
use cli_cpp.Prelude.Int.{ℤ}
use cli_cpp.Optparse.{Values, value_of, is_set}
use cli_cpp.Optparse.Numbers.{strtol}
use cli_cpp.Setter.Ranges.{IsInt, IsOutside, strtol_32-IsInt}
use cli_cpp.Client.{int_or}

-- An option that is given and that strtol reads into 32 bits becomes a number in the range of an int, and that is the number
-- of its text or the number of its text is outside of the range.
pub int_or-IsInt :
    (d : String) (other : ℤ) (vs : Values)
    → is_set (codes d) vs ≡ true
    → IsInt (int_or d other vs)
      × ((int_or d other vs ≡ strtol (value_of (codes d) vs))
          ⊎ IsOutside (strtol (value_of (codes d) vs)))
unfolding int_or
int_or-IsInt d other vs e = rw e (strtol_32-IsInt (value_of (codes d) vs))
