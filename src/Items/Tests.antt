-- ===== src/Items/Tests.antt =====
-- Items of src/api/qpid-proton/reactor/SendingClient.cpp on short texts.
use cli_cpp.Prelude.{◌≡◌, refl, some, [], ◌∷◌, ◌++◌, List, Str, codes, str_eq, true, false, arith}
use cli_cpp.Prelude.Int.{negsuc}
use cli_cpp.CppString.Find.{Free}
use cli_cpp.CppString.{find}
use cli_cpp.StrMap.{lookup}
use cli_cpp.Items.{Item, string, truth, long, name_val, named_item, set_message_properties}
use cli_cpp.Items.Named.{AllOther, lookup-last_item}

abbrev a_items : Str → List (Str × Item)
a_items text =
    set_message_properties ((codes "a=1" ∷ []) ++ (codes "a" ++ text) ∷ (codes "b=3" ∷ []))

other_name : AllOther (codes "a") (codes "b=3" ∷ [])
unfolding named_item name_val find str_eq
other_name = (refl, tt)

no_equals : Free b'=' (codes "a")
no_equals = ground arith

no_tilde : Free b'~' (codes "a")
no_tilde = ground arith

lookup-last_item_example :
    (lookup (codes "a") (a_items (codes "=2")) ≡ some (string (codes "2")))
    × (lookup (codes "a") (a_items (codes "~True")) ≡ some (truth true))
    × (lookup (codes "a") (a_items (codes "~False")) ≡ some (truth false))
    × (lookup (codes "a") (a_items (codes "~-12")) ≡ some (long (negsuc 11)))
lookup-last_item_example =
    lookup-last_item (codes "a") [] b'2' (codes "a=1" ∷ []) (codes "b=3" ∷ []) no_equals no_tilde
      (omega arith) other_name
