-- ===== src/Items/Named.antt =====
-- Names and values of the items in src/api/qpid-proton/reactor/SendingClient.cpp.
use cli_cpp.Prelude.{
  ℕ, ◌+◌, ◌<◌, ◌≡◌, refl, sym, ap, subst, ◌∙◌, true, false, some, List, [], ◌∷◌, ◌++◌, foldl, arith,
  Str, codes, str_eq, lt→ltb, length, length-append, take-length_append, drop-behind,
}
use cli_cpp.Prelude.Int.{negsuc}
use cli_cpp.Optparse.Numbers.{strtol}
use cli_cpp.CppString.{npos, not_npos, find, to_lower}
use cli_cpp.CppString.Find.{Free, Free-append, find-append, find-Free}
use cli_cpp.StrMap.{lookup, lookup-insert_self, lookup-insert_ne}
use cli_cpp.Items.{
  split_at, name_val, Item, string, truth, long, cast, named_item, list_item, set_message_property,
  set_message_properties,
}

split_at-append :
    (separator name value : Str) (c v : ℕ)
    → split_at separator (name ++ c ∷ (v ∷ value)) (length name)
      ≡ record { name = name; value = v ∷ value; separator = separator; has_value = true }
unfolding split_at
split_at-append separator name value c v =
    rw
      (
        split_at,
        take-length_append name (c ∷ (v ∷ value)),
        drop-behind c name (v ∷ value),
        lt→ltb (length name + 1) (length (name ++ c ∷ (v ∷ value)))
            (omega (arith, length-append name (c ∷ (v ∷ value)))),
      )
      refl

name_val-equals :
    (name value : Str) (v : ℕ)
    → Free b'=' name
    → length name < npos
    → name_val (name ++ b'=' ∷ (v ∷ value))
      ≡ record { name = name; value = v ∷ value; separator = codes "="; has_value = true }
unfolding name_val
name_val-equals name value v h b =
    rw
      (
        name_val,
        find-append [] name (v ∷ value) b'=' 0 (length name) {s = name ++ b'=' ∷ (v ∷ value)} h refl
            refl (omega arith),
        not_npos (length name) b,
      )
      (split_at-append (codes "=") name value b'=' v)

name_val-tilde :
    (name value : Str) (v : ℕ)
    → Free b'=' (name ++ b'~' ∷ (v ∷ value))
    → Free b'~' name
    → length name < npos
    → name_val (name ++ b'~' ∷ (v ∷ value))
      ≡ record { name = name; value = v ∷ value; separator = codes "~"; has_value = true }
unfolding name_val
name_val-tilde name value v e h b =
    rw
      (
        name_val,
        find-Free [] (name ++ b'~' ∷ (v ∷ value)) b'=' [] 0 {s = name ++ b'~' ∷ (v ∷ value)} e refl
            refl,
        find-append [] name (v ∷ value) b'~' 0 (length name) {s = name ++ b'~' ∷ (v ∷ value)} h refl
            refl (omega arith),
        not_npos (length name) b,
      )
      (split_at-append (codes "~") name value b'~' v)

-- NAME=VALUE gives the name and the string, whatever else the value holds, where the name has no
-- equals sign, is shorter than npos, and the value is not empty.
pub named_item-equals :
    (name value : Str) (v : ℕ)
    → Free b'=' name
    → length name < npos
    → named_item (name ++ b'=' ∷ (v ∷ value)) ≡ (name, string (v ∷ value))
unfolding named_item
named_item-equals name value v h b =
    rw (named_item, name_val-equals name value v h b) (unfold str_eq in refl)

-- NAME~VALUE gives the name and the value with its type, where neither has an equals sign, the name
-- has no tilde and is shorter than npos, and the value is not empty.
pub named_item-tilde :
    (name value : Str) (v : ℕ)
    → Free b'=' (name ++ b'~' ∷ (v ∷ value))
    → Free b'~' name
    → length name < npos
    → named_item (name ++ b'~' ∷ (v ∷ value)) ≡ (name, cast (v ∷ value))
unfolding named_item
named_item-tilde name value v e h b =
    rw (named_item, name_val-tilde name value v e h b) (unfold str_eq in refl)

-- A list item with an equals sign in it is cut at the sign: what follows is lost. The part before it is
-- shorter than npos.
pub list_item-equals :
    (name value : Str) (v : ℕ)
    → Free b'=' name
    → length name < npos
    → list_item (name ++ b'=' ∷ (v ∷ value)) ≡ string name
unfolding list_item
list_item-equals name value v h b =
    rw (list_item, name_val-equals name value v h b) (unfold str_eq in refl)

-- Properties that have other names.
abbrev pub AllOther : Str → List Str → Type 0
AllOther n [] = Unit
AllOther n (p ∷ ps) = (str_eq (named_item p).0 n ≡ false) × AllOther n ps

foldl-AllOther :
    (n : Str) (ps : List Str) (m : List (Str × Item))
    → AllOther n ps
    → lookup n (foldl set_message_property m ps) ≡ lookup n m
unfolding set_message_property
foldl-AllOther n [] m h = refl
foldl-AllOther n (p ∷ ps) m h =
    foldl-AllOther n ps (set_message_property m p) h.1
    ∙ lookup-insert_ne (named_item p).0 n (named_item p).1 m h.0

foldl-last :
    (p : Str) (ps qs : List Str) (m : List (Str × Item))
    → AllOther (named_item p).0 qs
    → lookup (named_item p).0 (foldl set_message_property m (ps ++ p ∷ qs)) ≡ some (named_item p).1
unfolding set_message_property
foldl-last p [] qs m h =
    foldl-AllOther (named_item p).0 qs (set_message_property m p) h
    ∙ lookup-insert_self (named_item p).0 (named_item p).1 m
foldl-last p (q ∷ ps) qs m h = foldl-last p ps qs (set_message_property m q) h

-- Of several properties with the same name the message has the last one: a property is in the message
-- with its item if all those behind it have other names, whatever stands before it.
pub lookup-set_message_properties :
    (p : Str) (ps qs : List Str)
    → AllOther (named_item p).0 qs
    → lookup (named_item p).0 (set_message_properties (ps ++ p ∷ qs)) ≡ some (named_item p).1
unfolding set_message_properties
lookup-set_message_properties p ps qs h = foldl-last p ps qs [] h

-- The name of the last of several properties.
last_named :
    (name p : Str) (i : Item) (ps qs : List Str)
    → named_item p ≡ (name, i)
    → AllOther name qs
    → lookup name (set_message_properties (ps ++ p ∷ qs)) ≡ some i
last_named name p i ps qs e h =
    let n : (named_item p).0 ≡ name = ap (λ x. x.0) e in
    subst (λ x. lookup x (set_message_properties (ps ++ p ∷ qs)) ≡ some (named_item p).1) n
      (lookup-set_message_properties p ps qs (subst (λ x. AllOther x qs) (sym n) h))
    ∙ ap (λ x. some x.1) e

cast-true : cast (codes "True") ≡ truth true
unfolding cast str_eq to_lower
cast-true = refl

cast-false : cast (codes "False") ≡ truth false
unfolding cast str_eq to_lower
cast-false = refl

cast-number : cast (codes "-12") ≡ long (negsuc 11)
unfolding cast str_eq find strtol to_lower
cast-number = refl

-- Of several properties with one name the message has the last: NAME=VALUE as the string VALUE, whatever else VALUE holds,
-- NAME~True and NAME~False as a truth value and NAME~-12 as the number. The name has no equals sign and no tilde and is
-- shorter than npos, VALUE is not empty, and the properties behind have other names.
pub lookup-last_item :
    (name value : Str) (v : ℕ) (ps qs : List Str)
    → Free b'=' name
    → Free b'~' name
    → length name < npos
    → AllOther name qs
    → (lookup name (set_message_properties (ps ++ (name ++ b'=' ∷ (v ∷ value)) ∷ qs))
        ≡ some (string (v ∷ value)))
      × (lookup name (set_message_properties (ps ++ (name ++ codes "~True") ∷ qs))
          ≡ some (truth true))
      × (lookup name (set_message_properties (ps ++ (name ++ codes "~False") ∷ qs))
          ≡ some (truth false))
      × (lookup name (set_message_properties (ps ++ (name ++ codes "~-12") ∷ qs))
          ≡ some (long (negsuc 11)))
lookup-last_item name value v ps qs equals tilde b h =
    let typed : (c : ℕ) (t : Str)
        → Free b'=' (b'~' ∷ (c ∷ t))
        → (i : Item) → cast (c ∷ t) ≡ i
        → lookup name (set_message_properties (ps ++ (name ++ b'~' ∷ (c ∷ t)) ∷ qs)) ≡ some i =
      λ c t free i e.
        last_named name (name ++ b'~' ∷ (c ∷ t)) i ps qs
          (named_item-tilde name t c (Free-append b'=' name (b'~' ∷ (c ∷ t)) equals free) tilde b
            ∙ ap (λ x. (name, x)) e)
          h in
    (
      last_named name (name ++ b'=' ∷ (v ∷ value)) (string (v ∷ value)) ps qs
          (named_item-equals name value v equals b) h,
      typed b'T' (codes "rue") (ground arith) (truth true) cast-true,
      typed b'F' (codes "alse") (ground arith) (truth false) cast-false,
      typed b'-' (codes "12") (ground arith) (long (negsuc 11)) cast-number,
    )
