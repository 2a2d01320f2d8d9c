-- ===== src/Optparse/Process.antt =====
-- What src/contrib/optparse/OptionParser.cpp does with one option and its value: check_type and
-- process_opt. `error` and the help end the program, which is a result here.
use cli_cpp.Prelude.{
  ℕ, String, Bool, true, false, ◌||◌, none, some, List, [], ◌∷◌, ◌++◌, map, Str, codes, str_eq,
  ◌==◌, if◌then◌else◌,
}
use cli_cpp.Append.{append}
use cli_cpp.Optparse.{Opt, Values, value_of, mark_user_set, set_value, push_value, Parser}
use cli_cpp.Optparse.Numbers.{read_long, str_inc}

-- `failed` is error(msg), which exits with 2; `exited` is exit(0) after the help or the version.
pub data Result {ℓ} (A : Type ℓ) : Type ℓ where
  done : A → Result A
  failed : Str → Result A
  exited : Result A
  out_of_fuel : Result A

infixl 5 ◌>>=◌
abbrev pub ◌>>=◌ {ℓ κ} : {A : Type ℓ} {B : Type κ} → Result A → (A → Result B) → Result B
done a >>= f = f a
failed e >>= f = failed e
exited >>= f = exited
out_of_fuel >>= f = out_of_fuel

-- str_join(sep, l)
pub str_join : Str → List Str → Str
str_join sep [] = []
str_join sep (x ∷ []) = x
str_join sep (x ∷ (y ∷ l)) = x ++ (sep ++ str_join sep (y ∷ l))

contains_text : Str → List Str → Bool
contains_text s [] = false
contains_text s (x ∷ l) = str_eq x s || contains_text s l

invalid : String → Str → Str → Str
invalid what opt val =
    codes "option "
    ++ (opt ++ (codes ": invalid " ++ (codes what ++ (codes ": '" ++ (val ++ codes "'")))))

wrapped : Str → Str
wrapped s = codes "'" ++ (s ++ codes "'")

-- Option::check_type for the types that the clients use, and "choice": the error, empty if none.
-- The floating-point types, which no client uses, are left out.
unfoldable pub check_type : Opt → Str → Str → Str
unfolding contains_text invalid wrapped str_join
check_type o opt val =
    if str_eq o.type_name (codes "int") || str_eq o.type_name (codes "long")
    then elim (read_long val) [ none ↦ invalid "integer value" opt val | some t ↦ [] ]
    else if str_eq o.type_name (codes "choice")
    then (if contains_text val o.choices
        then []
        else invalid "choice" opt val
          ++ (codes " (choose from "
              ++ (str_join (codes ", ") (map wrapped o.choices) ++ codes ")")))
    else []

with_results : (Values → Values) → Parser → Parser
with_results f p = record p { results = f p.results }

set_callback : ℕ → Str → (ℕ → Str) → ℕ → Str
set_callback i s f j = if j == i then s else f j

-- The branches `store` and `append`: the type is checked first.
checked : Opt → Str → Str → Parser → Result Parser
checked o opt value p =
    let err = check_type o opt value in if str_eq err [] then done p else failed err

-- process_opt
unfoldable pub process_opt : Opt → Str → Str → Parser → Result Parser
unfolding with_results set_callback checked
process_opt o opt value p =
    if str_eq o.action (codes "store")
    then checked o opt value p
      >>= (λ q. done (with_results (λ r. mark_user_set o.dest true (set_value o.dest value r)) q))
    else if str_eq o.action (codes "store_const")
    then done (with_results (λ r. mark_user_set o.dest true (set_value o.dest o.const_value r)) p)
    else if str_eq o.action (codes "store_true")
    then done (with_results (λ r. mark_user_set o.dest true (set_value o.dest (codes "1") r)) p)
    else if str_eq o.action (codes "store_false")
    then done (with_results (λ r. mark_user_set o.dest true (set_value o.dest (codes "0") r)) p)
    else if str_eq o.action (codes "append")
    then checked o opt value p >>= (λ q. done (
        with_results
          (λ r. mark_user_set o.dest true (push_value o.dest value (set_value o.dest value r))) q))
    else if str_eq o.action (codes "append_const")
    then done (
        with_results
          (λ r.
            mark_user_set o.dest true
              (push_value o.dest o.const_value (set_value o.dest o.const_value r)))
          p)
    else if str_eq o.action (codes "count")
    then done (
        with_results
          (λ r. mark_user_set o.dest true (set_value o.dest (str_inc (value_of o.dest r)) r)) p)
    else if str_eq o.action (codes "help") || str_eq o.action (codes "version")
    then exited
    else if str_eq o.action (codes "callback")
    then elim o.callback [
      | none ↦ done p
      | some i ↦
          done (record p { callbacks = set_callback i (append (p.callbacks i) value) p.callbacks })
    ]
    else done p
