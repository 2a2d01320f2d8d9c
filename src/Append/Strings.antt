-- ===== src/Append/Strings.antt =====
-- What getStrings of src/common/options/modern/StringAppendCallback.cpp gives.
use cli_cpp.Prelude.{
  ℕ, zero, suc, ◌+◌, ◌<◌, ◌≡◌, refl, sym, ap, ◌∙◌, subst, ◌≢◌, inl, inr, false, some, List, [], ◌∷◌,
  ◌++◌, foldl, append-nil, append_assoc, arith, Str, codes, str_eq, ne→str_eq, ltb, ◌==◌,
  if◌then◌else◌, Bool-cases, length, length-append,
}
use cli_cpp.CppString.{npos, add64, sub64, find, substr, not_npos}
use cli_cpp.CppString.Find.{Free, find-append, find-Free}
use cli_cpp.CppString.Substr.{substr-append, substr-rest}
use cli_cpp.CppString.Fields.{fields, fields-Free, fields-append, last_field, first_field, cut}
use cli_cpp.Append.{append, push_piece, collect, get_strings}

-- Empty fields are left out, and '' stands for the empty string.
abbrev pub decode : List Str → List Str
decode [] = []
decode (f ∷ fs) = push_piece f (decode fs)

collect-npos : (fuel : ℕ) (str : Str) (start : ℕ) → collect (suc fuel) str npos start ≡ some []
unfolding collect
collect-npos fuel str start = refl

-- One round, at a position before the end.
collect_round :
    (fuel : ℕ) (str : Str) (colon start at : ℕ) (piece : Str) (strings : List Str)
    → (colon == npos) ≡ false
    → find str (codes ";") start ≡ at
    → substr str start (sub64 at start) ≡ some piece
    → collect fuel str at (add64 at 1) ≡ some strings
    → collect (suc fuel) str colon start ≡ some (push_piece piece strings)
unfolding collect
collect_round fuel str colon start at piece strings open' e f g =
    let f' : substr str start (sub64 (find str (codes ";") start) start) ≡ some piece = rw e f in
    let g' : collect fuel str (find str (codes ";") start) (add64 (find str (codes ";") start) 1)
        ≡ some strings =
      rw e g in
    rw (open', f', g')

-- The loop gives the fields of what is left of the text.
collect-fields :
    (fuel : ℕ) (str pre post : Str) (colon : ℕ)
    → length post + 1 < fuel
    → str ≡ pre ++ post
    → length str < npos
    → (colon == npos) ≡ false
    → collect fuel str colon (length pre) ≡ some (decode (fields b';' post))
collect-fields zero str pre post colon h e b o = absurd (omega arith)
collect-fields (suc zero) str pre post colon h e b o = absurd (omega arith)
collect-fields (suc (suc fuel)) str pre post colon h e b o = elim (cut b';' post) [
  | last_field free ↦
      let l : length str ≡ length pre + length post = ap length e ∙ length-append pre post in
      rw (fields-Free b';' post free) (
        collect_round (suc fuel) str colon (length pre) npos post [] o
          (find-Free pre post b';' [] (length pre) free e refl)
          (substr-rest pre post (length pre) (sub64 npos (length pre)) e refl (omega arith))
          (collect-npos fuel str (add64 npos 1)))
  | first_field f rest free e' ↦
      let l : length str ≡ length pre + length post = ap length e ∙ length-append pre post in
      let k : length post ≡ length f + suc (length rest) =
        ap length e' ∙ length-append f (b';' ∷ rest) in
      let e'' : str ≡ pre ++ (f ++ b';' ∷ rest) = e ∙ ap (λ x. pre ++ x) e' in
      let e₃ : str ≡ (pre ++ (f ++ b';' ∷ [])) ++ rest = e'' ∙ simp append_assoc in
      let n : length (pre ++ (f ++ b';' ∷ [])) ≡ length pre + length f + 1 =
        omega (arith, length-append pre (f ++ b';' ∷ []), length-append f (b';' ∷ [])) in
      let m : add64 (length pre + length f) 1 ≡ length (pre ++ (f ++ b';' ∷ [])) = omega arith in
      rw (e', fields-append b';' f rest free)
        (collect_round (suc fuel) str colon (length pre) (length pre + length f) f
          (decode (fields b';' rest)) o
          (find-append pre f rest b';' (length pre) (length pre + length f) free e'' refl refl)
          (substr-append pre f (b';' ∷ rest) (length pre)
            (sub64 (length pre + length f) (length pre)) e'' refl (omega arith))
          (rw m (
            collect-fields (suc fuel) str (pre ++ (f ++ b';' ∷ [])) rest (length pre + length f)
              (omega arith) e₃ b (ground arith))))
]

-- For a text shorter than npos with a semicolon, getStrings gives the texts between the semicolons,
-- without the empty ones and with '' read as the empty string; a text without a semicolon is the
-- only string, if it is not empty.
pub get_strings-fields :
    (str : Str)
    → length str < npos
    → get_strings str ≡ (
        if find str (codes ";") 0 == npos
        then some (if ltb 0 (length str) then str ∷ [] else [])
        else some (decode (fields b';' str)))
unfolding get_strings
get_strings-fields str b = elim (Bool-cases (find str (codes ";") 0 == npos)) [
  | inl e ↦ rw e (ground arith)
  | inr e ↦
      rw e
        (collect-fields (length str + 3) str [] str (find str (codes ";") 0) (omega arith) refl b e)
]

-- The text of one appended string.
encode : Str → Str
encode x = if ltb 0 (length x) then x else codes "''"

encode-cons : (c : ℕ) (x : Str) → encode (c ∷ x) ≡ c ∷ x
unfolding encode
encode-cons c x = ground arith

append-encode : (s x : Str) → append s x ≡ s ++ (encode x ++ codes ";")
unfolding append encode
append-encode s [] = refl
append-encode s (c ∷ x) =
    let e : append s (c ∷ x) ≡ (s ++ c ∷ x) ++ codes ";" = ground arith in
    e ∙ append_assoc s (c ∷ x) (codes ";") ∙ ap (λ y. s ++ (y ++ codes ";")) (sym (encode-cons c x))

joined : List Str → Str
unfolding encode
joined [] = []
joined (x ∷ xs) = encode x ++ b';' ∷ joined xs

-- A string that survives the trip: no semicolon, and not the mark of the empty string.
pub record IsItem (x : Str) : Type 0 where
  pub no_semicolon : Free b';' x
  pub not_mark : x ≢ codes "''"

abbrev pub AllItems : List Str → Type 0
AllItems [] = Unit
AllItems (x ∷ xs) = IsItem x × AllItems xs

foldl-append : (acc : Str) (xs : List Str) → foldl append acc xs ≡ acc ++ joined xs
unfolding joined
foldl-append acc [] = sym (append-nil acc)
foldl-append acc (x ∷ xs) =
    foldl-append (append acc x) xs ∙ rw (append-encode acc x) (simp append_assoc)

encode-Free : (x : Str) → Free b';' x → Free b';' (encode x)
unfolding encode
encode-Free [] h = omega arith
encode-Free (c ∷ x) h = rw (encode-cons c x) h

push_piece-encode : (x : Str) (xs : List Str) → x ≢ codes "''" → push_piece (encode x) xs ≡ x ∷ xs
unfolding push_piece
push_piece-encode [] xs n = unfold encode str_eq in refl
push_piece-encode (c ∷ x) xs n =
    let e = ne→str_eq (c ∷ x) (codes "''") n in
    rw (encode-cons c x, push_piece) (rw e (ground arith))

decode-joined : (xs : List Str) → AllItems xs → decode (fields b';' (joined xs)) ≡ xs
unfolding joined
decode-joined [] h = unfold fields push_piece str_eq in refl
decode-joined (x ∷ xs) h =
    rw
      (
        fields-append b';' (encode x) (joined xs) (encode-Free x h.0.no_semicolon),
        decode-joined xs h.1,
      )
      (push_piece-encode x xs h.0.not_mark)

find-joined :
    (x : Str) (xs : List Str) → IsItem x → find (joined (x ∷ xs)) (codes ";") 0 ≡ length (encode x)
unfolding joined
find-joined x xs h =
    find-append [] (encode x) (joined xs) b';' 0 (length (encode x)) (encode-Free x h.no_semicolon)
      refl refl (omega arith)

get_strings-joined :
    (xs : List Str) → AllItems xs → length (joined xs) < npos → get_strings (joined xs) ≡ some xs
get_strings-joined [] h b = unfold get_strings joined find in refl
get_strings-joined (x ∷ xs) h b =
    let l : length (joined (x ∷ xs)) ≡ length (encode x) + suc (length (joined xs)) =
      unfold joined in length-append (encode x) (b';' ∷ joined xs) in
    let f : (find (joined (x ∷ xs)) (codes ";") 0 == npos) ≡ false =
      rw (find-joined x xs h.0) (not_npos (length (encode x)) (omega arith)) in
    get_strings-fields (joined (x ∷ xs)) b ∙ rw (f, decode-joined (x ∷ xs) h)

-- The strings that were appended to an empty callback come back from getStrings in order, empty
-- ones included, if none holds a semicolon or is two quotes, and all of them fit in a text.
pub get_strings-append :
    (xs : List Str)
    → AllItems xs
    → length (foldl append [] xs) < npos
    → get_strings (foldl append [] xs) ≡ some xs
get_strings-append xs h b =
    let e = foldl-append [] xs in rw e (get_strings-joined xs h (subst (λ s. length s < npos) e b))
