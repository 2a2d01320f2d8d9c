-- ===== src/Optparse/Ends.antt =====
-- The end of the loops of parse_args of src/contrib/optparse/OptionParser.cpp: every round uses up
-- some of the arguments, and what is no option is left over in its order.
use cli_cpp.Prelude.{
  ℕ, zero, suc, ◌+◌, ◌≤◌, ◌<◌, ◌≡◌, refl, sym, subst, inl, inr, Option, none, some, List, [], ◌∷◌,
  ◌++◌, arith, Str, codes, Bool-cases, length, take, drop,
}
use cli_cpp.Optparse.{Opt, Parser, add_option}
use cli_cpp.Optparse.Loop.{
  Result, done, failed, exited, out_of_fuel, ◌>>=◌, Next, go_on, stop_here, process_opt,
  lookup_short_opt, lookup_long_opt, short_value, handle_short_opt, split_long, long_value,
  lacks_argument, handle_long_opt, handle, loop, add_builtin, room, parse_args,
}

-- A result that is not the end of the fuel, and a parser in it whose arguments take at most that room.
abbrev Within : ℕ → Result Parser → Type 0
Within n (done q) = room q.remaining ≤ n
Within n (failed e) = Unit
Within n exited = Unit
Within n out_of_fuel = ⊥

process_opt-Within :
    (o : Opt) (opt value : Str) (p : Parser) (n : ℕ)
    → room p.remaining ≤ n
    → Within n (process_opt o opt value p)
unfolding process_opt
process_opt-Within o opt value p n h = ground arith

-- The same for a value with a parser, and for what the loop does next.
abbrev ValueWithin : ℕ → Result (Str × Parser) → Type 0
ValueWithin n (done (v, q)) = room q.remaining ≤ n
ValueWithin n (failed e) = Unit
ValueWithin n exited = Unit
ValueWithin n out_of_fuel = ⊥

abbrev NextWithin : ℕ → Result Next → Type 0
NextWithin n (done (go_on q)) = room q.remaining ≤ n
NextWithin n (done (stop_here q)) = Unit
NextWithin n (failed e) = Unit
NextWithin n exited = Unit
NextWithin n out_of_fuel = ⊥

-- A lookup gives an option or an error.
abbrev Found : Result Opt → Type 0
Found (done o) = Unit
Found (failed e) = Unit
Found exited = ⊥
Found out_of_fuel = ⊥

lookup_short_opt-Found : (opt : Str) (p : Parser) → Found (lookup_short_opt opt p)
unfolding lookup_short_opt
lookup_short_opt-Found opt p = ground arith

lookup_long_opt-Found : (opt : Str) (p : Parser) → Found (lookup_long_opt opt p)
unfolding lookup_long_opt
lookup_long_opt-Found opt p = ground arith

shorter : (arg : Str) → 2 < length arg → suc (suc (length (drop 2 arg))) ≡ length arg
shorter [] h = omega arith
shorter (a ∷ []) h = omega arith
shorter (a ∷ (b ∷ s)) h = refl

short_value-Within :
    (o : Opt) (opt arg : Str) (p : Parser)
    → ValueWithin (length arg + room p.remaining) (short_value o opt arg p)
unfolding short_value
short_value-Within o opt arg p = ground (arith, shorter arg)

long_value-Within :
    (o : Opt) (v : Option Str) (p : Parser) → room (long_value o v p).1.remaining ≤ room p.remaining
unfolding long_value
long_value-Within o (some v) p = omega arith
long_value-Within o none p = ground arith

then-process :
    (o : Opt) (opt : Str) (n : ℕ) (r : Result (Str × Parser))
    → ValueWithin n r
    → Within n (r >>= (λ vq. process_opt o opt vq.0 vq.1))
then-process o opt n (done (v, q)) h = process_opt-Within o opt v q n h
then-process o opt n (failed e) h = tt
then-process o opt n exited h = tt
then-process o opt n out_of_fuel h = elim h [ ]

after_lookup :
    (n : ℕ) (r : Result Opt) (f : Opt → Result Parser)
    → Found r
    → ((o : Opt) → Within n (f o))
    → Within n (r >>= f)
after_lookup n (done o) f h g = g o
after_lookup n (failed e) f h g = tt
after_lookup n exited f h g = elim h [ ]
after_lookup n out_of_fuel f h g = elim h [ ]

handle_short_opt-Within :
    (opt arg : Str) (p : Parser)
    → Within (length arg + room p.remaining) (handle_short_opt opt arg p)
unfolding handle_short_opt
handle_short_opt-Within opt arg p =
    after_lookup (length arg + room p.remaining) (lookup_short_opt opt p) _
      (lookup_short_opt-Found opt p)
      (λ o.
        then-process o (codes "-" ++ opt) (length arg + room p.remaining) (short_value o opt arg p)
          (short_value-Within o opt arg p))

handle_long_opt-Within :
    (opt : Str) (p : Parser) → Within (room p.remaining) (handle_long_opt opt p)
unfolding handle_long_opt
handle_long_opt-Within opt p =
    after_lookup (room p.remaining) (lookup_long_opt (split_long opt).0 p) _
      (lookup_long_opt-Found (split_long opt).0 p)
      (λ o.
        let r = long_value o (split_long opt).1 p in
        elim (Bool-cases (lacks_argument o (split_long opt).0 r.0)) [
          | inl e ↦ rw e tt
          | inr e ↦ rw e (
              process_opt-Within o (codes "--" ++ (split_long opt).0) r.0 r.1 (room p.remaining)
                (long_value-Within o (split_long opt).1 p))
        ])

then-go_on :
    (n m : ℕ) (r : Result Parser) → n ≤ m → Within n r → NextWithin m (r >>= (λ q. done (go_on q)))
then-go_on n m (done q) b h = omega arith
then-go_on n m (failed e) b h = tt
then-go_on n m exited b h = tt
then-go_on n m out_of_fuel b h = elim h [ ]

handle-Within : (arg : Str) (p : Parser) → NextWithin (length arg + room p.remaining) (handle arg p)
unfolding handle
handle-Within arg p = ground (
  arith,
  then-go_on (room p.remaining) (length arg + room p.remaining) (handle_long_opt (drop 2 arg) p)
      (omega arith) (handle_long_opt-Within (drop 2 arg) p),
  then-go_on (length arg + room p.remaining) (length arg + room p.remaining)
      (handle_short_opt (take 1 (drop 1 arg)) arg p) (omega arith)
      (handle_short_opt-Within (take 1 (drop 1 arg)) arg p),
)

-- A result that is not the end of the fuel.
abbrev pub Ended {ℓ} : {A : Type ℓ} → Result A → Type 0
Ended (done a) = Unit
Ended (failed e) = Unit
Ended exited = Unit
Ended out_of_fuel = ⊥

after-round :
    (n : ℕ) (r : Result Next) (f : Next → Result Parser)
    → NextWithin n r
    → ((q : Parser) → room q.remaining ≤ n → Ended (f (go_on q)))
    → ((q : Parser) → Ended (f (stop_here q)))
    → Ended (r >>= f)
after-round n (done (go_on q)) f h g e = g q h
after-round n (done (stop_here q)) f h g e = e q
after-round n (failed m) f h g e = tt
after-round n exited f h g e = tt
after-round n out_of_fuel f h g e = elim h [ ]

-- Fuel that is larger than the room of the arguments is enough.
loop-Ended :
    (fuel : ℕ) (args : List Str) (p : Parser)
    → room args < fuel
    → Ended (loop fuel (record p { remaining = args }))
unfolding loop
loop-Ended zero args p h = omega arith
loop-Ended (suc fuel) [] p h = tt
loop-Ended (suc fuel) (arg ∷ rest) p h =
    after-round (length arg + room rest) (handle arg (record p { remaining = rest })) _
      (handle-Within arg (record p { remaining = rest }))
      (λ q b. loop-Ended fuel q.remaining q (omega arith)) (λ q. tt)

then-done : (r : Result Parser) (f : Parser → Parser) → Ended r → Ended (r >>= (λ q. done (f q)))
then-done (done q) f h = tt
then-done (failed m) f h = tt
then-done exited f h = tt
then-done out_of_fuel f h = elim h [ ]

built_in-remaining : (p : Parser) → (add_builtin p).remaining ≡ p.remaining
unfolding add_builtin add_option
built_in-remaining p = ground arith

-- parse_args ends for all arguments and all parsers: with a parser, with the error of an option or with
-- the exit after the help or the version, and never for want of fuel.
pub parse_args-Ended : (v : List Str) (p : Parser) → Ended (parse_args v p)
unfolding parse_args
parse_args-Ended v p =
    let q = add_builtin (record p { remaining = v }) in
    then-done (loop (suc (room v)) q) _ (
      loop-Ended (suc (room v)) q.remaining q (
        subst (λ x. room x < suc (room v)) (sym (built_in-remaining (record p { remaining = v })))
          (omega arith)))
