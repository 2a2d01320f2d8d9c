-- ===== src/Connector/Objects.antt =====
-- The objects that the connector of src/api/qpid-proton/reactor/handler/ConnectorHandler.cpp opens
-- and closes.
use cli_cpp.Prelude.{
  ℕ, ◌+◌, ◌/◌, ◌%◌, String, ◌≡◌, refl, inl, inr, Bool, true, false, not, Option, none, some, List,
  [], ◌∷◌, ◌++◌, codes, ◌==◌, if◌then◌else◌, Bool-cases, select,
}
use cli_cpp.CppString.{npos, find}
use cli_cpp.Optparse.{Values, value_of}
use cli_cpp.Connector.{
  session_bit, sender_bit, receiver_bit, has_bit, or_bit, object_control_of, Handle,
  connection_handle, Effect, connecting, opened, closed, schedule_now, schedule_second, exited,
  thrown, Connector, on_connection_open, close_objects,
}

-- The handle that an effect opens, and the one that it closes.
abbrev pub opens : Effect → Option Handle
opens (connecting l c) = none
opens (opened h path) = some h
opens (closed h) = none
opens schedule_now = none
opens schedule_second = none
opens (exited n) = none
opens (thrown e) = none

abbrev pub closes : Effect → Option Handle
closes (connecting l c) = none
closes (opened h path) = none
closes (closed h) = some h
closes schedule_now = none
closes schedule_second = none
closes (exited n) = none
closes (thrown e) = none

abbrev pub reverse {ℓ} : {A : Type ℓ} → List A → List A
reverse [] = []
reverse (x ∷ xs) = reverse xs ++ x ∷ []

-- After on_connection_open, closeObjects closes what was opened, in the reverse order, and the
-- connection at the end; nothing that was opened stays open, whatever the object control is.
pub close_objects-on_connection_open :
    (h : Connector)
    → select closes (close_objects (on_connection_open h).0)
      ≡ reverse (select opens (on_connection_open h).1) ++ connection_handle ∷ []
unfolding on_connection_open close_objects
close_objects-on_connection_open h =
    let c = h.object_control in
    elim (Bool-cases (has_bit session_bit c)) [
      | inl e ↦ elim (Bool-cases (has_bit sender_bit c)) [
        | inl f ↦ elim (Bool-cases (has_bit receiver_bit c)) [
          | inl g ↦ rw (e, f, g) refl
          | inr g ↦ rw (e, f, g) refl
        ]
        | inr f ↦ elim (Bool-cases (has_bit receiver_bit c)) [
          | inl g ↦ rw (e, f, g) refl
          | inr g ↦ rw (e, f, g) refl
        ]
      ]
      | inr e ↦ elim (Bool-cases (has_bit sender_bit c)) [
        | inl f ↦ elim (Bool-cases (has_bit receiver_bit c)) [
          | inl g ↦ rw (e, f, g) refl
          | inr g ↦ rw (e, f, g) refl
        ]
        | inr f ↦ elim (Bool-cases (has_bit receiver_bit c)) [
          | inl g ↦ rw (e, f, g) refl
          | inr g ↦ rw (e, f, g) refl
        ]
      ]
    ]

-- A text has a letter.
abbrev pub has_letter : String → Values → Bool
has_letter l vs = not (find (value_of (codes "obj-ctrl") vs) (codes l) 0 == npos)

abbrev control : Bool → Bool → Bool → Bool → ℕ
control c e s r =
    let c1 = if c then 0 else 1 in
    let c2 = if e then c1 else if c1 / 2 % 2 == 1 then c1 else c1 + 2 in
    let c3 = if s then c2 else if c2 / 4 % 2 == 1 then c2 else c2 + 4 in
    if r then c3 else if c3 / 8 % 2 == 1 then c3 else c3 + 8

letters :
    (c e s r : Bool)
    → ((control c e s r / 2 % 2 == 1) ≡ not e)
      × (((control c e s r / 4 % 2 == 1) ≡ not s) × ((control c e s r / 8 % 2 == 1) ≡ not r))
letters true true true true = (refl, (refl, refl))
letters true true true false = (refl, (refl, refl))
letters true true false true = (refl, (refl, refl))
letters true true false false = (refl, (refl, refl))
letters true false true true = (refl, (refl, refl))
letters true false true false = (refl, (refl, refl))
letters true false false true = (refl, (refl, refl))
letters true false false false = (refl, (refl, refl))
letters false true true true = (refl, (refl, refl))
letters false true true false = (refl, (refl, refl))
letters false true false true = (refl, (refl, refl))
letters false true false false = (refl, (refl, refl))
letters false false true true = (refl, (refl, refl))
letters false false true false = (refl, (refl, refl))
letters false false false true = (refl, (refl, refl))
letters false false false false = (refl, (refl, refl))

-- The bits of the object control are the letters of --obj-ctrl, independently of their order and of
-- other letters: E is the session, S the sender and R the receiver.
pub has_bit-object_control_of :
    (vs : Values)
    → (has_bit session_bit (object_control_of vs) ≡ has_letter "E" vs)
      × ((has_bit sender_bit (object_control_of vs) ≡ has_letter "S" vs)
          × (has_bit receiver_bit (object_control_of vs) ≡ has_letter "R" vs))
unfolding object_control_of has_bit or_bit
has_bit-object_control_of vs =
    let value = value_of (codes "obj-ctrl") vs in
    letters (find value (codes "C") 0 == npos) (find value (codes "E") 0 == npos)
      (find value (codes "S") 0 == npos) (find value (codes "R") 0 == npos)
