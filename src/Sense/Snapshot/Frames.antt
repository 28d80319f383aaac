-- ===== src/Sense/Snapshot/Frames.antt =====
-- What a frame does to a snapshot, field by field, and what a view shows.
use neurosymbolic_system.Base.{
  ap, ◌≡◌, refl, ◌∙◌, true, false, Option, none, some, List, [], ◌∷◌, ◌++◌, map, Text, ◌==◌, mem,
  any, Distinct, Bool-cases, Option-cases, inl, inr, GoMap, lookup, insert, lookup-insert,
  lookup-delete, Time, time_sub, Floats, arith,
}
use neurosymbolic_system.Sense.Snapshot.{
  Snapshot, Frame, set_field, update, get, last_seen_at, add_ages, view, age_suffix,
}

module _ {V : Type 0} where
  abbrev pub names : Frame V → List Text
  names = map (λ entry. entry.0)

  -- the value after a frame: the frame's where it names the field, nothing where it clears it
  unfoldable pub value_after : Option (Option V) → Option V → Option V
  value_after none before = before
  value_after (some value) before = value

  -- when the field was last seen: now if the frame has a value for it, and if not as before
  unfoldable pub seen_after : Option (Option V) → Time → Option Time → Option Time
  seen_after none now before = before
  seen_after (some none) now before = before
  seen_after (some (some value)) now before = some now

  set_field-here :
      (field name : Text) (o : Option V) (now : Time) (s : Snapshot V)
      → (field == name) ≡ true
      → (get (set_field name o now s) field ≡ value_after (some o) (get s field))
        × (last_seen_at (set_field name o now s) field
            ≡ seen_after (some o) now (last_seen_at s field))
  unfolding set_field get last_seen_at value_after seen_after
  set_field-here field name none now s h = (lookup-delete name field s.values ∙ ground arith, refl)
  set_field-here field name (some v) now s h = (
    lookup-insert name field v s.values ∙ ground arith,
    lookup-insert name field now s.last_seen ∙ ground arith,
  )

  set_field-there :
      (field name : Text) (o : Option V) (now : Time) (s : Snapshot V)
      → (field == name) ≡ false
      → (get (set_field name o now s) field ≡ get s field)
        × (last_seen_at (set_field name o now s) field ≡ last_seen_at s field)
  unfolding set_field get last_seen_at
  set_field-there field name none now s h = (lookup-delete name field s.values ∙ ground arith, refl)
  set_field-there field name (some v) now s h = (
    lookup-insert name field v s.values ∙ ground arith,
    lookup-insert name field now s.last_seen ∙ ground arith,
  )

  update-outside :
      (field : Text) (frame : Frame V) (now : Time) (s : Snapshot V)
      → mem field (names frame) ≡ false
      → (get (update frame now s) field ≡ get s field)
        × (last_seen_at (update frame now s) field ≡ last_seen_at s field)
  unfolding update mem any
  update-outside field [] now s h = (refl, refl)
  update-outside field ((name, o) ∷ rest) now s h =
      let (values, seen) = update-outside field rest now (set_field name o now s) (ground arith) in
      let (value, stamp) = set_field-there field name o now s (ground arith) in
      (values ∙ value, seen ∙ stamp)

  -- A frame decides each field by itself: a field that it names is set and stamped, one that it clears
  -- loses its value and keeps its stamp, and one that it does not name stays as it was.
  pub update-get :
      (field : Text) (frame : Frame V) (now : Time) (s : Snapshot V)
      → Distinct (names frame)
      → (get (update frame now s) field ≡ value_after (lookup field frame) (get s field))
        × (last_seen_at (update frame now s) field
            ≡ seen_after (lookup field frame) now (last_seen_at s field))
  unfolding update lookup mem any value_after get seen_after last_seen_at
  update-get field [] now s d = (refl, refl)
  update-get field ((name, o) ∷ rest) now s d = elim (Bool-cases (field == name)) [
    | inl here ↦
        let out : mem field (names rest) ≡ false = ground (arith, d.0) in
        let (values, seen) = update-outside field rest now (set_field name o now s) out in
        let (value, stamp) = set_field-here field name o now s here in
        rw here (values ∙ value, seen ∙ stamp)
    | inr there ↦
        let (values, seen) = update-get field rest now (set_field name o now s) d.1 in
        let (value, stamp) = set_field-there field name o now s there in
        rw there (
          values ∙ ap (value_after (lookup field rest)) value,
          seen ∙ ap (seen_after (lookup field rest) now) stamp,
        )
  ]

module _ (fl : Floats) {V : Type 0} (of_age : fl.F → V) where
  open fl use {F, seconds}

  add_ages-fed :
      (k : Text) (value : V) (out : GoMap V) (seen : GoMap Time) (now : Time)
      → lookup k out ≡ some value
      → lookup k (add_ages fl of_age out seen now) ≡ some value
  unfolding add_ages
  add_ages-fed k value out [] now h = h
  add_ages-fed k value out ((name, at) ∷ rest) now h =
      let key = name ++ age_suffix in
      elim (Option-cases (lookup key out)) [
        | inr (v, fed) ↦ rw fed (add_ages-fed k value out rest now h)
        | inl unfed ↦
            let age = of_age (seconds (time_sub now at)) in
            let kept : lookup k (insert key age out) ≡ some value =
              lookup-insert key k age out ∙ ground arith in
            rw unfed (add_ages-fed k value (insert key age out) rest now kept)
      ]

  -- A view shows every live value as it was fed, also where a field is spelled like the age of another.
  pub view-get :
      (k : Text) (s : Snapshot V) (now : Time) {value : V}
      → get s k ≡ some value
      → lookup k (view fl of_age s now) ≡ some value
  unfolding view get
  view-get k s now {value} h = add_ages-fed k value s.values s.last_seen now h
