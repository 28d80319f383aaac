-- ===== src/Rules/Document.antt =====
-- internal/rules/validate.go: the values that a TOML document decodes to, and how they are read. An int64 is
-- an integer that `of_int` converts; a table is a map; `moment` is a date or a time, which nothing accepts.
-- The library's texts are UTF-8.
pub mod Fields
use neurosymbolic_system.Base.{
  ℕ, ◌+◌, ◌-◌, ℤ, Bool, true, false, not, ◌&&◌, ◌||◌, Option, none, some, List, [], ◌∷◌, Text, ◌==◌,
  if◌then◌else◌, eqb, leb, ltb, any, mem, GoMap, lookup, is_some, Floats,
}
use neurosymbolic_system.Ruleeval.Predicate.{
  Op, gt, lt, ge, le, eq, ne, is_true, is_false, absent_for,
}

-- `[]any` is an array, `[]map[string]any` is tables
mutual
  pub data Toml (F : Type 0) : Type 0 where
    text : Text → Toml F
    boolean : Bool → Toml F
    integer : ℤ → Toml F
    float : F → Toml F
    moment : Toml F
    array : Items F → Toml F
    tables : Rows F → Toml F
    table : Entries F → Toml F

  pub data Items (F : Type 0) : Type 0 where
    no_items : Items F
    item : Toml F → Items F → Items F

  pub data Rows (F : Type 0) : Type 0 where
    no_rows : Rows F
    row : Entries F → Rows F → Rows F

  pub data Entries (F : Type 0) : Type 0 where
    no_entries : Entries F
    entry : Text → Toml F → Entries F → Entries F

abbrev pub Table : Type 0 → Type 0
Table F = GoMap (Toml F)

module _ {F : Type 0} where
  unfoldable pub entries_of : Entries F → Table F
  entries_of no_entries = []
  entries_of (entry key value rest) = (key, value) ∷ entries_of rest

  unfoldable pub items_of : Items F → List (Toml F)
  items_of no_items = []
  items_of (item value rest) = value ∷ items_of rest

  unfoldable pub rows_of : Rows F → List (Table F)
  rows_of no_rows = []
  rows_of (row entries rest) = entries_of entries ∷ rows_of rest

  -- the type assertions on a value, and on a key of a table that may be missing
  unfoldable pub as_table : Option (Toml F) → Option (Table F)
  as_table (some (table entries)) = some (entries_of entries)
  as_table _ = none

  unfoldable pub as_text : Option (Toml F) → Option Text
  as_text (some (text s)) = some s
  as_text _ = none

  unfoldable pub as_bool : Option (Toml F) → Option Bool
  as_bool (some (boolean b)) = some b
  as_bool _ = none

  unfoldable pub as_items : Option (Toml F) → Option (List (Toml F))
  as_items (some (array items)) = some (items_of items)
  as_items _ = none

  unfoldable pub all_tables : List (Toml F) → Option (List (Table F))
  all_tables [] = some []
  all_tables (value ∷ rest) =
      let later = all_tables rest in
      elim (as_table (some value)) [
        | none ↦ none
        | some t ↦ elim later [ none ↦ none | some ts ↦ some (t ∷ ts) ]
      ]

  -- `asMaps`
  unfoldable pub as_maps : Option (Toml F) → Option (List (Table F))
  as_maps (some (tables rows)) = some (rows_of rows)
  as_maps (some (array items)) = all_tables (items_of items)
  as_maps _ = none

  -- whether `unknownKeys` lists any, and whether a required key is missing
  unfoldable pub has_unknown : Table F → List Text → Bool
  has_unknown t allowed = any (λ (e : Text × Toml F). not (mem e.0 allowed)) t

  unfoldable pub has_missing : Table F → List Text → Bool
  has_missing t required = any (λ key. not (is_some (lookup key t))) required

-- `toFloat`
unfoldable pub to_float : (fl : Floats) → Toml fl.F → Option fl.F
to_float fl (integer n) = some (fl.of_int n)
to_float fl (float x) = some x
to_float fl _ = none

-- How many bytes the white space at the head of a text has, none if it begins with none: `unicode.IsSpace`
-- in UTF-8.
unfoldable pub space_width : Text → ℕ
space_width [] = 0
space_width (a ∷ []) = if (leb 9 a && leb a 13) || eqb a 32 then 1 else 0
space_width (a ∷ b ∷ []) =
    if (leb 9 a && leb a 13) || eqb a 32
    then 1
    else if eqb a 194 && (eqb b 133 || eqb b 160)
    then 2
    else 0
space_width (a ∷ b ∷ c ∷ s) =
    if (leb 9 a && leb a 13) || eqb a 32
    then 1
    else if eqb a 194 && (eqb b 133 || eqb b 160)
    then 2
    else if eqb a 225 && (eqb b 154 && eqb c 128)
    then 3
    else if eqb a 226
        && (eqb b 128 && ((leb 128 c && leb c 138) || (eqb c 168 || (eqb c 169 || eqb c 175))))
    then 3
    else if eqb a 226 && (eqb b 129 && eqb c 159)
    then 3
    else if eqb a 227 && (eqb b 128 && eqb c 128)
    then 3
    else 0

-- `strings.TrimSpace(s) == ""`, past the bytes of a white space that has begun
unfoldable pub is_blank_from : ℕ → Text → Bool
is_blank_from left [] = true
is_blank_from left (a ∷ s) =
    let width = space_width (a ∷ s) in
    if ltb 0 left
    then is_blank_from (left - 1) s
    else if eqb width 0
    then false
    else is_blank_from (width - 1) s

unfoldable pub is_blank : Text → Bool
is_blank s = is_blank_from 0 s

-- `utf8.RuneCountInString`: every byte but those that continue a rune
unfoldable pub rune_count : Text → ℕ
rune_count [] = 0
rune_count (a ∷ s) = let rest = rune_count s in if leb 128 a && ltb a 192 then rest else rest + 1

abbrev op_lt : Text
op_lt = b'l' ∷ b't' ∷ []

abbrev op_gt : Text
op_gt = b'g' ∷ b't' ∷ []

abbrev op_ge : Text
op_ge = b'g' ∷ b'e' ∷ []

abbrev op_le : Text
op_le = b'l' ∷ b'e' ∷ []

abbrev op_eq : Text
op_eq = b'e' ∷ b'q' ∷ []

abbrev op_ne : Text
op_ne = b'n' ∷ b'e' ∷ []

abbrev op_is_true : Text
op_is_true = b'i' ∷ b's' ∷ b'_' ∷ b't' ∷ b'r' ∷ b'u' ∷ b'e' ∷ []

abbrev op_is_false : Text
op_is_false = b'i' ∷ b's' ∷ b'_' ∷ b'f' ∷ b'a' ∷ b'l' ∷ b's' ∷ b'e' ∷ []

abbrev op_absent_for : Text
op_absent_for = b'a' ∷ b'b' ∷ b's' ∷ b'e' ∷ b'n' ∷ b't' ∷ b'_' ∷ b'f' ∷ b'o' ∷ b'r' ∷ []

-- `Comparators`
unfoldable pub op_of : Text → Option Op
op_of s =
    if s == op_lt
    then some lt
    else if s == op_gt
    then some gt
    else if s == op_ge
    then some ge
    else if s == op_le
    then some le
    else if s == op_eq
    then some eq
    else if s == op_ne
    then some ne
    else if s == op_is_true
    then some is_true
    else if s == op_is_false
    then some is_false
    else if s == op_absent_for
    then some absent_for
    else none
