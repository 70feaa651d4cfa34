-- ===== src/Json.antt =====
-- `encoding/json`, as read-model-updater and stream-service use it: a raw message is the JSON value
-- that it spells (or nothing, for an empty one), and `Unmarshal` fills a flat struct from it.
use prism_plan.Shared.{
  ◌-◌, [], ◌∷◌, Option, none, some, Bool, ◌&&◌, Str, str_eq, ℤ, is_int64, leb, ◌==◌, if◌then◌else◌,
}

-- A number literal is an integer, or has a fraction or an exponent.
mutual
  pub data Json : Type 0 where
    null : Json
    boolean : Bool → Json
    integer : ℤ → Json
    fraction : Str → Json
    text : Str → Json
    array : Items → Json
    object : Members → Json

  pub data Items : Type 0 where
    last : Items
    item : Json → Items → Items

  pub data Members : Type 0 where
    end : Members
    member : Str → Json → Members → Members

abbrev pub Raw : Type 0
Raw = Option Json

-- Field names match without regard to case: letters in upper case, and the two letters outside ASCII
-- that fold to ASCII ones, U+017F to S and U+212A to K.
unfoldable pub fold_name : Str → Str
fold_name [] = []
fold_name (a ∷ []) = (if leb b'a' a && leb a b'z' then a - 32 else a) ∷ []
fold_name (a ∷ b ∷ []) =
    if a == 0xc5 && b == 0xbf
    then b'S' ∷ []
    else (if leb b'a' a && leb a b'z' then a - 32 else a) ∷ fold_name (b ∷ [])
fold_name (a ∷ b ∷ c ∷ s) =
    let rest = fold_name (b ∷ c ∷ s) in
    let after_two = fold_name (c ∷ s) in
    let after_three = fold_name s in
    if a == 0xc5 && b == 0xbf
    then b'S' ∷ after_two
    else if a == 0xe2 && (b == 0x84 && c == 0xaa)
    then b'K' ∷ after_three
    else (if leb b'a' a && leb a b'z' then a - 32 else a) ∷ rest

unfoldable pub is_field : Str → Str → Bool
unfolding fold_name
is_field name key = str_eq (fold_name name) (fold_name key)

-- One value into a field of each kind; nothing is a type error. `null` leaves a plain field alone and
-- empties a pointer.
unfoldable pub into_string : Json → Str → Option Str
into_string null old = some old
into_string (text s) old = some s
into_string _ old = none

unfoldable pub into_int : Json → ℤ → Option ℤ
into_int null old = some old
into_int (integer z) old = if is_int64 z then some z else none
into_int _ old = none

unfoldable pub into_bool : Json → Bool → Option Bool
into_bool null old = some old
into_bool (boolean b) old = some b
into_bool _ old = none

unfoldable pub into_string_pointer : Json → Option (Option Str)
into_string_pointer null = some none
into_string_pointer (text s) = some (some s)
into_string_pointer _ = none

unfoldable pub into_int_pointer : Json → Option (Option ℤ)
into_int_pointer null = some none
into_int_pointer (integer z) = if is_int64 z then some (some z) else none
into_int_pointer _ = none

unfoldable pub into_bool_pointer : Json → Option (Option Bool)
into_bool_pointer null = some none
into_bool_pointer (boolean b) = some (some b)
into_bool_pointer _ = none

-- The members in turn, each into the field that it names; a type error in any is an error of all.
unfoldable pub decode_members {ℓ} :
    {S : Type ℓ} → (Str → Json → S → Option S) → Members → S → Option S
decode_members assign end s = some s
decode_members assign (member key v ms) s = elim (assign key v s) [
  | none ↦ none
  | some s' ↦ decode_members assign ms s'
]

-- `json.Unmarshal` into a struct that starts at its zero value.
unfoldable pub unmarshal {ℓ} : {S : Type ℓ} → (Str → Json → S → Option S) → S → Raw → Option S
unfolding decode_members
unmarshal assign zero_value none = none
unmarshal assign zero_value (some (object ms)) = decode_members assign ms zero_value
unmarshal assign zero_value (some null) = some zero_value
unmarshal assign zero_value (some _) = none
