-- ===== src/Chain/Store.antt =====
-- A key-value store of the SDK: byte strings to byte strings, iterated in the order of the keys.
use bignftd.Base.{
  Text, ◌≡◌, ◌≢◌, refl, Option, none, some, List, [], ◌∷◌, arith, text_eq, text_lt, text_eq_iff,
  text_eq_ne, text_eq_refl, strip_prefix, if◌then◌else◌,
}

abbrev pub Store : Type 0
Store = List (Text × Text)

unfoldable pub get : Text → Store → Option Text
get k [] = none
get k ((j, v) ∷ m) = if text_eq j k then some v else get k m

unfoldable pub set : Text → Text → Store → Store
set k v [] = (k, v) ∷ []
set k v ((j, w) ∷ m) =
    if text_eq j k
    then (k, v) ∷ m
    else if text_lt k j
    then (k, v) ∷ (j, w) ∷ m
    else (j, w) ∷ set k v m

-- An entry of a store, with the prefix off its key, in front of others; no entry if it has not
-- the prefix.
abbrev pub view_entry : Option Text → Text → Store → Store
view_entry none v rest = rest
view_entry (some k) v rest = (k, v) ∷ rest

-- `prefix.NewStore(store, p).Iterator(nil, nil)`: the entries below a prefix, which is cut off.
unfoldable pub entries : Text → Store → Store
entries p [] = []
entries p ((j, v) ∷ m) = view_entry (strip_prefix p j) v (entries p m)

pub get-set :
    (k j v : Text) (m : Store) → get j (set k v m) ≡ (if text_eq k j then some v else get j m)
unfolding get set
get-set k j v [] = refl
get-set k j v ((i, w) ∷ m) =
    ground (arith, text_eq_iff i k, text_eq_iff i j, text_eq_iff k j, get-set k j v m)

pub get-set_self : (k v : Text) (m : Store) → get k (set k v m) ≡ some v
get-set_self k v m = ground (arith, get-set k k v m, text_eq_refl k)

pub get-set_ne : (k j v : Text) (m : Store) → k ≢ j → get j (set k v m) ≡ get j m
get-set_ne k j v m h = ground (arith, get-set k j v m, text_eq_ne k j h)
