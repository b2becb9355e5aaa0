-- ===== src/Prelude/Slices.antt =====
-- Go's slices and string maps. Both may be nil, which `reflect.DeepEqual` tells from empty.
use Prim.Native.String.{String}
use mathlib.Core.Path.{◌≡◌, refl}
use mathlib.Core.Option
use mathlib.Core.Option.{Option, none, some}
use mathlib.Core.List.{List, [], ◌∷◌}
use native.Mathlib.Omega.{arith}
use text.Mathlib.Text.{◌==◌}
use text.Mathlib.TextEquality.{eq_iff}
use lumigo_kubernetes_operat.Prelude.Tests.{if◌then◌else◌}

-- A slice is nil or a list.
abbrev pub Slice {ℓ} : Type ℓ → Type ℓ
Slice A = Option (List A)

-- What `range` and `append` see of a slice.
abbrev pub items {ℓ} : {A : Type ℓ} → Slice A → List A
items none = []
items (some xs) = xs

-- A `map[string]string`, nil or a list of entries; the first entry of a key counts.
abbrev pub Labels : Type 0
Labels = Option (List (String × String))

unfoldable pub find_entry : String → List (String × String) → Option String
find_entry k [] = none
find_entry k ((j, v) ∷ l) = if j == k then some v else find_entry k l

unfoldable pub put_entry : String → String → List (String × String) → List (String × String)
put_entry k v [] = (k, v) ∷ []
put_entry k v ((j, w) ∷ l) = if j == k then (k, v) ∷ l else (j, w) ∷ put_entry k v l

unfoldable pub drop_entry : String → List (String × String) → List (String × String)
drop_entry k [] = []
drop_entry k ((j, v) ∷ l) = let rest = drop_entry k l in if j == k then rest else (j, v) ∷ rest

-- `v, ok := labels[k]`
unfoldable pub label : Labels → String → Option String
unfolding find_entry
label none k = none
label (some l) k = find_entry k l

-- `labels[k]`, the empty text where the key is missing
unfoldable pub label_or_empty : Labels → String → String
unfolding label
label_or_empty l k = Option.get_or (label l k) ""

-- `delete(labels, k)`
unfoldable pub delete_label : Labels → String → Labels
unfolding drop_entry
delete_label none k = none
delete_label (some l) k = some (drop_entry k l)

-- `labels[k] = v`; `none` is the panic at a nil map.
unfoldable pub assign_label : Labels → String → String → Option Labels
unfolding put_entry
assign_label none k v = none
assign_label (some l) k v = some (some (put_entry k v l))

pub find_entry-put_entry :
    (k j v : String) (l : List (String × String))
    → find_entry j (put_entry k v l) ≡ (if k == j then some v else find_entry j l)
unfolding find_entry put_entry
find_entry-put_entry k j v [] = refl
find_entry-put_entry k j v ((i, w) ∷ l) =
    ground (arith, eq_iff k j, eq_iff i k, eq_iff i j, find_entry-put_entry k j v l)

pub find_entry-drop_entry :
    (k j : String) (l : List (String × String))
    → find_entry j (drop_entry k l) ≡ (if k == j then none else find_entry j l)
unfolding find_entry drop_entry
find_entry-drop_entry k j [] = ground arith
find_entry-drop_entry k j ((i, w) ∷ l) =
    ground (arith, eq_iff k j, eq_iff i k, eq_iff i j, find_entry-drop_entry k j l)

pub label-delete_label :
    (k j : String) (l : Labels) → label (delete_label l k) j ≡ (if k == j then none else label l j)
unfolding label delete_label
label-delete_label k j none = ground arith
label-delete_label k j (some l) = find_entry-drop_entry k j l
