-- ===== src/Inventory/Maps.antt =====
-- A `Map` with text keys as an association list in insertion order, and a `Set` of texts.
use cullen.Prelude.{◌≡◌, refl, Option, none, some, List, [], ◌∷◌, any, push, arith, if◌then◌else◌}
use cullen.Prelude.Text.{Text, eqb, eqb→eq, eqb_refl}

-- `Map.prototype.get`
unfoldable pub map_get {ℓ} : {A : Type ℓ} → Text → List (Text × A) → Option A
map_get k [] = none
map_get k ((j, v) ∷ es) = if eqb j k then some v else map_get k es

-- `Map.prototype.set`
unfoldable pub map_set {ℓ} : {A : Type ℓ} → Text → A → List (Text × A) → List (Text × A)
map_set k v [] = (k, v) ∷ []
map_set k v ((j, w) ∷ es) = if eqb j k then (j, v) ∷ es else (j, w) ∷ map_set k v es

-- `Set.prototype.add`
unfoldable pub set_add : Text → List Text → List Text
set_add x xs = if any (eqb x) xs then xs else push xs x

pub get-set {ℓ} :
    {A : Type ℓ} (k j : Text) (v : A) (es : List (Text × A))
    → map_get k (map_set j v es) ≡ (if eqb j k then some v else map_get k es)
unfolding map_get map_set
get-set k j v [] = refl
get-set k j v ((i, w) ∷ es) =
    ground (arith, get-set k j v es, eqb→eq i j, eqb→eq i k, eqb→eq j k, eqb_refl i)
