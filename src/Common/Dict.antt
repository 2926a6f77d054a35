-- ===== src/Common/Dict.antt =====
-- A JavaScript `Map`: its entries in the order of their insertion. A `Set` is the list of its items.
use congenial_giggle.Common.{
  Bool, true, false, List, [], ◌∷◌, Option, none, some, if◌then◌else◌, map,
}

abbrev pub Dict : Type 0 → Type 0 → Type 0
Dict K V = List (K × V)

module _ {K : Type 0} (eq : K → K → Bool) where
  -- `set.add(k)`
  abbrev pub has_item : K → List K → Bool
  has_item k [] = false
  has_item k (j ∷ items) = let rest = has_item k items in if eq k j then true else rest

  abbrev pub add_item : K → List K → List K
  add_item k items = if has_item k items then items else k ∷ items

  -- `set.delete(k)`
  abbrev pub delete_item : K → List K → List K
  delete_item k [] = []
  delete_item k (j ∷ items) = let rest = delete_item k items in if eq k j then rest else j ∷ rest

module _ {K V : Type 0} (eq : K → K → Bool) where
  -- `map.get(k)`
  abbrev pub get : K → Dict K V → Option V
  get k [] = none
  get k ((j, v) ∷ d) = let rest = get k d in if eq k j then some v else rest

  -- `map.set(k, v)`
  abbrev pub set : K → V → Dict K V → Dict K V
  set k v [] = (k, v) ∷ []
  set k v ((j, w) ∷ d) = let rest = set k v d in if eq k j then (j, v) ∷ d else (j, w) ∷ rest

  -- `map.delete(k)`
  abbrev pub delete : K → Dict K V → Dict K V
  delete k [] = []
  delete k ((j, v) ∷ d) = let rest = delete k d in if eq k j then rest else (j, v) ∷ rest

module _ {K V : Type 0} where
  abbrev pub keys : Dict K V → List K
  keys d = map (λ e. e.0) d

  abbrev pub values : Dict K V → List V
  values d = map (λ e. e.1) d
