-- ===== src/Contracts/Handlers/Vhtlc/Laws.antt =====
-- How the three ways to ask for paths agree.
use congenial_giggle.Common.{◌≡◌, ◌⊎◌, arith, List, [], ◌∷◌, Option, none, some, ok}
use congenial_giggle.Extension.Asset.Hex.{Hex}
use congenial_giggle.Contracts.Handlers.{Bip68, PathContext, Params}
use congenial_giggle.Contracts.Handlers.Vhtlc.{
  PathSelection, all_paths, get_all_spending_paths, spendable_collaborative, spendable_unilateral,
  get_spendable_paths,
}

abbrev pub to_list {ℓ} : {A : Type ℓ} → Option A → List A
to_list none = []
to_list (some a) = a ∷ []

module _ (hex : Hex) (bip68 : Bip68) (params : Params) (context : PathContext) where
  -- Every path that is spendable is among those that are listed without a look at the timelocks, as
  -- long as none of the calls throws.
  pub spendable-all :
      (spendable every : List PathSelection)
      → get_spendable_paths hex bip68 params context ≡ ok spendable
      → get_all_spending_paths hex bip68 params context ≡ ok every
      → (spendable ≡ []) ⊎ (spendable ≡ every)
  unfolding get_spendable_paths get_all_spending_paths spendable_collaborative spendable_unilateral
      all_paths
  spendable-all spendable every e h = grind arith
