-- ===== src/Tree/TxTree/Amounts.antt =====
-- The amounts of a tree: what its transactions leave unspent, against the outputs of its root.
use congenial_giggle.Common.{
  ℕ, zero, suc, ◌+◌, ◌<◌, ◌≡◌, refl, arith, Bool, false, ◌||◌, List, [], ◌∷◌, ◌==◌, if◌then◌else◌,
}
use congenial_giggle.Tree.TxTree.{
  TxOutput, Transaction, TxTree, node, Children, no_more, child, root_of, or_zero, sum_outputs,
  amount_at,
}
use congenial_giggle.Tree.TxTree.Valid.{IsValid, valid_node, AreValid, valid_child}

-- Whether a child stands under the output.
abbrev pub has_child : Children → ℕ → Bool
has_child no_more i = false
has_child (child index tree children) i = index == i || has_child children i

-- The amounts of the outputs, from the index on, under which no child stands.
abbrev pub unspent_outputs : Children → ℕ → List TxOutput → ℕ
unspent_outputs children i [] = 0
unspent_outputs children i (o ∷ outputs) =
    (if has_child children i then 0 else or_zero o.amount)
    + unspent_outputs children (suc i) outputs

-- The amounts of the outputs that no transaction of the tree spends.
mutual
  pub unspent : TxTree → ℕ
  unspent (node root children) = unspent_outputs children 0 root.outputs + unspent_in children

  pub unspent_in : Children → ℕ
  unspent_in no_more = 0
  unspent_in (child index tree children) = unspent tree + unspent_in children

-- The keys of each node's map differ.
abbrev mutual
  pub HasMaps : TxTree → Type 0
  HasMaps (node root children) = AreMaps children

  pub AreMaps : Children → Type 0
  AreMaps no_more = Unit {0}
  AreMaps (child index tree children) =
      (has_child children index ≡ false) × HasMaps tree × AreMaps children

-- The amounts of the outputs under which the children stand.
abbrev spent_amounts : Transaction → Children → ℕ
spent_amounts parent no_more = 0
spent_amounts parent (child index tree children) =
    amount_at parent.outputs index + spent_amounts parent children

unspent_outputs-no_more :
    (i : ℕ) (outputs : List TxOutput) → unspent_outputs no_more i outputs ≡ sum_outputs outputs
unspent_outputs-no_more i [] = refl
unspent_outputs-no_more i (o ∷ outputs) = omega (arith, unspent_outputs-no_more (suc i) outputs)

-- A child under an output before the list changes nothing in it.
unspent_outputs-before :
    (index : ℕ) (tree : TxTree) (children : Children) (i : ℕ) (outputs : List TxOutput)
    → index < i
    → unspent_outputs (child index tree children) i outputs ≡ unspent_outputs children i outputs
unspent_outputs-before index tree children i [] h = refl
unspent_outputs-before index tree children i (o ∷ outputs) h =
    ground (arith, unspent_outputs-before index tree children (suc i) outputs)

-- One more child takes the amount of its output.
unspent_outputs-child :
    (index : ℕ) (tree : TxTree) (children : Children) (i k : ℕ) (outputs : List TxOutput)
    → has_child children index ≡ false
    → index ≡ i + k
    → unspent_outputs (child index tree children) i outputs + amount_at outputs k
      ≡ unspent_outputs children i outputs
unspent_outputs-child index tree children i k [] h e = refl
unspent_outputs-child index tree children i zero (o ∷ outputs) h e =
    ground (arith, unspent_outputs-before index tree children (suc i) outputs)
unspent_outputs-child index tree children i (suc k) (o ∷ outputs) h e =
    ground (arith, unspent_outputs-child index tree children (suc i) k outputs)

unspent_outputs-spent :
    (parent : Transaction) (children : Children)
    → AreMaps children
    → unspent_outputs children 0 parent.outputs + spent_amounts parent children
      ≡ sum_outputs parent.outputs
unspent_outputs-spent parent no_more h = omega (arith, unspent_outputs-no_more 0 parent.outputs)
unspent_outputs-spent parent (child index tree children) (new, maps, rest) = omega (
  arith,
  unspent_outputs-child index tree children 0 index parent.outputs new (omega arith),
  unspent_outputs-spent parent children rest,
)

mutual
  unfolding unspent

  unspent-eq :
      (tree : TxTree)
      → IsValid tree
      → HasMaps tree
      → unspent tree ≡ sum_outputs (root_of tree).outputs
  unspent-eq (node root children) (valid_node one few valid) maps =
      omega
        (arith, unspent_in-eq root children valid maps, unspent_outputs-spent root children maps)

  unspent_in-eq :
      (parent : Transaction) (children : Children)
      → AreValid parent children
      → AreMaps children
      → unspent_in children ≡ spent_amounts parent children
  unspent_in-eq parent no_more valid maps = refl
  unspent_in-eq parent (child index tree children) (valid_child valid is_child rest)
        (new, of_tree, of_rest) =
      omega (
        arith,
        unspent-eq tree valid of_tree,
        is_child.balanced,
        unspent_in-eq parent children rest of_rest,
      )

-- In a valid tree whose nodes list each output once, the outputs that no transaction spends have
-- the amount of the root's outputs.
pub unspent_lem :
    (tree : TxTree)
    → IsValid tree
    → HasMaps tree
    → unspent tree ≡ sum_outputs (root_of tree).outputs
unspent_lem tree valid maps = unspent-eq tree valid maps
