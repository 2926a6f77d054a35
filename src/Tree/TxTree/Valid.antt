-- ===== src/Tree/TxTree/Valid.antt =====
-- Which trees `validate` accepts.
use congenial_giggle.Common.{ℕ, ◌<◌, ◌≡◌, refl, ◌↔◌, arith, true, ok, ltb, length}
use congenial_giggle.Tree.TxTree.{
  Transaction, TxTree, node, Children, no_more, child, root_of, size, sum_outputs, amount_at,
  spends, validate_child, validate, validate_children,
}

-- The child spends the output, which has an amount, and its own outputs add up to that.
pub record IsChild (parent : Transaction) (index : ℕ) (root : Transaction) : Type 0 where
  pub in_bounds : index < length parent.outputs
  pub spending : spends parent.id index root.inputs ≡ true
  pub positive : 0 < amount_at parent.outputs index
  pub balanced : sum_outputs root.outputs ≡ amount_at parent.outputs index

-- Every node has one input and fewer children than outputs, and every child spends its parent.
mutual
  pub data IsValid : TxTree → Type 0 where
    valid_node :
        {root : Transaction} {children : Children}
        → length root.inputs ≡ 1
        → size children < length root.outputs
        → AreValid root children
        → IsValid (node root children)

  pub data AreValid : Transaction → Children → Type 0 where
    valid_none : {parent : Transaction} → AreValid parent no_more
    valid_child :
        {parent : Transaction} {index : ℕ} {tree : TxTree} {children : Children}
        → IsValid tree
        → IsChild parent index (root_of tree)
        → AreValid parent children
        → AreValid parent (child index tree children)

validate_child_iff :
    (parent : Transaction) (index : ℕ) (root : Transaction)
    → ((ltb index (length parent.outputs) ≡ true) × (validate_child parent index root ≡ ok tt))
      ↔ IsChild parent index root
unfolding validate_child
validate_child_iff parent index root = ground arith

mutual
  unfolding validate

  validate-IsValid : (tree : TxTree) → validate tree ≡ ok tt → IsValid tree
  validate-IsValid (node root children) h =
      valid_node (ground arith) (ground arith)
        (validate_children-IsValid root children (ground arith))

  validate_children-IsValid :
      (parent : Transaction) (children : Children)
      → validate_children parent children ≡ ok tt
      → AreValid parent children
  validate_children-IsValid parent no_more h = valid_none
  validate_children-IsValid parent (child index tree children) h =
      let c : (ltb index (length parent.outputs) ≡ true)
          × (validate_child parent index (root_of tree) ≡ ok tt) =
        ground arith in
      valid_child (validate-IsValid tree (ground arith))
        ((validate_child_iff parent index (root_of tree)).0 c)
        (validate_children-IsValid parent children (ground arith))

mutual
  unfolding validate

  validate-ok : {tree : TxTree} → IsValid tree → validate tree ≡ ok tt
  validate-ok (valid_node {root} {children} one few valid) =
      ground (arith, validate_children-ok valid)

  validate_children-ok :
      {parent : Transaction} {children : Children}
      → AreValid parent children
      → validate_children parent children ≡ ok tt
  validate_children-ok valid_none = refl
  validate_children-ok (valid_child {parent} {index} {tree} {children} valid is_child rest) =
      ground (
        arith,
        validate-ok valid,
        validate_children-ok rest,
        (validate_child_iff parent index (root_of tree)).1 is_child,
      )

-- `validate` accepts exactly the trees in which every node has one input and fewer children than
-- outputs, and every child spends the output that it stands under, which has an amount, with
-- outputs of that amount together.
pub validate_iff : (tree : TxTree) → (validate tree ≡ ok tt) ↔ IsValid tree
validate_iff tree = (validate-IsValid tree, λ valid. validate-ok valid)
