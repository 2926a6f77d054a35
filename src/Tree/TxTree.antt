-- ===== src/Tree/TxTree.antt =====
-- packages/ts-sdk/src/tree/txTree.ts. Of a transaction there are its id, its inputs and outputs, and
-- the cosigners in its first input's fields; the decoder of transactions is a parameter.
pub mod Valid
pub mod Amounts
use congenial_giggle.Common.{
  ℕ, zero, suc, ◌+◌, ◌-◌, Bool, true, false, ◌&&◌, ◌||◌, not, List, [], ◌∷◌, ◌++◌, Option, none,
  some, Result, ok, err, ltb, leb, ◌==◌, if◌then◌else◌, length,
}
use congenial_giggle.Common.Results.{◌>>=◌}
use congenial_giggle.Extension.Asset.Hex.{Text}
use congenial_giggle.Extension.Asset.Packet.{same_text}

pub record TxInput : Type 0 where
  pub txid : Option Text
  pub index : Option ℕ

pub record TxOutput : Type 0 where
  pub amount : Option ℕ
  pub script : Option (List ℕ)

pub record Transaction : Type 0 where
  pub id : Text
  pub inputs : List TxInput
  pub outputs : List TxOutput
  pub cosigners : List (List ℕ)

-- A node, and the map of its children by the output that each spends.
mutual
  pub data TxTree : Type 0 where
    node : Transaction → Children → TxTree

  pub data Children : Type 0 where
    no_more : Children
    child : ℕ → TxTree → Children → Children

pub data Error : Type 0 where
  wrong_number_of_inputs : ℕ → Error
  too_many_children : ℕ → Error
  index_out_of_bounds input_not_parent parent_without_amount : ℕ → Error
  wrong_sum : ℕ → ℕ → Error
  empty_chunks invalid_chunk no_root multiple_roots chunk_not_found : Error
  wrong_number_of_nodes : ℕ → ℕ → Error
  -- the recursion of `buildGraph` on a cycle
  stack_overflow : Error

abbrev pub root_of : TxTree → Transaction
root_of (node root children) = root

abbrev pub size : Children → ℕ
size no_more = 0
size (child index tree children) = suc (size children)

unfoldable mutual
  pub nb_of_nodes : TxTree → ℕ
  nb_of_nodes (node root children) = 1 + nb_of_child_nodes children

  pub nb_of_child_nodes : Children → ℕ
  nb_of_child_nodes no_more = 0
  nb_of_child_nodes (child index tree children) = nb_of_nodes tree + nb_of_child_nodes children

abbrev pub or_zero : Option ℕ → ℕ
or_zero none = 0
or_zero (some n) = n

-- `if (output?.amount) sum += output.amount`
abbrev pub sum_outputs : List TxOutput → ℕ
sum_outputs [] = 0
sum_outputs (o ∷ outputs) = or_zero o.amount + sum_outputs outputs

-- `getInput(i)`, `getOutput(i)`
abbrev pub get_elem {ℓ} : {A : Type ℓ} → List A → ℕ → Option A
get_elem [] i = none
get_elem (x ∷ xs) zero = some x
get_elem (x ∷ xs) (suc i) = get_elem xs i

-- `parentOutput?.amount`, 0 where there is none.
abbrev pub amount_at : List TxOutput → ℕ → ℕ
amount_at [] i = 0
amount_at (o ∷ outputs) zero = or_zero o.amount
amount_at (o ∷ outputs) (suc i) = amount_at outputs i

abbrev pub spends_output : Text → ℕ → TxInput → Bool
spends_output parent index input = elim input.txid [
  | none ↦ false
  | some txid ↦ elim input.index [ none ↦ false | some i ↦ same_text txid parent && i == index ]
]

-- Whether the first input spends an output of a transaction.
abbrev pub spends : Text → ℕ → List TxInput → Bool
spends parent index [] = false
spends parent index (input ∷ inputs) = spends_output parent index input

abbrev pub require : Bool → Error → Result Error (Unit {0})
require true e = ok tt
require false e = err e

-- The checks of one child after its own validation.
unfoldable pub validate_child : Transaction → ℕ → Transaction → Result Error (Unit {0})
validate_child parent index root =
    require (spends parent.id index root.inputs) (input_not_parent index) >>= λ _.
    require (ltb 0 (amount_at parent.outputs index)) (parent_without_amount index) >>= λ _.
    require (sum_outputs root.outputs == amount_at parent.outputs index)
      (wrong_sum (sum_outputs root.outputs) (amount_at parent.outputs index))

-- `children.size > nbOfOutputs - 1`, where without outputs the right side is -1.
abbrev pub fits : ℕ → ℕ → Bool
fits children outputs = ltb children outputs

unfoldable mutual
  pub validate : TxTree → Result Error (Unit {0})
  validate (node root children) =
      let valid_children = validate_children root children in
      require (length root.inputs == 1) (wrong_number_of_inputs (length root.inputs)) >>= λ _.
      require (fits (size children) (length root.outputs)) (too_many_children (size children))
      >>= λ _. valid_children

  pub validate_children : Transaction → Children → Result Error (Unit {0})
  validate_children parent no_more = ok tt
  validate_children parent (child index tree children) =
      let valid_tree = validate tree in
      let valid_rest = validate_children parent children in
      require (ltb index (length parent.outputs)) (index_out_of_bounds index) >>= λ _.
      valid_tree >>= λ _. validate_child parent index (root_of tree) >>= λ _. valid_rest

unfoldable mutual
  pub leaves : TxTree → List Transaction
  leaves (node root no_more) = root ∷ []
  leaves (node root (child index tree children)) = leaves tree ++ leaves_of children

  pub leaves_of : Children → List Transaction
  leaves_of no_more = []
  leaves_of (child index tree children) = leaves tree ++ leaves_of children

abbrev pub or_else {ℓ} : {A : Type ℓ} → Option A → Option A → Option A
or_else none other = other
or_else (some a) other = some a

unfoldable mutual
  pub find : Text → TxTree → Option TxTree
  find txid (node root children) =
      let below = find_in txid children in
      if same_text txid root.id then some (node root children) else below

  pub find_in : Text → Children → Option TxTree
  find_in txid no_more = none
  find_in txid (child index tree children) = or_else (find txid tree) (find_in txid children)

abbrev pub map_option {ℓ κ} : {A : Type ℓ} {B : Type κ} → (A → B) → Option A → Option B
map_option f none = none
map_option f (some a) = some (f a)

-- `update`: the tree after it, or `none` where it throws "tx not found".
unfoldable mutual
  pub update : Text → (Transaction → Transaction) → TxTree → Option TxTree
  update txid f (node root children) =
      let below = map_option (node root) (update_in txid f children) in
      if same_text txid root.id then some (node (f root) children) else below

  pub update_in : Text → (Transaction → Transaction) → Children → Option Children
  update_in txid f no_more = none
  update_in txid f (child index tree children) =
      or_else (map_option (λ t. child index t children) (update txid f tree))
        (map_option (child index tree) (update_in txid f children))

-- The children before their parent.
unfoldable mutual
  pub iterator : TxTree → List TxTree
  iterator (node root children) = iterator_of children ++ (node root children ∷ [])

  pub iterator_of : Children → List TxTree
  iterator_of no_more = []
  iterator_of (child index tree children) = iterator tree ++ iterator_of children
