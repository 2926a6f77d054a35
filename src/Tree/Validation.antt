-- ===== src/Tree/Validation.antt =====
-- packages/ts-sdk/src/tree/validation.ts: the checks of a batch before its trees are signed. The
-- decoder of transactions and the functions of musig2 are parameters.
pub mod Laws
use congenial_giggle.Common.{
  ℕ, ◌+◌, Bool, true, false, List, [], ◌∷◌, Option, none, some, Result, ok, err, ltb, leb, ◌==◌,
  if◌then◌else◌, length, is_empty, drop,
}
use congenial_giggle.Common.Results.{◌>>=◌}
use congenial_giggle.Extension.Asset.Hex.{Text}
use congenial_giggle.Extension.Asset.Packet.{same_text}
use congenial_giggle.Musig2.{Musig, AggregateKey, aggregate_keys}
use congenial_giggle.Tree.TxTree
use congenial_giggle.Tree.TxTree.{
  TxInput, TxOutput, Transaction, TxTree, node, Children, no_more, child, root_of, sum_outputs,
  amount_at, get_elem, spends, validate, leaves, iterator,
}

pub data Error : Type 0 where
  invalid_tree : TxTree.Error → Error
  number_of_inputs wrong_settlement_txid invalid_settlement_tx_outputs : Error
  invalid_amount no_leaves invalid_taproot_script invalid_round_tx_outputs : Error
  wrong_commitment_txid missing_cosigners_public_keys : Error
  parent_output_not_found invalid_script : ℕ → Error
  -- thrown by the packages: no such input, a transaction or a key that does not decode
  no_input not_a_transaction not_a_key : Error

abbrev pub require : Bool → Error → Result Error (Unit {0})
require true e = ok tt
require false e = err e

-- `tree.validate()`
abbrev pub valid_tree : Result TxTree.Error (Unit {0}) → Result Error (Unit {0})
valid_tree (ok u) = ok tt
valid_tree (err e) = err (invalid_tree e)

-- `getInput(0)`, and whether it spends the output.
abbrev pub spends_or : Text → ℕ → List TxInput → Error → Result Error (Unit {0})
spends_or txid index [] e = err no_input
spends_or txid index (input ∷ inputs) e = require (spends txid index (input ∷ inputs)) e

abbrev pub decoded :
    Option Transaction → (Transaction → Result Error (Unit {0})) → Result Error (Unit {0})
decoded none next = err not_a_transaction
decoded (some tx) next = next tx

unfoldable pub validate_connectors_tx_graph :
    (Text → Option Transaction) → Text → TxTree → Result Error (Unit {0})
validate_connectors_tx_graph from_psbt settlement_tx_b64 connectors_graph =
    let root = root_of connectors_graph in
    valid_tree (validate connectors_graph) >>= λ _.
    require (length root.inputs == 1) number_of_inputs >>= λ _.
    decoded (from_psbt settlement_tx_b64) λ settlement_tx.
      require (ltb 1 (length settlement_tx.outputs)) invalid_settlement_tx_outputs >>= λ _.
      spends_or settlement_tx.id 1 root.inputs wrong_settlement_txid

-- The last test of a child: the aggregated key of its cosigners is the key of the output.
abbrev pub check_final_key : Option AggregateKey → List ℕ → Result Error (Unit {0})
check_final_key none key = err not_a_key
check_final_key (some a) key = require (same_text (drop 1 a.final_key) key) invalid_taproot_script

abbrev pub check_script :
    Musig → List ℕ → ℕ → Option (List ℕ) → List (List ℕ) → Result Error (Unit {0})
check_script m sweep_root index none cosigners = err (parent_output_not_found index)
check_script m sweep_root index (some script) cosigners =
    require (length (drop 2 script) == 32) (invalid_script index) >>= λ _.
    if is_empty cosigners
    then err missing_cosigners_public_keys
    else check_final_key (aggregate_keys m cosigners true (some sweep_root)) (drop 2 script)

abbrev pub script_of : Option TxOutput → Option (List ℕ)
script_of none = none
script_of (some o) = o.script

-- The inner loop, over the children of a node.
unfoldable pub check_children : Musig → List ℕ → Transaction → Children → Result Error (Unit {0})
check_children m sweep_root root no_more = ok tt
check_children m sweep_root root (child index tree children) =
    let rest = check_children m sweep_root root children in
    check_script m sweep_root index (script_of (get_elem root.outputs index))
      (root_of tree).cosigners
    >>= λ _. rest

abbrev pub check_node : Musig → List ℕ → TxTree → Result Error (Unit {0})
check_node m sweep_root (node root children) = check_children m sweep_root root children

-- The outer loop, over what `iterator` yields.
unfoldable pub check_nodes : Musig → List ℕ → List TxTree → Result Error (Unit {0})
check_nodes m sweep_root [] = ok tt
check_nodes m sweep_root (t ∷ trees) =
    let rest = check_nodes m sweep_root trees in check_node m sweep_root t >>= λ _. rest

unfoldable pub validate_vtxo_tx_graph :
    Musig → TxTree → Transaction → List ℕ → Result Error (Unit {0})
validate_vtxo_tx_graph m graph round_transaction sweep_root =
    let root = root_of graph in
    let batch_amount = amount_at round_transaction.outputs 0 in
    require (leb 1 (length round_transaction.outputs)) invalid_round_tx_outputs >>= λ _.
    require (ltb 0 batch_amount) invalid_round_tx_outputs >>= λ _.
    spends_or round_transaction.id 0 root.inputs wrong_commitment_txid >>= λ _.
    require (sum_outputs root.outputs == batch_amount) invalid_amount >>= λ _.
    require (ltb 0 (length (leaves graph))) no_leaves >>= λ _.
    valid_tree (validate graph) >>= λ _. check_nodes m sweep_root (iterator graph)
