-- ===== src/Tree/Validation/Laws.antt =====
-- What the checks of a batch ensure.
use congenial_giggle.Common.{
  ℕ, ◌<◌, ◌≡◌, refl, arith, true, false, List, [], ◌∷◌, ◌++◌, Option, none, some, Result, ok, err,
  ltb, length, is_empty, drop,
}
use congenial_giggle.Common.Results.{◌>>=◌}
use congenial_giggle.Extension.Asset.Hex.{Text}
use congenial_giggle.Extension.Asset.Packet.Laws.{same_text_iff}
use congenial_giggle.Musig2.{Musig, AggregateKey, aggregate_keys}
use congenial_giggle.Tree.TxTree
use congenial_giggle.Tree.TxTree.{
  TxInput, Transaction, TxTree, node, Children, no_more, child, root_of, sum_outputs, amount_at,
  get_elem, spends, validate, leaves, leaves_of, iterator, iterator_of,
}
use congenial_giggle.Tree.TxTree.Valid.{IsValid, validate_iff}
use congenial_giggle.Tree.TxTree.Amounts.{unspent, unspent_lem, HasMaps}
use congenial_giggle.Tree.Validation.{
  Error, wrong_commitment_txid, wrong_settlement_txid, invalid_settlement_tx_outputs, require,
  spends_or, valid_tree, decoded, check_final_key, check_script, script_of, check_children,
  check_nodes, validate_vtxo_tx_graph, validate_connectors_tx_graph,
}

-- A transaction spends one output, and its own outputs together have the amount.
pub record IsBatch (commitment : Transaction) (index : ℕ) (tree : TxTree) : Type 0 where
  pub has_output : index < length commitment.outputs
  pub spending : spends commitment.id index (root_of tree).inputs ≡ true
  pub valid : IsValid tree

spends_or-ok :
    (txid : Text) (index : ℕ) (inputs : List TxInput) (e : Error)
    → spends_or txid index inputs e ≡ ok tt
    → spends txid index inputs ≡ true
spends_or-ok txid index [] e h = cc
spends_or-ok txid index (input ∷ inputs) e h = ground arith

valid_tree-ok :
    (tree : TxTree) (r : Result TxTree.Error (Unit {0}))
    → validate tree ≡ r
    → valid_tree r ≡ ok tt
    → IsValid tree
valid_tree-ok tree (ok tt) e h = (validate_iff tree).0 e
valid_tree-ok tree (err x) e h = absurd (cc)

settlement-IsBatch :
    (graph : TxTree) (o : Option Transaction)
    → IsValid graph
    → decoded o (λ tx. require (ltb 1 (length tx.outputs)) invalid_settlement_tx_outputs >>= λ _.
        spends_or tx.id 1 (root_of graph).inputs wrong_settlement_txid)
      ≡ ok tt
    → (tx : Transaction) × (o ≡ some tx) × IsBatch tx 1 graph
settlement-IsBatch graph none valid h = absurd (cc)
settlement-IsBatch graph (some tx) valid h = (
  tx,
  refl,
  record {
    has_output = ground arith;
    spending = spends_or-ok tx.id 1 (root_of graph).inputs wrong_settlement_txid (ground arith);
    valid = valid;
  },
)

-- A graph of connectors that the check accepts spends the second output of the settlement
-- transaction, which decodes, and is valid.
pub validate_connectors_tx_graph-IsBatch :
    (from_psbt : Text → Option Transaction) (settlement_tx_b64 : Text) (graph : TxTree)
    → validate_connectors_tx_graph from_psbt settlement_tx_b64 graph ≡ ok tt
    → (tx : Transaction) × (from_psbt settlement_tx_b64 ≡ some tx) × IsBatch tx 1 graph
unfolding validate_connectors_tx_graph
validate_connectors_tx_graph-IsBatch from_psbt settlement_tx_b64 graph h =
    settlement-IsBatch graph _ (valid_tree-ok graph (validate graph) refl (ground arith))
      (ground arith)

module _ (m : Musig) (sweep_root : List ℕ) where
  -- The output is a taproot output of the cosigners' key with the sweep script beside it.
  pub record IsSigned (parent : Transaction) (index : ℕ) (root : Transaction) : Type 0 where
    pub script : List ℕ
    pub aggregate : AggregateKey
    pub of_output : script_of (get_elem parent.outputs index) ≡ some script
    pub cosigned : is_empty root.cosigners ≡ false
    pub aggregated : aggregate_keys m root.cosigners true (some sweep_root) ≡ some aggregate
    pub key_size : length (drop 2 script) ≡ 32
    pub same_key : drop 1 aggregate.final_key ≡ drop 2 script

  -- So at every child of the tree.
  abbrev mutual
    pub AreSigned : TxTree → Type 0
    AreSigned (node root children) = ChildrenAreSigned root children

    pub ChildrenAreSigned : Transaction → Children → Type 0
    ChildrenAreSigned parent no_more = Unit {0}
    ChildrenAreSigned parent (child index tree children) =
        IsSigned parent index (root_of tree) × AreSigned tree × ChildrenAreSigned parent children

  check_final_key-IsSigned :
      (parent : Transaction) (index : ℕ) (root : Transaction) (script : List ℕ)
      (a : Option AggregateKey)
      → script_of (get_elem parent.outputs index) ≡ some script
      → is_empty root.cosigners ≡ false
      → length (drop 2 script) ≡ 32
      → aggregate_keys m root.cosigners true (some sweep_root) ≡ a
      → check_final_key a (drop 2 script) ≡ ok tt
      → IsSigned parent index root
  check_final_key-IsSigned parent index root script none of_output cosigned key_size e h =
      absurd (cc)
  check_final_key-IsSigned parent index root script (some a) of_output cosigned key_size e h =
      record {
        script = script;
        aggregate = a;
        of_output = of_output;
        cosigned = cosigned;
        aggregated = e;
        key_size = key_size;
        same_key = ground (arith, same_text_iff (drop 1 a.final_key) (drop 2 script));
      }

  check_script-IsSigned :
      (parent : Transaction) (index : ℕ) (root : Transaction) (o : Option (List ℕ))
      → script_of (get_elem parent.outputs index) ≡ o
      → check_script m sweep_root index o root.cosigners ≡ ok tt
      → IsSigned parent index root
  check_script-IsSigned parent index root none e h = absurd (cc)
  check_script-IsSigned parent index root (some script) e h =
      check_final_key-IsSigned parent index root script _ e (ground arith) (ground arith) refl
        (ground arith)

  check_nodes-append :
      (s t : List TxTree)
      → check_nodes m sweep_root (s ++ t) ≡ ok tt
      → (check_nodes m sweep_root s ≡ ok tt) × (check_nodes m sweep_root t ≡ ok tt)
  unfolding check_nodes
  check_nodes-append [] t h = (refl, h)
  check_nodes-append (x ∷ s) t h = ground (arith, check_nodes-append s t)

  mutual
    unfolding iterator check_nodes check_children

    iterator-AreSigned :
        (tree : TxTree) → check_nodes m sweep_root (iterator tree) ≡ ok tt → AreSigned tree
    iterator-AreSigned (node root children) h =
        let (below, here) = check_nodes-append (iterator_of children) (node root children ∷ []) h in
        iterator_of-AreSigned root children below (ground arith)

    iterator_of-AreSigned :
        (parent : Transaction) (children : Children)
        → check_nodes m sweep_root (iterator_of children) ≡ ok tt
        → check_children m sweep_root parent children ≡ ok tt
        → ChildrenAreSigned parent children
    iterator_of-AreSigned parent no_more h k = tt
    iterator_of-AreSigned parent (child index tree children) h k =
        let (of_tree, of_rest) = check_nodes-append (iterator tree) (iterator_of children) h in
        (
          check_script-IsSigned parent index (root_of tree) _ refl (ground arith),
          iterator-AreSigned tree of_tree,
          iterator_of-AreSigned parent children of_rest (ground arith),
        )

  -- A graph of virtual outputs that the checks accept spends the first output of the commitment
  -- transaction and is valid, and each of its transactions below the root spends an output of the
  -- key that its cosigners aggregate to, tweaked with the sweep script.
  pub validate_vtxo_tx_graph-IsBatch :
      (graph : TxTree) (round_transaction : Transaction)
      → validate_vtxo_tx_graph m graph round_transaction sweep_root ≡ ok tt
      → IsBatch round_transaction 0 graph × AreSigned graph
  unfolding validate_vtxo_tx_graph
  validate_vtxo_tx_graph-IsBatch graph round_transaction h = (
    record {
      has_output = ground arith;
      spending =
          spends_or-ok round_transaction.id 0 (root_of graph).inputs wrong_commitment_txid
            (ground arith);
      valid = valid_tree-ok graph (validate graph) refl (ground arith);
    },
    iterator-AreSigned graph (ground arith),
  )

  -- The outputs of an accepted graph of virtual outputs that none of its transactions spends have
  -- together the amount of the first output of the commitment transaction, which is not zero, where
  -- the map of each node lists an output once, as a JavaScript `Map` does.
  pub unspent-validate_vtxo_tx_graph :
      (graph : TxTree) (round_transaction : Transaction)
      → validate_vtxo_tx_graph m graph round_transaction sweep_root ≡ ok tt
      → HasMaps graph
      → (unspent graph ≡ amount_at round_transaction.outputs 0) × (0 < unspent graph)
  unfolding validate_vtxo_tx_graph
  unspent-validate_vtxo_tx_graph graph round_transaction h maps =
      let valid : IsValid graph = valid_tree-ok graph (validate graph) refl (ground arith) in
      let balanced = unspent_lem graph valid maps in (ground arith, ground arith)
