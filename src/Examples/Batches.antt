-- ===== src/Examples/Batches.antt =====
-- Batches, addresses and ramps: the theorems at concrete inputs.
use congenial_giggle.Common.{
  ◌<◌, ℕ, ◌+◌, ◌≡◌, ◌≢◌, refl, ◌↔◌, arith, true, false, List, [], ◌∷◌, ◌++◌, Option, none, some, ok,
  length, bind, take, drop, take-append, drop-append, ltb, ◌==◌, if◌then◌else◌,
}
use congenial_giggle.Common.Results.{◌>>=◌}
use congenial_giggle.Common.Int.{ℤ, pos, ◌+ℤ◌, ◌-ℤ◌}
use congenial_giggle.Extension.Asset.Hex.{Text}
use congenial_giggle.Extension.Asset.Packet.{same_text}
use congenial_giggle.Extension.Script.{ScriptEncoder}
use congenial_giggle.Examples.Codecs.{hex, decoder}
use congenial_giggle.Musig2.{Musig, aggregate_keys}
use congenial_giggle.Scripts.Address
use congenial_giggle.Scripts.Address.{
  Bech32m, ArkAddress, IsAddress, new, of_data, encode, decode, pk_script,
}
use congenial_giggle.Tree.TxTree.{
  TxInput, TxOutput, Transaction, TxTree, node, no_more, child, amount_at, validate, validate_child,
  leaves, iterator,
}
use congenial_giggle.Tree.TxTree.Valid.{IsValid, validate_iff}
use congenial_giggle.Tree.TxTree.Amounts.{unspent}
use congenial_giggle.Tree.Validation.{
  check_nodes, check_children, validate_vtxo_tx_graph, validate_connectors_tx_graph,
}
use congenial_giggle.Tree.Validation.Laws as BatchLaws
use congenial_giggle.Arkfee.{
  Floats, Estimator, satoshis, input_to_args, output_to_args, eval_onchain_input,
  eval_offchain_input, eval_offchain_output, eval_onchain_output,
}
use congenial_giggle.Wallet.Ramps.{
  ExtendedCoin, ExtendedVirtualCoin, SettleParams, onboard, offboard, boarding_fee, vtxo_fee,
  onboard_fee, offboard_fee, total_amount, amount_or, filter_paying, change_of, destination_script,
  network_names,
}
use congenial_giggle.Wallet.Ramps.Laws as RampLaws
use congenial_giggle.Wallet.Validation.{
  Recipient, validate_recipients, validate_offchain_recipient, validate_onchain_recipient,
  find_leaf, find_output, validate_batch_recipients,
}
use congenial_giggle.Wallet.Validation.Laws as RecipientLaws

abbrev key : List ℕ
key =
    1 ∷ 2 ∷ 3 ∷ 4 ∷ 5 ∷ 6 ∷ 7 ∷ 8 ∷ 9 ∷ 10 ∷ 11 ∷ 12 ∷ 13 ∷ 14 ∷ 15 ∷ 16 ∷ 17 ∷ 18 ∷ 19 ∷ 20 ∷ 21
    ∷ 22 ∷ 23 ∷ 24 ∷ 25 ∷ 26 ∷ 27 ∷ 28 ∷ 29 ∷ 30 ∷ 31 ∷ 32 ∷ []

-- The data of a script as 0x51 0x20 and the key.
abbrev encoder : ScriptEncoder
encoder = record { encode = λ items. 0x51 ∷ 0x20 ∷ key }

abbrev output : ℕ → TxOutput
output n = record { amount = some n; script = some (0x51 ∷ 0x20 ∷ key) }

abbrev input : Text → ℕ → TxInput
input txid n = record { txid = some txid; index = some n }

-- A commitment of 100 and, at its second output, 50; a root that splits the 100, and a leaf.
abbrev commitment : Transaction
commitment = record {
  id = 1 ∷ [];
  inputs = [];
  outputs = output 100 ∷ output 50 ∷ [];
  cosigners = [];
}

abbrev root : Transaction
root = record {
  id = 2 ∷ [];
  inputs = input (1 ∷ []) 0 ∷ [];
  outputs = output 60 ∷ output 40 ∷ [];
  cosigners = (3 ∷ key) ∷ [];
}

abbrev leaf : Transaction
leaf = record {
  id = 3 ∷ [];
  inputs = input (2 ∷ []) 0 ∷ [];
  outputs = output 60 ∷ [];
  cosigners = (3 ∷ key) ∷ [];
}

abbrev graph : TxTree
graph = node root (child 0 (node leaf no_more) no_more)

abbrev musig : Musig
musig = record {
  sort_keys = λ keys. some keys;
  key_aggregate = λ keys tweaks. elim keys [ [] ↦ none | k ∷ rest ↦ some k ];
  tap_tweak = λ k r. k;
}

program : Unit {0}
unfolding validate leaves iterator same_text aggregate_keys validate_vtxo_tx_graph validate_child
    check_nodes check_children
program = tt

graph_accepted : validate_vtxo_tx_graph musig graph commitment [] ≡ ok tt
unfolding program
graph_accepted = refl

validate_vtxo_tx_graph-IsBatch_example :
    BatchLaws.IsBatch commitment 0 graph × BatchLaws.AreSigned musig [] graph
validate_vtxo_tx_graph-IsBatch_example =
    BatchLaws.validate_vtxo_tx_graph-IsBatch musig [] graph commitment graph_accepted

unspent-validate_vtxo_tx_graph_example :
    (unspent graph ≡ amount_at commitment.outputs 0) × (0 < unspent graph)
unspent-validate_vtxo_tx_graph_example =
    BatchLaws.unspent-validate_vtxo_tx_graph musig [] graph commitment graph_accepted (refl, tt, tt)

validate_iff_example : (validate graph ≡ ok tt) ↔ IsValid graph
validate_iff_example = validate_iff graph

-- A connector of the second output.
abbrev connector : TxTree
connector = node (record root { inputs = input (1 ∷ []) 1 ∷ []; outputs = output 50 ∷ [] }) no_more

abbrev from_psbt : Text → Option Transaction
from_psbt s = some commitment

connector_accepted : validate_connectors_tx_graph from_psbt [] connector ≡ ok tt
unfolding program validate_connectors_tx_graph
connector_accepted = refl

validate_connectors_tx_graph-IsBatch_example :
    (tx : Transaction) × (from_psbt [] ≡ some tx) × BatchLaws.IsBatch tx 1 connector
validate_connectors_tx_graph-IsBatch_example =
    BatchLaws.validate_connectors_tx_graph-IsBatch from_psbt [] connector connector_accepted

-- An encoding that puts the length of the prefix before it.
encode_words : Text → List ℕ → Option Text
encode_words prefix words = some (length prefix ∷ (prefix ++ words))

decode_words : Text → Option (Text × List ℕ)
decode_words [] = none
decode_words (n ∷ s) = some (take n s, drop n s)

decode_words-encode_words :
    (prefix : Text) (words : List ℕ)
    → bind (encode_words prefix words) decode_words ≡ some (prefix, words)
unfolding encode_words decode_words
decode_words-encode_words prefix words = simp (take-append prefix words, drop-append prefix words)

abbrev bech32m : Bech32m
bech32m = record {
  to_words = λ bytes. bytes;
  from_words = λ words. some words;
  encode = encode_words;
  decode_unsafe = decode_words;
  is_prefix = λ prefix. true;
  from_words-to_words = λ bytes h. refl;
  decode_unsafe-encode = λ prefix bytes h size. decode_words-encode_words prefix bytes;
}

abbrev address : ArkAddress
address = record { server_pub_key = key; vtxo_taproot_key = key; hrp = 97 ∷ []; version = 0 }

address-IsAddress : IsAddress address
address-IsAddress = omega arith

decode-encode_example : (encode bech32m address >>= decode bech32m) ≡ ok address
decode-encode_example = Address.decode-encode bech32m address address-IsAddress refl

-- One recipient with an Ark address, and one with another.
abbrev recipients : List Recipient
recipients =
    record { address = 1 ∷ 97 ∷ 0 ∷ (key ++ key); amount = some 60; assets = [] }
    ∷ record { address = []; amount = some 100; assets = [] }
    ∷ []

abbrev decode_onchain : Text → Option (List ℕ)
decode_onchain _ = some (0x51 ∷ 0x20 ∷ key)

recipients_accepted :
    validate_batch_recipients hex decoder encoder bech32m decode_onchain commitment
      (leaf ∷ [])
      recipients
    ≡ ok tt
unfolding program validate_batch_recipients validate_recipients decode_words decode of_data new
    pk_script validate_offchain_recipient validate_onchain_recipient find_leaf find_output
recipients_accepted = refl

validate_batch_recipients-ArePaid_example :
    RecipientLaws.ArePaid hex decoder encoder bech32m decode_onchain commitment
      (leaf ∷ [])
      (record { offchain = []; onchain = [] })
      recipients
validate_batch_recipients-ArePaid_example =
    RecipientLaws.validate_batch_recipients-ArePaid hex decoder encoder bech32m decode_onchain
      commitment (leaf ∷ []) recipients recipients_accepted

-- Fees of 5 for an input and of 2 for an output.
abbrev floats : Floats
floats = record {
  Float = ℕ;
  zero_float = 0;
  add_float = λ a b. a + b;
  is_truthy = λ n. ltb 0 n;
  ceil = pos;
}

abbrev estimator : Estimator floats
estimator =
    let input_fee = some (record { is_valid = true; result_type = []; run = λ args. 5 }) in
    let output_fee = some (record { is_valid = true; result_type = []; run = λ args. 2 }) in
    record {
      intent_offchain_input = input_fee;
      intent_onchain_input = input_fee;
      intent_offchain_output = output_fee;
      intent_onchain_output = output_fee;
    }

abbrev utxos : List ExtendedCoin
utxos =
    record { txid = []; vout = 0; value = pos 100 }
    ∷ record { txid = []; vout = 1; value = pos 4 }
    ∷ []

abbrev onboarded : SettleParams ExtendedCoin
onboarded = record {
  inputs = record { txid = []; vout = 0; value = pos 100 } ∷ [];
  outputs =
      record { address = 1 ∷ []; amount = pos 58 }
      ∷ record { address = 2 ∷ []; amount = pos 35 }
      ∷ [];
}

not_zero : some (pos 60) ≢ some (pos 0)
not_zero h = cc

fees : Unit {0}
unfolding satoshis eval_onchain_input eval_offchain_input eval_offchain_output eval_onchain_output
    input_to_args output_to_args boarding_fee vtxo_fee onboard_fee offboard_fee filter_paying
    total_amount change_of ◌+ℤ◌ ◌-ℤ◌ destination_script
fees = tt

is_onboarded : onboard floats estimator (1 ∷ []) [] (2 ∷ []) utxos (some (pos 60)) ≡ ok onboarded
unfolding fees onboard
is_onboarded = refl

onboard-IsBalanced_example :
    RampLaws.IsBalanced
      (λ u. u.value)
      (boarding_fee floats estimator)
      (onboard_fee floats estimator [] (
        amount_or
          (some (pos 60))
          (total_amount (λ u. u.value) (boarding_fee floats estimator) (pos 0) utxos)))
      onboarded
onboard-IsBalanced_example =
    RampLaws.onboard-IsBalanced floats estimator (1 ∷ []) [] (2 ∷ []) utxos (some (pos 60))
      onboarded not_zero is_onboarded

abbrev vtxos : List ExtendedVirtualCoin
vtxos =
    record {
      txid = [];
      vout = 0;
      value = pos 100;
      is_swept = false;
      created_at = 0;
      batch_expiry = none;
    }
    ∷ []

abbrev decode_address : ℕ → Text → Option Text
decode_address network _ = if network == 2 then some [] else none

abbrev offboarded : SettleParams ExtendedVirtualCoin
offboarded = record { inputs = vtxos; outputs = record { address = 1 ∷ []; amount = pos 93 } ∷ [] }

none_asked : ◌≢◌ {A = Option ℤ} none (some (pos 0))
none_asked h = cc

is_offboarded :
    offboard floats estimator decode_address (1 ∷ []) (2 ∷ []) vtxos none ≡ ok offboarded
unfolding fees offboard
is_offboarded = refl

offboard-IsBalanced_example :
    (script : Text) × (destination_script floats estimator decode_address
        (network_names floats estimator)
        (1 ∷ [])
      ≡ some script)
    × RampLaws.IsBalanced
        (λ c. c.value)
        (vtxo_fee floats estimator)
        (offboard_fee floats estimator script
          (amount_or none (total_amount (λ c. c.value) (vtxo_fee floats estimator) (pos 0) vtxos)))
        offboarded
offboard-IsBalanced_example =
    RampLaws.offboard-IsBalanced floats estimator decode_address (1 ∷ []) (2 ∷ []) vtxos none
      offboarded none_asked is_offboarded
