-- ===== src/Utils/TxSizeEstimator.antt =====
-- packages/ts-sdk/src/utils/txSizeEstimator.ts: the size of a transaction, for its fee. The fields
-- of the estimator are numbers that the code only adds to, far below 2^53.
pub mod Laws
use congenial_giggle.Common.{
  ℕ, suc, ◌+◌, ◌*◌, ◌/◌, Bool, true, false, List, [], ◌∷◌, ltb, leb, if◌then◌else◌, length,
}

unfoldable pub get_var_int_size : ℕ → ℕ
get_var_int_size n =
    if ltb n 0xfd then 1 else if leb n 0xffff then 3 else if leb n 0xffff_ffff then 5 else 9

abbrev pub p2pkh_script_sig_size : ℕ
p2pkh_script_sig_size = 1 + 73 + 1 + 33

abbrev pub input_size : ℕ
input_size = 32 + 4 + 1 + 4

abbrev pub base_control_block_size : ℕ
base_control_block_size = 1 + 32

abbrev pub output_size : ℕ
output_size = 8 + 1

abbrev pub p2wpkh_output_size : ℕ
p2wpkh_output_size = 1 + 1 + 20

abbrev pub base_tx_size : ℕ
base_tx_size = 8 + 2

abbrev pub witness_header_size : ℕ
witness_header_size = 2

abbrev pub witness_scale_factor : ℕ
witness_scale_factor = 4

abbrev pub p2tr_output_size : ℕ
p2tr_output_size = 1 + 1 + 32

pub record TxWeightEstimator : Type 0 where
  pub has_witness : Bool
  pub input_count : ℕ
  pub output_count : ℕ
  pub inputs_size : ℕ
  pub inputs_witness_size : ℕ
  pub outputs_size : ℕ

unfoldable pub create : TxWeightEstimator
create = record {
  has_witness = false;
  input_count = 0;
  output_count = 0;
  inputs_size = 0;
  inputs_witness_size = 0;
  outputs_size = 0;
}

unfoldable pub add_p2a_input : TxWeightEstimator → TxWeightEstimator
add_p2a_input e = record e {
  input_count = suc e.input_count;
  inputs_size = e.inputs_size + input_size;
}

unfoldable pub add_key_spend_input : Bool → TxWeightEstimator → TxWeightEstimator
add_key_spend_input is_default e = record e {
  input_count = suc e.input_count;
  inputs_witness_size = e.inputs_witness_size + (64 + 1 + (if is_default then 0 else 1));
  inputs_size = e.inputs_size + input_size;
  has_witness = true;
}

unfoldable pub add_p2pkh_input : TxWeightEstimator → TxWeightEstimator
add_p2pkh_input e = record e {
  input_count = suc e.input_count;
  inputs_witness_size = suc e.inputs_witness_size;
  inputs_size = e.inputs_size + (input_size + p2pkh_script_sig_size);
}

unfoldable pub add_tapscript_input : ℕ → ℕ → ℕ → TxWeightEstimator → TxWeightEstimator
add_tapscript_input leaf_witness_size leaf_script_size leaf_control_block_size e =
    let control_block_witness_size =
      1 + base_control_block_size + 1 + leaf_script_size + 1 + leaf_control_block_size in
    record e {
      input_count = suc e.input_count;
      inputs_witness_size =
          e.inputs_witness_size + (leaf_witness_size + 1 + control_block_witness_size);
      inputs_size = e.inputs_size + input_size;
      has_witness = true;
    }

unfoldable pub add_p2wpkh_output : TxWeightEstimator → TxWeightEstimator
add_p2wpkh_output e = record e {
  output_count = suc e.output_count;
  outputs_size = e.outputs_size + (output_size + p2wpkh_output_size);
}

unfoldable pub add_p2tr_output : TxWeightEstimator → TxWeightEstimator
add_p2tr_output e = record e {
  output_count = suc e.output_count;
  outputs_size = e.outputs_size + (output_size + p2tr_output_size);
}

unfoldable pub add_output_script : List ℕ → TxWeightEstimator → TxWeightEstimator
add_output_script script e = record e {
  output_count = suc e.output_count;
  outputs_size = e.outputs_size + (8 + get_var_int_size (length script) + length script);
}

-- `Math.ceil(weight / 4)` of a whole number.
unfoldable pub vsize_of : ℕ → ℕ
vsize_of weight = (weight + 3) / witness_scale_factor

unfoldable pub fee_of : ℕ → ℕ → ℕ
fee_of value fee_rate = fee_rate * value

unfoldable pub weight_of : TxWeightEstimator → ℕ
weight_of e =
    let tx_size_stripped =
      base_tx_size
      + get_var_int_size e.input_count
      + e.inputs_size
      + get_var_int_size e.output_count
      + e.outputs_size in
    let weight = tx_size_stripped * witness_scale_factor in
    if e.has_witness then weight + (witness_header_size + e.inputs_witness_size) else weight

unfoldable pub vsize : TxWeightEstimator → ℕ
vsize e = vsize_of (weight_of e)
