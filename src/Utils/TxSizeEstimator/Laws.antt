-- ===== src/Utils/TxSizeEstimator/Laws.antt =====
-- Transactions as lists of their parts: the order does not matter, and a part only adds.
use congenial_giggle.Common.{
  ℕ, ◌+◌, ◌*◌, ◌≤◌, ◌≡◌, refl, ap, ap₂, ◌∙◌, arith, Bool, true, false, ◌||◌, List, [], ◌∷◌,
}
use mathlib.Core.List.{Permᴰ}
use native.Mathlib.Nat.{mul-le-mul_left}
use congenial_giggle.Utils.TxSizeEstimator.{
  get_var_int_size, TxWeightEstimator, create, add_p2a_input, add_key_spend_input, add_p2pkh_input,
  add_tapscript_input, add_p2wpkh_output, add_p2tr_output, add_output_script, vsize_of, fee_of,
  weight_of, vsize,
}

-- A call of one of the methods that add a part.
pub data Part : Type 0 where
  p2a_input p2pkh_input p2wpkh_output p2tr_output : Part
  key_spend_input : Bool → Part
  tapscript_input : ℕ → ℕ → ℕ → Part
  output_script : List ℕ → Part

unfoldable pub add : Part → TxWeightEstimator → TxWeightEstimator
add p2a_input e = add_p2a_input e
add p2pkh_input e = add_p2pkh_input e
add p2wpkh_output e = add_p2wpkh_output e
add p2tr_output e = add_p2tr_output e
add (key_spend_input is_default) e = add_key_spend_input is_default e
add (tapscript_input w s c) e = add_tapscript_input w s c e
add (output_script script) e = add_output_script script e

unfoldable pub add_all : List Part → TxWeightEstimator → TxWeightEstimator
add_all [] e = e
add_all (p ∷ parts) e = add_all parts (add p e)

-- What a part adds to the fields.
part : Part → TxWeightEstimator
part p = add p create

-- Two estimators together, field by field.
sum : TxWeightEstimator → TxWeightEstimator → TxWeightEstimator
sum e d = record {
  has_witness = d.has_witness || e.has_witness;
  input_count = e.input_count + d.input_count;
  output_count = e.output_count + d.output_count;
  inputs_size = e.inputs_size + d.inputs_size;
  inputs_witness_size = e.inputs_witness_size + d.inputs_witness_size;
  outputs_size = e.outputs_size + d.outputs_size;
}

estimator_ext :
    (e d : TxWeightEstimator)
    → e.has_witness ≡ d.has_witness
    → e.input_count ≡ d.input_count
    → e.output_count ≡ d.output_count
    → e.inputs_size ≡ d.inputs_size
    → e.inputs_witness_size ≡ d.inputs_witness_size
    → e.outputs_size ≡ d.outputs_size
    → e ≡ d
estimator_ext e d a b c f g h = λ i. record {
  has_witness = a i;
  input_count = b i;
  output_count = c i;
  inputs_size = f i;
  inputs_witness_size = g i;
  outputs_size = h i;
}

add-sum : (p : Part) (e : TxWeightEstimator) → add p e ≡ sum e (part p)
unfolding add part sum create add_p2a_input add_key_spend_input add_p2pkh_input add_tapscript_input
    add_p2wpkh_output add_p2tr_output add_output_script
add-sum p2a_input e =
    estimator_ext _ _ refl (omega arith) (omega arith) (omega arith) (omega arith) (omega arith)
add-sum p2pkh_input e =
    estimator_ext _ _ refl (omega arith) (omega arith) (omega arith) (omega arith) (omega arith)
add-sum p2wpkh_output e =
    estimator_ext _ _ refl (omega arith) (omega arith) (omega arith) (omega arith) (omega arith)
add-sum p2tr_output e =
    estimator_ext _ _ refl (omega arith) (omega arith) (omega arith) (omega arith) (omega arith)
add-sum (key_spend_input b) e =
    estimator_ext _ _ refl (omega arith) (omega arith) (omega arith) (omega arith) (omega arith)
add-sum (tapscript_input w s c) e =
    estimator_ext _ _ refl (omega arith) (omega arith) (omega arith) (omega arith) (omega arith)
add-sum (output_script script) e =
    estimator_ext _ _ refl (omega arith) (omega arith) (omega arith) (omega arith) (omega arith)

or_swap : (a b c : Bool) → (a || (b || c)) ≡ (b || (a || c))
or_swap true true c = refl
or_swap true false c = refl
or_swap false b c = refl

sum_swap : (e a b : TxWeightEstimator) → sum (sum e a) b ≡ sum (sum e b) a
unfolding sum
sum_swap e a b =
    estimator_ext _ _ (or_swap b.has_witness a.has_witness e.has_witness) (omega arith)
      (omega arith) (omega arith) (omega arith) (omega arith)

add_swap : (p q : Part) (e : TxWeightEstimator) → add p (add q e) ≡ add q (add p e)
add_swap p q e =
    rw (add-sum q e, add-sum p (sum e (part q)), add-sum p e, add-sum q (sum e (part p)))
      (sum_swap e (part q) (part p))

-- The order in which the parts of a transaction are added does not change the estimator, and so
-- neither its size nor its fee.
pub add_all-Perm :
    {parts others : List Part}
    → Permᴰ parts others
    → (e : TxWeightEstimator) → add_all parts e ≡ add_all others e
unfolding add_all
add_all-Perm Permᴰ.nil e = refl
add_all-Perm (Permᴰ.cons {b = b} {l₁ = l₁} a d) e =
    ap (λ p. add_all l₁ (add p e)) a ∙ add_all-Perm d (add b e)
add_all-Perm (Permᴰ.swap {a' = a'} {b' = b'} {l = l} f g) e =
    ap₂ (λ p q. add_all l (add q (add p e))) f g ∙ ap (add_all l) (add_swap a' b' e)
add_all-Perm (Permᴰ.trans d d') e = add_all-Perm d e ∙ add_all-Perm d' e

-- The virtual size is the least number of quarter-weight units that holds the weight.
pub vsize-least :
    (e : TxWeightEstimator) (n : ℕ)
    → (vsize e ≤ n → weight_of e ≤ 4 * n) × (weight_of e ≤ 4 * n → vsize e ≤ n)
unfolding vsize vsize_of
vsize-least e n = (λ h. omega arith, λ h. omega arith)

get_var_int_size_mono : (a b : ℕ) → a ≤ b → get_var_int_size a ≤ get_var_int_size b
unfolding get_var_int_size
get_var_int_size_mono a b h = ground arith

weight_sum : (e d : TxWeightEstimator) → weight_of e ≤ weight_of (sum e d)
unfolding weight_of sum
weight_sum e d =
    let ins = get_var_int_size_mono e.input_count (e.input_count + d.input_count) (omega arith) in
    let outs =
      get_var_int_size_mono e.output_count (e.output_count + d.output_count) (omega arith) in
    ground arith

-- Adding a part never lowers the virtual size, nor the fee at any rate.
pub vsize-add :
    (p : Part) (e : TxWeightEstimator) (fee_rate : ℕ)
    → (vsize e ≤ vsize (add p e)) × (fee_of (vsize e) fee_rate ≤ fee_of (vsize (add p e)) fee_rate)
unfolding vsize vsize_of fee_of
vsize-add p e fee_rate =
    let heavier : weight_of e ≤ weight_of (add p e) = rw (add-sum p e) (weight_sum e (part p)) in
    let larger : vsize e ≤ vsize (add p e) = omega (arith, heavier) in
    (larger, mul-le-mul_left fee_rate larger)
