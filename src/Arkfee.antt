-- ===== src/Arkfee.antt =====
-- packages/ts-sdk/src/arkfee: the fees of an intent. Floating-point numbers and the interpreter of
-- CEL, a package, are parameters.
use congenial_giggle.Common.{
  ℕ, ◌/◌, Bool, List, [], ◌∷◌, Option, none, some, bind, if◌then◌else◌, is_empty,
}
use congenial_giggle.Common.Int.{ℤ, pos}
use congenial_giggle.Extension.Asset.Hex.{Text}
use congenial_giggle.Extension.Asset.Packet.{same_text}

-- `is_truthy` is false at zero and at what is no number.
pub record Floats : Type 1 where
  pub Float : Type 0
  pub zero_float : Float
  pub add_float : Float → Float → Float
  pub is_truthy : Float → Bool
  pub ceil : Float → ℤ

pub data VtxoType : Type 0 where
  recoverable vtxo note : VtxoType

-- Times in milliseconds.
pub record OffchainInput : Type 0 where
  pub amount : ℤ
  pub expiry : Option ℕ
  pub birth : Option ℕ
  pub input_type : VtxoType
  pub weight : ℕ

pub record OnchainInput : Type 0 where
  pub amount : ℤ

pub record FeeOutput : Type 0 where
  pub amount : ℤ
  pub script : Text

pub record IntentFeeConfig : Type 0 where
  pub offchain_input : Option Text
  pub onchain_input : Option Text
  pub offchain_output : Option Text
  pub onchain_output : Option Text

-- The variables of a program. `Number(amount)` is written as the amount.
pub data Arguments : Type 0 where
  of_offchain_input : ℤ → VtxoType → ℕ → Option ℕ → Option ℕ → Arguments
  of_onchain_input : ℤ → Arguments
  of_output : ℤ → Text → Arguments

pub data Environment : Type 0 where
  intent_offchain_input intent_onchain_input intent_output : Environment

abbrev pub seconds : Option ℕ → Option ℕ
seconds none = none
seconds (some time) = some (time / 1000)

unfoldable pub input_to_args : OffchainInput → Arguments
input_to_args input =
    of_offchain_input input.amount input.input_type input.weight (seconds input.expiry)
      (seconds input.birth)

unfoldable pub output_to_args : FeeOutput → Arguments
output_to_args output = of_output output.amount output.script

-- "double"
abbrev pub double : Text
double = 100 ∷ 111 ∷ 117 ∷ 98 ∷ 108 ∷ 101 ∷ []

module _ (floats : Floats) where
  open floats use {Float, zero_float, add_float, is_truthy, ceil}

  -- A parsed program: what its check says, and its evaluation.
  pub record Program : Type 0 where
    pub is_valid : Bool
    pub result_type : Text
    pub run : Arguments → Float

  unfoldable pub satoshis : Float → ℤ
  satoshis value = if is_truthy value then ceil value else pos 0

  pub record Estimator : Type 0 where
    pub intent_offchain_input : Option Program
    pub intent_onchain_input : Option Program
    pub intent_offchain_output : Option Program
    pub intent_onchain_output : Option Program

  -- `none` is a throw, here and of the parser.
  unfoldable pub parse_program :
      (Environment → Text → Option Program) → Text → Environment → Option Program
  parse_program parse text env = bind (parse env text) λ program.
      if program.is_valid
      then if same_text program.result_type double then some program else none
      else none

  -- `config.x ? parseProgram(config.x, env) : undefined`
  abbrev pub parse_optional :
      (Environment → Text → Option Program) → Option Text → Environment → Option (Option Program)
  parse_optional parse none env = some none
  parse_optional parse (some text) env =
      if is_empty text
      then some none
      else bind (parse_program parse text env) λ program. some (some program)

  unfoldable pub new : (Environment → Text → Option Program) → IntentFeeConfig → Option Estimator
  new parse config = bind (parse_optional parse config.offchain_input intent_offchain_input) λ a.
      bind (parse_optional parse config.onchain_input intent_onchain_input) λ b.
        bind (parse_optional parse config.offchain_output intent_output) λ c.
          bind (parse_optional parse config.onchain_output intent_output) λ d. some (record {
            intent_offchain_input = a;
            intent_onchain_input = b;
            intent_offchain_output = c;
            intent_onchain_output = d;
          })

  abbrev pub eval_with : Option Program → Arguments → Float
  eval_with none args = zero_float
  eval_with (some program) args = program.run args

  unfoldable pub eval_offchain_input : Estimator → OffchainInput → Float
  eval_offchain_input e input = eval_with e.intent_offchain_input (input_to_args input)

  unfoldable pub eval_onchain_input : Estimator → OnchainInput → Float
  eval_onchain_input e input = eval_with e.intent_onchain_input (of_onchain_input input.amount)

  unfoldable pub eval_offchain_output : Estimator → FeeOutput → Float
  eval_offchain_output e output = eval_with e.intent_offchain_output (output_to_args output)

  unfoldable pub eval_onchain_output : Estimator → FeeOutput → Float
  eval_onchain_output e output = eval_with e.intent_onchain_output (output_to_args output)

  abbrev pub add_each {ℓ} : {A : Type ℓ} → (A → Float) → Float → List A → Float
  add_each f fee [] = fee
  add_each f fee (x ∷ xs) = add_each f (add_float fee (f x)) xs

  unfoldable pub eval :
      Estimator → List OffchainInput → List OnchainInput → List FeeOutput → List FeeOutput → Float
  eval e offchain_inputs onchain_inputs offchain_outputs onchain_outputs =
      add_each (eval_onchain_output e)
        (add_each (eval_offchain_output e)
          (add_each (eval_onchain_input e)
            (add_each (eval_offchain_input e) zero_float offchain_inputs) onchain_inputs)
          offchain_outputs)
        onchain_outputs
