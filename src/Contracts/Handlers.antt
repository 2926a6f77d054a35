-- ===== src/Contracts/Handlers.antt =====
-- packages/ts-sdk/src/contracts/handlers/helpers.ts: roles and timelocks. `encode` and `decode` of the
-- package bip68 are parameters.
pub mod Vhtlc
use congenial_giggle.Common.{
  ℕ, ◌+◌, ◌*◌, ◌/◌, ◌≡◌, Bool, true, false, ◌&&◌, List, [], ◌∷◌, Option, none, some, Result, ok,
  err, ltb, leb, if◌then◌else◌, is_empty,
}
use congenial_giggle.Common.Results.{◌>>=◌}
use congenial_giggle.Extension.Asset.Hex.{Text}
use congenial_giggle.Extension.Asset.Packet.{same_text}

pub data Error : Type 0 where
  -- thrown by `bip68.encode`, and by `sequenceToTimelock`
  invalid_timelock invalid_sequence : Error
  -- thrown by `hex.decode`
  invalid_hex : Error
  -- thrown by `BigInt`
  invalid_locktime : Error

-- `RelativeTimelock` of packages/ts-sdk/src/script/tapscript.ts.
pub data RelativeTimelock : Type 0 where
  blocks seconds : ℕ → RelativeTimelock

-- `encode` throws on what no sequence can hold, and `decode` gives an empty object for a sequence
-- that is no timelock: `none`. A sequence stands for the timelock that it encodes.
pub record Bip68 : Type 0 where
  pub encode : RelativeTimelock → Option ℕ
  pub decode : ℕ → Option RelativeTimelock
  pub decode-encode :
      (timelock : RelativeTimelock) (sequence : ℕ)
      → encode timelock ≡ some sequence
      → decode sequence ≡ some timelock

pub data Role : Type 0 where
  sender receiver : Role

-- Of the coin that is to be spent, the block that confirmed it.
pub record CoinStatus : Type 0 where
  pub block_height : Option ℕ
  pub block_time : Option ℕ

pub record PathContext : Type 0 where
  pub role : Option Role
  pub wallet_pub_key : Option Text
  pub collaborative : Bool
  pub block_height : Option ℕ
  -- in milliseconds
  pub current_time : ℕ
  pub vtxo : Option CoinStatus

-- The parameters of a VHTLC contract that the handler reads, the numbers among them as the decimal
-- strings stand for; `refund_locktime` is none where `BigInt` throws on it.
pub record Params : Type 0 where
  pub sender_key : Text
  pub receiver_key : Text
  pub preimage : Option Text
  pub refund_locktime : Option ℕ
  pub claim_delay : ℕ
  pub refund_no_receiver_delay : ℕ

abbrev pub or_throw {ℓ} : {A : Type ℓ} → Error → Option A → Result Error A
or_throw e none = err e
or_throw e (some a) = ok a

module _ (bip68 : Bip68) where
  unfoldable pub timelock_to_sequence : RelativeTimelock → Result Error ℕ
  timelock_to_sequence timelock = or_throw invalid_timelock (bip68.encode timelock)

  unfoldable pub sequence_to_timelock : ℕ → Result Error RelativeTimelock
  sequence_to_timelock sequence = or_throw invalid_sequence (bip68.decode sequence)

unfoldable pub match_key : Option Text → Params → Option Role
match_key none params = none
match_key (some key) params =
    if is_empty key
    then none
    else if same_text key params.sender_key
    then some sender
    else if same_text key params.receiver_key
    then some receiver
    else none

unfoldable pub resolve_role : Params → PathContext → Option Role
resolve_role params context = elim context.role [
  | some role ↦ some role
  | none ↦ match_key context.wallet_pub_key params
]

abbrev pub cltv_height_threshold : ℕ
cltv_height_threshold = 500_000_000

abbrev pub reached : Option ℕ → ℕ → Bool
reached none locktime = false
reached (some height) locktime = leb locktime height

unfoldable pub is_cltv_satisfied : PathContext → ℕ → Bool
is_cltv_satisfied context locktime =
    if ltb locktime cltv_height_threshold
    then reached context.block_height locktime
    else leb locktime (context.current_time / 1000)

-- `blockHeight - vtxo.status.block_height >= value`, and `currentTime / 1000 - blockTime >= value`,
-- which are comparisons of rational numbers.
unfoldable pub is_elapsed : PathContext → CoinStatus → RelativeTimelock → Bool
is_elapsed context status (blocks value) = elim context.block_height [
  | none ↦ false
  | some now ↦ elim status.block_height [
    | none ↦ false
    | some confirmed ↦ leb (value + confirmed) now
  ]
]
is_elapsed context status (seconds value) = elim status.block_time [
  | none ↦ false
  | some confirmed ↦ leb (1000 * (value + confirmed)) context.current_time
]

module _ (bip68 : Bip68) where
  unfoldable pub is_csv_spendable_coin : PathContext → ℕ → Option CoinStatus → Result Error Bool
  is_csv_spendable_coin context sequence none = ok false
  is_csv_spendable_coin context sequence (some status) =
      sequence_to_timelock bip68 sequence >>= λ timelock. ok (is_elapsed context status timelock)

  unfoldable pub is_csv_spendable : PathContext → Option ℕ → Result Error Bool
  is_csv_spendable context none = ok true
  is_csv_spendable context (some sequence) = is_csv_spendable_coin context sequence context.vtxo
