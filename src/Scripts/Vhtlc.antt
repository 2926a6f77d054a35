-- ===== src/Scripts/Vhtlc.antt =====
-- packages/ts-sdk/src/script/vhtlc.ts: the check of the options of a VHTLC. The six scripts are
-- encoded by a package and are not modelled.
use congenial_giggle.Common.{
  ℕ, ◌+◌, ◌%◌, ◌<◌, ◌≡◌, ◌↔◌, arith, Bool, true, false, not, List, Result, ok, err, ◌==◌, length,
}
use congenial_giggle.Common.Int.{ℤ, pos, negsuc, ltb_ℤ}
use congenial_giggle.Common.Results.{◌>>=◌}

pub data DelayType : Type 0 where
  blocks seconds : DelayType

pub record Delay : Type 0 where
  pub delay_type : DelayType
  pub value : ℤ

pub record Options : Type 0 where
  pub sender : List ℕ
  pub receiver : List ℕ
  pub server : List ℕ
  pub preimage_hash : List ℕ
  pub refund_locktime : ℤ
  pub unilateral_claim_delay : Delay
  pub unilateral_refund_delay : Delay
  pub unilateral_refund_without_receiver_delay : Delay

pub data DelayName : Type 0 where
  claim refund refund_without_receiver : DelayName

pub data Error : Type 0 where
  invalid_preimage_hash invalid_receiver invalid_sender invalid_server invalid_locktime : Error
  delay_not_positive : DelayName → Error
  not_multiple_of_512 below_512 : Error

abbrev require : Bool → Error → Result Error (Unit {0})
require true e = ok tt
require false e = err e

-- `value % 512n !== 0n`, `value < 512n`: a value that comes so far is positive.
unfoldable pub is_multiple_of_512 : ℤ → Bool
is_multiple_of_512 (pos n) = n % 512 == 0
is_multiple_of_512 (negsuc n) = (n + 1) % 512 == 0

unfoldable pub validate_seconds : Delay → Result Error (Unit {0})
validate_seconds delay = elim delay.delay_type [
  | blocks ↦ ok tt
  | seconds ↦ require (is_multiple_of_512 delay.value) not_multiple_of_512 >>= λ _.
      require (not (ltb_ℤ delay.value (pos 512))) below_512
]

unfoldable pub validate_delay : DelayName → Delay → Result Error (Unit {0})
validate_delay name delay =
    require (ltb_ℤ (pos 0) delay.value) (delay_not_positive name) >>= λ _. validate_seconds delay

unfoldable pub validate_delays : Options → Result Error (Unit {0})
validate_delays options = validate_delay claim options.unilateral_claim_delay >>= λ _.
    validate_delay refund options.unilateral_refund_delay >>= λ _.
    validate_delay refund_without_receiver options.unilateral_refund_without_receiver_delay

unfoldable pub validate_options : Options → Result Error (Unit {0})
validate_options options =
    require (length options.preimage_hash == 20) invalid_preimage_hash >>= λ _.
    require (length options.receiver == 32) invalid_receiver >>= λ _.
    require (length options.sender == 32) invalid_sender >>= λ _.
    require (length options.server == 32) invalid_server >>= λ _.
    require (ltb_ℤ (pos 0) options.refund_locktime) invalid_locktime >>= λ _.
    validate_delays options

abbrev pub IsPositive : ℤ → Type 0
IsPositive (pos n) = 0 < n
IsPositive (negsuc n) = ⊥

-- A positive number of blocks, or a positive multiple of 512 seconds.
abbrev pub IsDelay : Delay → Type 0
IsDelay delay = elim delay.delay_type [
  | blocks ↦ IsPositive delay.value
  | seconds ↦ IsPositive delay.value × (is_multiple_of_512 delay.value ≡ true)
]

pub record IsValid (options : Options) : Type 0 where
  pub hash_size : length options.preimage_hash ≡ 20
  pub receiver_size : length options.receiver ≡ 32
  pub sender_size : length options.sender ≡ 32
  pub server_size : length options.server ≡ 32
  pub locktime : IsPositive options.refund_locktime
  pub claim_delay : IsDelay options.unilateral_claim_delay
  pub refund_delay : IsDelay options.unilateral_refund_delay
  pub refund_without_receiver_delay : IsDelay options.unilateral_refund_without_receiver_delay

validate_delay_of :
    (name : DelayName) (delay_type : DelayType) (value : ℤ)
    → let delay : Delay = record { delay_type = delay_type; value = value } in
      (validate_delay name delay ≡ ok tt) ↔ IsDelay delay
unfolding validate_delay validate_seconds is_multiple_of_512
validate_delay_of name blocks (pos n) = ground arith
validate_delay_of name blocks (negsuc n) = ground arith
validate_delay_of name seconds (pos n) = ground arith
validate_delay_of name seconds (negsuc n) = ground arith

validate_delay_iff :
    (name : DelayName) (delay : Delay) → (validate_delay name delay ≡ ok tt) ↔ IsDelay delay
validate_delay_iff name delay = validate_delay_of name delay.delay_type delay.value

IsPositive-iff : (z : ℤ) → (ltb_ℤ (pos 0) z ≡ true) ↔ IsPositive z
IsPositive-iff (pos n) = ground arith
IsPositive-iff (negsuc n) = ground arith

-- `validateOptions` accepts exactly a hash of 20 bytes, keys of 32, a positive locktime, and three
-- delays that are positive and, in seconds, multiples of 512.
pub validate_options_iff :
    (options : Options) → (validate_options options ≡ ok tt) ↔ IsValid options
unfolding validate_options validate_delays
validate_options_iff options = ground (
  arith,
  IsPositive-iff options.refund_locktime,
  validate_delay_iff claim options.unilateral_claim_delay,
  validate_delay_iff refund options.unilateral_refund_delay,
  validate_delay_iff refund_without_receiver options.unilateral_refund_without_receiver_delay,
)
