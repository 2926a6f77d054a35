-- ===== src/Contracts/Handlers/Vhtlc.antt =====
-- packages/ts-sdk/src/contracts/handlers/vhtlc.ts: the paths of a VHTLC contract.
pub mod Laws
pub mod Needs
use congenial_giggle.Common.{
  ℕ, Bool, true, false, ◌&&◌, List, [], ◌∷◌, ◌++◌, Option, none, some, Result, ok, err,
  if◌then◌else◌, is_empty,
}
use congenial_giggle.Common.Results.{◌>>=◌}
use congenial_giggle.Extension.Asset.Hex.{Text, Hex}
use congenial_giggle.Contracts.Handlers.{
  Error, invalid_hex, invalid_locktime, Bip68, Role, sender, receiver, PathContext, Params,
  or_throw, resolve_role, is_cltv_satisfied, is_csv_spendable,
}

-- The leaves that the handler spends with.
pub data Leaf : Type 0 where
  claim refund_without_receiver unilateral_claim unilateral_refund_without_receiver : Leaf

pub record PathSelection : Type 0 where
  pub leaf : Leaf
  pub extra_witness : Option (List ℕ)
  pub sequence : Option ℕ

-- `role === "receiver" && preimage`: an empty preimage counts as none.
abbrev pub preimage_of : Params → Option Text
preimage_of params = elim params.preimage [
  | none ↦ none
  | some preimage ↦ if is_empty preimage then none else some preimage
]

module _ (hex : Hex) where
  -- The path of a claim, with the preimage in the witness.
  unfoldable pub claim_path : Leaf → Option ℕ → Text → Result Error PathSelection
  claim_path leaf sequence preimage = or_throw invalid_hex (hex.decode preimage) >>= λ bytes.
      ok (record { leaf = leaf; extra_witness = some bytes; sequence = sequence })

unfoldable pub refund_path : Leaf → Option ℕ → PathSelection
refund_path leaf sequence = record { leaf = leaf; extra_witness = none; sequence = sequence }

abbrev pub select : Result Error PathSelection → Result Error (Option PathSelection)
select r = r >>= λ path. ok (some path)

abbrev pub push : Result Error PathSelection → Result Error (List PathSelection)
push r = r >>= λ path. ok (path ∷ [])

module _ (hex : Hex) (bip68 : Bip68) (params : Params) (context : PathContext) where
  unfoldable pub select_collaborative : ℕ → Role → Result Error (Option PathSelection)
  select_collaborative refund_locktime receiver = elim (preimage_of params) [
    | none ↦ ok none
    | some preimage ↦ select (claim_path hex claim none preimage)
  ]
  select_collaborative refund_locktime sender =
      if is_cltv_satisfied context refund_locktime
      then ok (some (refund_path refund_without_receiver none))
      else ok none

  unfoldable pub select_unilateral : Role → Result Error (Option PathSelection)
  select_unilateral receiver = elim (preimage_of params) [
    | none ↦ ok none
    | some preimage ↦ is_csv_spendable bip68 context (some params.claim_delay) >>= λ spendable.
        (if spendable
          then select (claim_path hex unilateral_claim (some params.claim_delay) preimage)
          else ok none)
  ]
  select_unilateral sender =
      is_csv_spendable bip68 context (some params.refund_no_receiver_delay) >>= λ spendable.
      (if spendable
        then ok (
            some (
              refund_path unilateral_refund_without_receiver
                (some params.refund_no_receiver_delay)))
        else ok none)

  unfoldable pub select_path : Result Error (Option PathSelection)
  select_path = or_throw invalid_locktime params.refund_locktime >>= λ refund_locktime.
      elim (resolve_role params context) [
        | none ↦ ok none
        | some role ↦
            if context.collaborative
            then select_collaborative refund_locktime role
            else select_unilateral role
      ]

  unfoldable pub all_paths : Role → Result Error (List PathSelection)
  all_paths receiver = elim (preimage_of params) [
    | none ↦ ok []
    | some preimage ↦
        if context.collaborative
        then push (claim_path hex claim none preimage)
        else push (claim_path hex unilateral_claim (some params.claim_delay) preimage)
  ]
  all_paths sender =
      if context.collaborative
      then ok (refund_path refund_without_receiver none ∷ [])
      else ok (
          refund_path unilateral_refund_without_receiver (some params.refund_no_receiver_delay)
          ∷ [])

  unfoldable pub get_all_spending_paths : Result Error (List PathSelection)
  get_all_spending_paths = elim (resolve_role params context) [
    | none ↦ ok []
    | some role ↦ all_paths role
  ]

  unfoldable pub spendable_collaborative : ℕ → Role → Result Error (List PathSelection)
  spendable_collaborative refund_locktime receiver = elim (preimage_of params) [
    | none ↦ ok []
    | some preimage ↦ push (claim_path hex claim none preimage)
  ]
  spendable_collaborative refund_locktime sender =
      if is_cltv_satisfied context refund_locktime
      then ok (refund_path refund_without_receiver none ∷ [])
      else ok []

  unfoldable pub spendable_unilateral : Role → Result Error (List PathSelection)
  spendable_unilateral receiver = elim (preimage_of params) [
    | none ↦ ok []
    | some preimage ↦ is_csv_spendable bip68 context (some params.claim_delay) >>= λ spendable.
        (if spendable
          then push (claim_path hex unilateral_claim (some params.claim_delay) preimage)
          else ok [])
  ]
  spendable_unilateral sender =
      is_csv_spendable bip68 context (some params.refund_no_receiver_delay) >>= λ spendable.
      (if spendable
        then ok (
            refund_path unilateral_refund_without_receiver (some params.refund_no_receiver_delay)
            ∷ [])
        else ok [])

  unfoldable pub get_spendable_paths : Result Error (List PathSelection)
  get_spendable_paths = elim (resolve_role params context) [
    | none ↦ ok []
    | some role ↦ or_throw invalid_locktime params.refund_locktime >>= λ refund_locktime.
        (if context.collaborative
          then spendable_collaborative refund_locktime role
          else spendable_unilateral role)
  ]
