-- ===== src/Wallet/Validation/Laws.antt =====
-- What the check of a batch's recipients ensures.
use congenial_giggle.Common.{
  ℕ, suc, ◌+◌, ◌<◌, ◌≡◌, ◌⊎◌, inl, inr, refl, subst, ap, arith, Bool, true, false, ◌&&◌, not, List,
  [], ◌∷◌, Option, none, some, Result, ok, err, if◌then◌else◌, is_empty, Bool-cases, Option-cases,
}
use congenial_giggle.Common.Results.{◌>>=◌, parts_ok}
use congenial_giggle.Extension.Script.{ScriptDecoder, ScriptEncoder}
use congenial_giggle.Extension.Asset.Hex.{Text, Hex}
use congenial_giggle.Extension.Asset.Packet.Laws.{same_text_iff}
use congenial_giggle.Scripts.Address
use congenial_giggle.Scripts.Address.{Bech32m, ArkAddress, pk_script}
use congenial_giggle.Tree.TxTree.{TxOutput, Transaction, get_elem}
use congenial_giggle.Wallet.Validation.Assets.{HasAssets, validate_asset_outputs-HasAssets}
use congenial_giggle.Wallet.Validation.{
  Recipient, Error, invalid_offchain_output_amount, invalid_onchain_output_amount, Used, has_key,
  has_index, has_script, has_amount, pays, find_output, find_leaf, amount_or,
  validate_asset_outputs, take_leaf, take_output, validate_offchain_recipient,
  validate_onchain_recipient, validate_at, validate_recipients, validate_batch_recipients,
}

-- An output of a leaf, or one of the commitment transaction.
pub data Place : Type 0 where
  in_leaf : ℕ → ℕ → Place
  in_commitment : ℕ → Place

abbrev pub is_used : Place → Used → Bool
is_used (in_leaf l o) used = has_key l o used.offchain
is_used (in_commitment i) used = has_index i used.onchain

abbrev pub mark : Place → Used → Used
mark (in_leaf l o) used = record used { offchain = (l, o) ∷ used.offchain }
mark (in_commitment i) used = record used { onchain = i ∷ used.onchain }

has_script-eq : (o : Option (List ℕ)) (s : List ℕ) → has_script o s ≡ true → o ≡ some s
has_script-eq none s h = cc
has_script-eq (some script) s h = ground (arith, same_text_iff script s)

has_amount-eq : (o : Option ℕ) (a : ℕ) → has_amount o a ≡ true → o ≡ some a
has_amount-eq none a h = cc
has_amount-eq (some amount) a h = ground arith

-- An output with the script and the amount.
pub record IsPayment (script : List ℕ) (amount : ℕ) (output : TxOutput) : Type 0 where
  pub has_the_script : output.script ≡ some script
  pub has_the_amount : output.amount ≡ some amount

pays-IsPayment :
    (output : TxOutput) (script : List ℕ) (amount : ℕ)
    → pays output script amount ≡ true
    → IsPayment script amount output
pays-IsPayment output script amount h = record {
  has_the_script = has_script-eq output.script script (ground arith);
  has_the_amount = has_amount-eq output.amount amount (ground arith);
}

find_output_lem :
    (used : ℕ → Bool) (script : List ℕ) (amount i o : ℕ) (outputs : List TxOutput)
    → find_output used script amount i outputs ≡ some o
    → (k : ℕ) × (output : TxOutput) × (o ≡ i + k)
      × (get_elem outputs k ≡ some output)
      × IsPayment script amount output
      × (used o ≡ false)
unfolding find_output
find_output_lem used script amount i o [] h = absurd (cc)
find_output_lem used script amount i o (output ∷ outputs) h =
    elim (Bool-cases (pays output script amount && not (used i))) [
      | inl found ↦
          let e : i ≡ o = ground arith in
          (
            0,
            output,
            ground arith,
            refl,
            pays-IsPayment output script amount (ground arith),
            ground (arith, ap used e),
          )
      | inr other ↦
          let (k, output', e, at, payment, fresh) =
            find_output_lem used script amount (suc i) o outputs (ground arith) in
          (suc k, output', ground arith, at, payment, fresh)
    ]

some_injective :
    {a b : Transaction × ℕ × ℕ} → ◌≡◌ {A = Option (Transaction × ℕ × ℕ)} (some a) (some b) → a ≡ b
some_injective h = cc

find_leaf_lem :
    (used : List (ℕ × ℕ)) (script : List ℕ) (amount i l o : ℕ) (leaf : Transaction)
    (leaves : List Transaction)
    → find_leaf used script amount i leaves ≡ some (leaf, l, o)
    → (k : ℕ) × (l ≡ i + k)
      × (get_elem leaves k ≡ some leaf)
      × (find_output (λ j. has_key l j used) script amount 0 leaf.outputs ≡ some o)
unfolding find_leaf
find_leaf_lem used script amount i l o leaf [] h = absurd (cc)
find_leaf_lem used script amount i l o leaf (leaf' ∷ leaves) h =
    elim (Option-cases (find_output (λ j. has_key i j used) script amount 0 leaf'.outputs)) [
      | inl none_here ↦
          let (k, e, at, found) =
            find_leaf_lem used script amount (suc i) l o leaf leaves (ground arith) in
          (suc k, ground arith, at, found)
      | inr (o', here) ↦
          let e : ◌≡◌ {A = Transaction × ℕ × ℕ} (leaf', i, o') (leaf, l, o) =
            some_injective (ground arith) in
          subst
            (λ (t : Transaction × ℕ × ℕ).
              (k : ℕ) × (t.1 ≡ i + k)
              × (get_elem (leaf' ∷ leaves) k ≡ some t.0)
              × (find_output (λ j. has_key t.1 j used) script amount 0 t.0.outputs ≡ some t.2))
            e (0, omega arith, refl, here)
    ]

module _ (hex : Hex) (script_decoder : ScriptDecoder) (encoder : ScriptEncoder) (bech32m : Bech32m)
    (decode_onchain : Text → Option (List ℕ)) (commitment_tx : Transaction)
    (leaves : List Transaction) where
  -- A leaf's output pays the recipient's Ark address its amount, with the assets that it asks for.
  pub record PaysOffchain (l o : ℕ) (recipient : Recipient) : Type 0 where
    pub address : ArkAddress
    pub amount : ℕ
    pub leaf : Transaction
    pub output : TxOutput
    pub decoded : Address.decode bech32m recipient.address ≡ ok address
    pub asked : recipient.amount ≡ some amount
    pub positive : 0 < amount
    pub at_leaf : get_elem leaves l ≡ some leaf
    pub at_output : get_elem leaf.outputs o ≡ some output
    pub payment : IsPayment (pk_script encoder address) amount output
    pub with_assets :
        (is_empty recipient.assets ≡ true) ⊎ HasAssets hex script_decoder leaf o recipient.assets

  -- An output of the commitment pays the recipient's onchain address its amount, without assets.
  pub record PaysOnchain (i : ℕ) (recipient : Recipient) : Type 0 where
    pub script : List ℕ
    pub amount : ℕ
    pub output : TxOutput
    pub decoded : decode_onchain recipient.address ≡ some script
    pub asked : recipient.amount ≡ some amount
    pub positive : 0 < amount
    pub at_output : get_elem commitment_tx.outputs i ≡ some output
    pub payment : IsPayment script amount output
    pub without_assets : is_empty recipient.assets ≡ true

  abbrev pub Pays : Place → Recipient → Type 0
  Pays (in_leaf l o) recipient = PaysOffchain l o recipient
  Pays (in_commitment i) recipient = PaysOnchain i recipient

  -- Each recipient is paid at a place of its own, that was not used before.
  pub data ArePaid : Used → List Recipient → Type 0 where
    nobody : {used : Used} → ArePaid used []
    paid :
        {used : Used} {recipient : Recipient} {recipients : List Recipient} (place : Place)
        → is_used place used ≡ false
        → Pays place recipient
        → ArePaid (mark place used) recipients
        → ArePaid used (recipient ∷ recipients)

  abbrev Step : Used → Recipient → Used → Type 0
  Step used recipient used' =
      (place : Place) × (is_used place used ≡ false)
      × Pays place recipient
      × (used' ≡ mark place used)

  amount_or-ok :
      (o : Option ℕ) (e : Error) (amount : ℕ)
      → amount_or o e ≡ ok amount
      → (o ≡ some amount) × (0 < amount)
  amount_or-ok none e amount h = cc
  amount_or-ok (some n) e amount h = ground arith

  with_assets_of :
      (leaf : Transaction) (o : ℕ) (recipient : Recipient) (used used' : Used)
      → (if is_empty recipient.assets
          then ok used
          else validate_asset_outputs hex script_decoder leaf o recipient.assets >>= λ _. ok used)
        ≡ ok used'
      → (used' ≡ used)
        × ((is_empty recipient.assets ≡ true)
            ⊎ HasAssets hex script_decoder leaf o recipient.assets)
  with_assets_of leaf o recipient used used' h = elim (Bool-cases (is_empty recipient.assets)) [
    | inl empty ↦ (ground arith, inl empty)
    | inr assets ↦
        let (u, valid, e) =
          parts_ok (validate_asset_outputs hex script_decoder leaf o recipient.assets)
            (λ _. ok used) {result = used'} (ground arith) in
        (
          cc,
          inr (validate_asset_outputs-HasAssets hex script_decoder leaf o recipient.assets valid),
        )
  ]

  take_leaf-Step :
      (address : ArkAddress) (amount : ℕ) (recipient : Recipient) (used used' : Used)
      (found : Option (Transaction × ℕ × ℕ))
      → Address.decode bech32m recipient.address ≡ ok address
      → recipient.amount ≡ some amount
      → 0 < amount
      → find_leaf used.offchain (pk_script encoder address) amount 0 leaves ≡ found
      → take_leaf hex script_decoder recipient used found ≡ ok used'
      → Step used recipient used'
  take_leaf-Step address amount recipient used used' none d asked positive f h = absurd (cc)
  take_leaf-Step address amount recipient used used' (some (leaf, l, o)) d asked positive f h =
      let (k, l_eq, at_leaf, f') =
        find_leaf_lem used.offchain (pk_script encoder address) amount 0 l o leaf leaves f in
      let (j, output, o_eq, at_output, payment, fresh) =
        find_output_lem (λ j. has_key l j used.offchain) (pk_script encoder address) amount 0 o
          leaf.outputs f' in
      let (e, with_assets) = with_assets_of leaf o recipient (mark (in_leaf l o) used) used' h in
      (
        in_leaf l o,
        fresh,
        record {
          address = address;
          amount = amount;
          leaf = leaf;
          output = output;
          decoded = d;
          asked = asked;
          positive = positive;
          at_leaf = subst (λ n. get_elem leaves n ≡ some leaf) (omega arith) at_leaf;
          at_output = subst (λ n. get_elem leaf.outputs n ≡ some output) (omega arith) at_output;
          payment = payment;
          with_assets = with_assets;
        },
        e,
      )

  validate_offchain_recipient-Step :
      (address : ArkAddress) (recipient : Recipient) (used used' : Used)
      → Address.decode bech32m recipient.address ≡ ok address
      → validate_offchain_recipient hex script_decoder encoder leaves address recipient used
        ≡ ok used'
      → Step used recipient used'
  unfolding validate_offchain_recipient
  validate_offchain_recipient-Step address recipient used used' d h =
      let (amount, asked, h') =
        parts_ok (amount_or recipient.amount (invalid_offchain_output_amount recipient.address)) _
          h in
      let (some_amount, positive) = amount_or-ok recipient.amount _ amount asked in
      take_leaf-Step address amount recipient used used' _ d some_amount positive refl h'

  unless_assets :
      (recipient : Recipient) (used' : Used) (r : Result Error Used) (e : Error)
      → (if is_empty recipient.assets then r else err e) ≡ ok used'
      → (is_empty recipient.assets ≡ true) × (r ≡ ok used')
  unless_assets recipient used' r e h = ground arith

  take_output-Step :
      (script : List ℕ) (amount : ℕ) (recipient : Recipient) (used used' : Used) (found : Option ℕ)
      → decode_onchain recipient.address ≡ some script
      → recipient.amount ≡ some amount
      → 0 < amount
      → is_empty recipient.assets ≡ true
      → find_output (λ i. has_index i used.onchain) script amount 0 commitment_tx.outputs ≡ found
      → take_output hex script_decoder encoder recipient used found ≡ ok used'
      → Step used recipient used'
  take_output-Step script amount recipient used used' none d asked positive no_assets f h =
      absurd (cc)
  take_output-Step script amount recipient used used' (some i) d asked positive no_assets f h =
      let (j, output, i_eq, at_output, payment, fresh) =
        find_output_lem (λ i. has_index i used.onchain) script amount 0 i commitment_tx.outputs f in
      (
        in_commitment i,
        fresh,
        record {
          script = script;
          amount = amount;
          output = output;
          decoded = d;
          asked = asked;
          positive = positive;
          at_output =
              subst (λ n. get_elem commitment_tx.outputs n ≡ some output) (omega arith) at_output;
          payment = payment;
          without_assets = no_assets;
        },
        cc,
      )

  validate_onchain_recipient-Step :
      (o : Option (List ℕ)) (recipient : Recipient) (used used' : Used)
      → decode_onchain recipient.address ≡ o
      → validate_onchain_recipient hex script_decoder encoder commitment_tx o recipient used
        ≡ ok used'
      → Step used recipient used'
  unfolding validate_onchain_recipient
  validate_onchain_recipient-Step none recipient used used' d h = absurd (cc)
  validate_onchain_recipient-Step (some script) recipient used used' d h =
      let (amount, asked, h') =
        parts_ok (amount_or recipient.amount (invalid_onchain_output_amount recipient.address)) _
          h in
      let (some_amount, positive) = amount_or-ok recipient.amount _ amount asked in
      let (no_assets, taken) = unless_assets recipient used' _ _ h' in
      take_output-Step script amount recipient used used' _ d some_amount positive no_assets refl
        taken

  validate_at-Step :
      (recipient : Recipient) (used used' : Used) (r : Result Address.Error ArkAddress)
      → Address.decode bech32m recipient.address ≡ r
      → validate_at hex script_decoder encoder bech32m decode_onchain commitment_tx leaves recipient
          used r
        ≡ ok used'
      → Step used recipient used'
  validate_at-Step recipient used used' (ok address) d h =
      validate_offchain_recipient-Step address recipient used used' d h
  validate_at-Step recipient used used' (err e) d h =
      validate_onchain_recipient-Step _ recipient used used' refl h

  validate_recipients-ArePaid :
      (used : Used) (recipients : List Recipient)
      → validate_recipients hex script_decoder encoder bech32m decode_onchain commitment_tx leaves
          used recipients
        ≡ ok tt
      → ArePaid used recipients
  unfolding validate_recipients
  validate_recipients-ArePaid used [] h = nobody
  validate_recipients-ArePaid used (recipient ∷ recipients) h =
      let (used', valid, rest) =
        parts_ok
          (validate_at hex script_decoder encoder bech32m decode_onchain commitment_tx leaves
            recipient used (Address.decode bech32m recipient.address))
          _ h in
      let (place, fresh, pays_it, e) = validate_at-Step recipient used used' _ refl valid in
      paid place fresh pays_it
        (validate_recipients-ArePaid (mark place used) recipients (rw (← e) rest))

  -- In a batch that the check accepts, each recipient is paid its amount, at its address, by an
  -- output of its own: one of a leaf for an Ark address, else one of the commitment transaction, for
  -- a recipient that asks for no assets. For each asset that a recipient asks for, the asset packet
  -- in the leaf's scripts has a group with the asset's id, and this an output for the leaf's output
  -- with the amount of the asset that is asked for.
  pub validate_batch_recipients-ArePaid :
      (recipients : List Recipient)
      → validate_batch_recipients hex script_decoder encoder bech32m decode_onchain commitment_tx
          leaves recipients
        ≡ ok tt
      → ArePaid (record { offchain = []; onchain = [] }) recipients
  unfolding validate_batch_recipients
  validate_batch_recipients-ArePaid recipients h = validate_recipients-ArePaid _ recipients h
