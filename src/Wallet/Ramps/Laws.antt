-- ===== src/Wallet/Ramps/Laws.antt =====
-- What ramping in and out does with the value of the coins.
use congenial_giggle.Common.{
  ℕ, ◌≡◌, ◌≢◌, refl, subst, ap, true, false, List, [], ◌∷◌, Option, none, some, ok, All, is_empty,
  Bool-cases, inl, inr,
}
use congenial_giggle.Common.Int.{ℤ, pos, ◌+ℤ◌, ◌-ℤ◌, eq_ℤ, eq_ℤ_iff, ltb_ℤ, int_laws}
use congenial_giggle.Common.Results.{parts_ok, thrown, ok_injective}
use congenial_giggle.Extension.Asset.Hex.{Text}
use congenial_giggle.Arkfee.{Floats, Estimator}
use congenial_giggle.Wallet.Ramps.{
  SettleParams, ExtendedCoin, ExtendedVirtualCoin, filter_paying, total_amount, change_of,
  amount_or, outputs_with, deduct_fee, boarding_fee, vtxo_fee, onboard_fee, offboard_fee, onboard,
  destination_script, network_names, script_or_throw, offboard,
}

abbrev pub sum {ℓ} : {A : Type ℓ} → (A → ℤ) → List A → ℤ
sum f [] = pos 0
sum f (x ∷ xs) = f x +ℤ sum f xs

-- The value of the inputs goes to the outputs and the fees, every input is worth more than its
-- fee, and no output has a negative amount.
pub record IsBalanced {ℓ} {Coin : Type ℓ} (value fee : Coin → ℤ) (output_fee : ℤ)
    (p : SettleParams Coin) : Type 0 where
  pub balance :
      sum value p.inputs ≡ sum (λ o. o.amount) p.outputs +ℤ (sum fee p.inputs +ℤ output_fee)
  pub paying : All (λ c. ltb_ℤ (fee c) (value c) ≡ true) p.inputs
  pub natural : All (λ o. ltb_ℤ o.amount (pos 0) ≡ false) p.outputs

add_step :
    (t' f' v' t v f : ℤ) → t' +ℤ f' ≡ (t +ℤ (v -ℤ f)) +ℤ v' → t' +ℤ (f +ℤ f') ≡ t +ℤ (v +ℤ v')
add_step t' f' v' t v f h = grind int_laws

with_fee :
    (v f amount change fee : ℤ)
    → v ≡ f +ℤ (amount +ℤ change)
    → v ≡ ((amount -ℤ fee) +ℤ change) +ℤ (f +ℤ fee)
with_fee v f amount change fee h = grind int_laws

total_eq :
    (t f v amount change : ℤ)
    → t +ℤ f ≡ pos 0 +ℤ v
    → amount +ℤ change ≡ t
    → v ≡ f +ℤ (amount +ℤ change)
total_eq t f v amount change h k = grind int_laws

-- An amount of zero apart, the amount and the change make up the total.
change_of-ok :
    (amount : Option ℤ) (total change : ℤ)
    → amount ≢ some (pos 0)
    → change_of amount total ≡ ok change
    → (amount_or amount total +ℤ change ≡ total) × (ltb_ℤ change (pos 0) ≡ false)
unfolding change_of
change_of-ok none total change h c =
    (grind (int_laws, ok_injective c), grind (int_laws, ok_injective c))
change_of-ok (some a) total change h c = elim (Bool-cases (eq_ℤ a (pos 0))) [
  | inl e ↦ absurd (h (ap some ((eq_ℤ_iff a (pos 0)).0 e)))
  | inr e ↦
      let c' = rw e at c in
      elim (Bool-cases (ltb_ℤ total a)) [
        | inl above ↦ absurd (thrown (rw above at c'))
        | inr within ↦
            let d : total -ℤ a ≡ change = ok_injective (rw within at c') in
            (grind int_laws, grind int_laws)
      ]
]

module _ {ℓ} {Coin : Type ℓ} (value : Coin → ℤ) (fee : Coin → ℤ) where
  total_amount_lem :
      (total : ℤ) (coins : List Coin)
      → total_amount value fee total coins +ℤ sum fee (filter_paying value fee coins)
        ≡ total +ℤ sum value (filter_paying value fee coins)
  unfolding total_amount filter_paying
  total_amount_lem total [] = refl
  total_amount_lem total (coin ∷ coins) = elim (Bool-cases (ltb_ℤ (fee coin) (value coin))) [
    | inl e ↦ rw e (
        add_step (total_amount value fee (total +ℤ (value coin -ℤ fee coin)) coins)
          (sum fee (filter_paying value fee coins)) (sum value (filter_paying value fee coins))
          total (value coin) (fee coin)
          (total_amount_lem (total +ℤ (value coin -ℤ fee coin)) coins))
    | inr e ↦ rw e (total_amount_lem total coins)
  ]

  filter_paying-lt :
      (coins : List Coin)
      → All (λ c. ltb_ℤ (fee c) (value c) ≡ true) (filter_paying value fee coins)
  unfolding filter_paying
  filter_paying-lt [] = tt
  filter_paying-lt (coin ∷ coins) = elim (Bool-cases (ltb_ℤ (fee coin) (value coin))) [
    | inl e ↦ rw e (e, filter_paying-lt coins)
    | inr e ↦ rw e (filter_paying-lt coins)
  ]

  sum-outputs_with :
      (address change_address : Text) (amount change : ℤ)
      → ltb_ℤ change (pos 0) ≡ false
      → sum (λ o. o.amount) (outputs_with address amount change_address change) ≡ amount +ℤ change
  sum-outputs_with address change_address amount change h =
      elim (Bool-cases (ltb_ℤ (pos 0) change)) [
        | inl e ↦ rw e (grind int_laws)
        | inr e ↦ rw e (grind int_laws)
      ]

  outputs_with-natural :
      (address change_address : Text) (amount change : ℤ)
      → ltb_ℤ amount (pos 0) ≡ false
      → ltb_ℤ change (pos 0) ≡ false
      → All
          (λ o. ltb_ℤ o.amount (pos 0) ≡ false)
          (outputs_with address amount change_address change)
  outputs_with-natural address change_address amount change h k =
      elim (Bool-cases (ltb_ℤ (pos 0) change)) [ inl e ↦ rw e (h, (k, tt)) | inr e ↦ rw e (h, tt) ]

  deducted :
      (output_fee : ℤ → ℤ) (coins : List Coin) (address change_address : Text) (amount change : ℤ)
      (p : SettleParams Coin)
      → sum value coins ≡ sum fee coins +ℤ (amount +ℤ change)
      → ltb_ℤ change (pos 0) ≡ false
      → All (λ c. ltb_ℤ (fee c) (value c) ≡ true) coins
      → deduct_fee output_fee coins address change_address amount change ≡ ok p
      → IsBalanced value fee (output_fee amount) p
  deducted output_fee coins address change_address amount change p total natural paying h =
      elim (Bool-cases (ltb_ℤ amount (output_fee amount))) [
        | inl e ↦ absurd (thrown (rw e at h))
        | inr e ↦
            subst (λ q. IsBalanced value fee (output_fee amount) q) (ok_injective (rw e at h))
              (record {
                balance =
                    rw
                      (sum-outputs_with address change_address (amount -ℤ output_fee amount) change
                        natural)
                      (with_fee (sum value coins) (sum fee coins) amount change (output_fee amount)
                        total);
                paying = paying;
                natural =
                    outputs_with-natural address change_address (amount -ℤ output_fee amount) change
                      (grind int_laws) natural;
              })
      ]

  deduct_fee-IsBalanced :
      (output_fee : ℤ → ℤ) (coins : List Coin) (address change_address : Text) (amount : Option ℤ)
      (change : ℤ) (p : SettleParams Coin)
      → amount ≢ some (pos 0)
      → change_of amount (total_amount value fee (pos 0) coins) ≡ ok change
      → deduct_fee output_fee
          (filter_paying value fee coins)
          address
          change_address
          (amount_or amount (total_amount value fee (pos 0) coins))
          change
        ≡ ok p
      → IsBalanced value fee
          (output_fee (amount_or amount (total_amount value fee (pos 0) coins)))
          p
  deduct_fee-IsBalanced output_fee coins address change_address amount change p h c d =
      let total = total_amount value fee (pos 0) coins in
      let (sums, natural) = change_of-ok amount total change h c in
      deducted output_fee (filter_paying value fee coins) address change_address
        (amount_or amount total) change p
        (total_eq total _ _ (amount_or amount total) change (total_amount_lem (pos 0) coins) sums)
        natural (filter_paying-lt coins) d

module _ (floats : Floats) (estimator : Estimator floats) where
  -- `onboard` of no amount, or of one that is not zero: what it hands to `settle` is balanced. The
  -- value of the inputs goes to the outputs and the fees, that of the output at the amount asked for
  -- or at all that is left of the coins; each input is worth more than its fee, and no output is
  -- negative.
  pub onboard-IsBalanced :
      (address script boarding_address : Text) (utxos : List ExtendedCoin) (amount : Option ℤ)
      (p : SettleParams ExtendedCoin)
      → amount ≢ some (pos 0)
      → onboard floats estimator address script boarding_address utxos amount ≡ ok p
      → IsBalanced
          (λ u. u.value)
          (boarding_fee floats estimator)
          (onboard_fee floats estimator script (
            amount_or amount
              (total_amount (λ u. u.value) (boarding_fee floats estimator) (pos 0) utxos)))
          p
  unfolding onboard
  onboard-IsBalanced address script boarding_address utxos amount p h e =
      elim (Bool-cases
        (is_empty (filter_paying (λ u. u.value) (boarding_fee floats estimator) utxos))) [
          | inl empty ↦ absurd (thrown (rw empty at e))
          | inr some_left ↦
              let (change, c, d) = parts_ok (change_of amount _) _ (rw some_left at e) in
              deduct_fee-IsBalanced (λ u. u.value) (boarding_fee floats estimator)
                (onboard_fee floats estimator script) utxos address boarding_address amount change p
                h c d
        ]

  -- An amount of zero, where the output costs no fee: whatever the coins are worth, the only output
  -- has the amount zero.
  pub onboard-zero :
      (address script boarding_address : Text) (utxos : List ExtendedCoin)
      → onboard_fee floats estimator script (pos 0) ≡ pos 0
      → is_empty (filter_paying (λ u. u.value) (boarding_fee floats estimator) utxos) ≡ false
      → onboard floats estimator address script boarding_address utxos (some (pos 0))
        ≡ ok (record {
          inputs = filter_paying (λ u. u.value) (boarding_fee floats estimator) utxos;
          outputs = record { address = address; amount = pos 0 } ∷ [];
        })
  unfolding onboard change_of ◌-ℤ◌
  onboard-zero address script boarding_address utxos free some_left = rw (some_left, free) refl

  script_or_throw-ok :
      (o : Option Text) (script : Text)
      → script_or_throw floats estimator o ≡ ok script
      → o ≡ some script
  script_or_throw-ok none script h = cc
  script_or_throw-ok (some s) script h = cc

  -- `offboard` of no amount, or of one that is not zero: the destination decodes in one of the
  -- networks, and what is handed to `settle` is balanced: the value of the inputs goes to the outputs
  -- and the fees, that of the output at the destination's script, each input is worth more than its
  -- fee, and no output is negative.
  pub offboard-IsBalanced :
      (decode : ℕ → Text → Option Text) (destination own_address : Text)
      (vtxos : List ExtendedVirtualCoin) (amount : Option ℤ) (p : SettleParams ExtendedVirtualCoin)
      → amount ≢ some (pos 0)
      → offboard floats estimator decode destination own_address vtxos amount ≡ ok p
      → (script : Text) × (destination_script floats estimator decode
            (network_names floats estimator)
            destination
          ≡ some script)
        × IsBalanced
            (λ c. c.value)
            (vtxo_fee floats estimator)
            (offboard_fee floats estimator script (
              amount_or amount
                (total_amount (λ c. c.value) (vtxo_fee floats estimator) (pos 0) vtxos)))
            p
  unfolding offboard
  offboard-IsBalanced decode destination own_address vtxos amount p h e =
      elim (Bool-cases
        (is_empty (filter_paying (λ c. c.value) (vtxo_fee floats estimator) vtxos))) [
          | inl empty ↦ absurd (thrown (rw empty at e))
          | inr some_left ↦
              let (change, c, e') = parts_ok (change_of amount _) _ (rw some_left at e) in
              let (script, s, d) = parts_ok (script_or_throw floats estimator _) _ e' in
              (
                script,
                script_or_throw-ok _ script s,
                deduct_fee-IsBalanced (λ c. c.value) (vtxo_fee floats estimator)
                    (offboard_fee floats estimator script) vtxos destination own_address amount
                    change p h c d,
              )
        ]
