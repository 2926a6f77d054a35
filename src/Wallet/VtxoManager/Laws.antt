-- ===== src/Wallet/VtxoManager/Laws.antt =====
-- What is recovered and what is renewed.
use congenial_giggle.Common.{
  filter, ℕ, ◌+◌, ◌≤◌, ◌≡◌, refl, sym, ◌⊎◌, inl, inr, arith, Bool, true, false, ◌&&◌, not, List, [],
  ◌∷◌, Option, ok, err, ltb, leb, if◌then◌else◌, is_empty, Bool-cases,
}
use congenial_giggle.Common.Results.{if_ok}
use congenial_giggle.Extension.Asset.Hex.{Text}
use congenial_giggle.Wallet.Ramps.{SettleParams}
use congenial_giggle.Wallet.VtxoManager.{
  Vtxo, nothing_to_recover, SettlementConfig, settle_all, sum_values, is_subdust, should_recover,
  should_renew, get_recoverable_vtxos, get_recoverable_with_subdust, recover_vtxos, renew_vtxos,
  get_expiring_vtxos, renewal_threshold, get_expiring_and_recoverable_vtxos,
}

-- Coins split by a test have the value of the whole.
sum_values-split :
    (p : Vtxo → Bool) (vtxos : List Vtxo)
    → sum_values (filter (λ v. not (p v)) vtxos) + sum_values (filter p vtxos) ≡ sum_values vtxos
sum_values-split p [] = refl
sum_values-split p (v ∷ vtxos) = ground (arith, sum_values-split p vtxos)

-- A list of coins that are no dust is empty or worth the dust amount.
regular_cases :
    (dust : ℕ) (vtxos : List Vtxo)
    → (filter (λ v. not (is_subdust dust v)) vtxos ≡ [])
      ⊎ (dust ≤ sum_values (filter (λ v. not (is_subdust dust v)) vtxos))
unfolding is_subdust
regular_cases dust [] = inl refl
regular_cases dust (v ∷ vtxos) = elim (Bool-cases (ltb v.value dust)) [
  | inl dusty ↦ rw dusty (regular_cases dust vtxos)
  | inr regular ↦ rw regular (inr (ground arith))
]

-- The recovery takes all coins or none: without the dust it takes none.
chosen_coins :
    (dust : ℕ) (coins : List Vtxo)
    → let regular = filter (λ v. not (is_subdust dust v)) coins in
      let subdust = filter (is_subdust dust) coins in
      (if leb dust (sum_values regular + sum_values subdust) then coins else regular)
      ≡ (if leb dust (sum_values coins) then coins else [])
chosen_coins dust coins =
    let whole = sum_values-split (is_subdust dust) coins in
    elim (Bool-cases (leb dust (sum_values coins))) [
      | inl rich ↦ rw (whole, rich) refl
      | inr poor ↦ elim (regular_cases dust coins) [
        | inl no_regular ↦ rw (whole, poor, no_regular) refl
        | inr enough ↦ ground (arith, whole, enough, poor)
      ]
    ]

settled_coins :
    (address : Text) (rich : Bool) (coins : List Vtxo)
    → let taken = if rich then coins else [] in
      (if is_empty taken
        then err nothing_to_recover
        else ok (settle_all address taken (sum_values taken)))
      ≡ (if not (is_empty coins) && rich
          then ok (settle_all address coins (sum_values coins))
          else err nothing_to_recover)
settled_coins address true [] = refl
settled_coins address false [] = refl
settled_coins address true (v ∷ coins) = refl
settled_coins address false (v ∷ coins) = refl

-- A weaker test keeps at least the value.
sum_values_mono :
    (p q : Vtxo → Bool) (weaker : (v : Vtxo) → p v ≡ true → q v ≡ true) (vtxos : List Vtxo)
    → sum_values (filter p vtxos) ≤ sum_values (filter q vtxos)
sum_values_mono p q weaker [] = ground arith
sum_values_mono p q weaker (v ∷ vtxos) =
    let rest = sum_values_mono p q weaker vtxos in
    elim (Bool-cases (p v)) [
      | inl kept ↦ rw (kept, weaker v kept) (ground (arith, rest))
      | inr left_out ↦ rw left_out (ground (arith, rest))
    ]

-- A weaker test keeps something where the other does.
is_empty_mono :
    (p q : Vtxo → Bool) (weaker : (v : Vtxo) → p v ≡ true → q v ≡ true) (vtxos : List Vtxo)
    → is_empty (filter p vtxos) ≡ false
    → is_empty (filter q vtxos) ≡ false
is_empty_mono p q weaker [] kept_some = absurd cc
is_empty_mono p q weaker (v ∷ vtxos) kept_some = elim (Bool-cases (p v)) [
  | inl kept ↦ rw (weaker v kept) refl
  | inr left_out ↦
      let rest_left = is_empty_mono p q weaker vtxos (rw left_out at kept_some) in
      ground (arith, rest_left)
]

all_or_none :
    (address : Text) (dust : ℕ) (coins : List Vtxo) (recovery : SettleParams Vtxo)
    → (if not (is_empty coins) && leb dust (sum_values coins)
        then ok (settle_all address coins (sum_values coins))
        else err nothing_to_recover)
      ≡ ok recovery
    → (is_empty coins ≡ false)
      × (dust ≤ sum_values coins)
      × (settle_all address coins (sum_values coins) ≡ recovery)
all_or_none address dust coins recovery settled =
    let (some_rich, whole) = if_ok _ _ nothing_to_recover settled in
    (ground (arith, some_rich), ground (arith, some_rich), whole)

module _ (before_2025 : ℕ → Bool) (now : ℕ) where
  -- `recoverVtxos` recovers all coins that can be recovered or none: all where they are together
  -- worth the dust amount, to one output of their value; and where they are not, or there are none,
  -- it throws, although it would leave the coins below the dust amount out.
  pub recover_vtxos-cases :
      (address : Text) (vtxos : List Vtxo) (dust : ℕ)
      → let coins = filter (should_recover before_2025 now dust) vtxos in
        recover_vtxos before_2025 now address vtxos dust ≡ (
          if not (is_empty coins) && leb dust (sum_values coins)
          then ok (settle_all address coins (sum_values coins))
          else err nothing_to_recover)
  unfolding recover_vtxos get_recoverable_with_subdust get_recoverable_vtxos
  recover_vtxos-cases address vtxos dust =
      let coins = filter (should_recover before_2025 now dust) vtxos in
      rw (chosen_coins dust coins) (settled_coins address (leb dust (sum_values coins)) coins)

  -- A coin to recover is one to renew.
  renew-recover :
      (threshold_ms dust : ℕ) (v : Vtxo)
      → should_recover before_2025 now dust v ≡ true
      → should_renew before_2025 now threshold_ms dust v ≡ true
  unfolding should_recover should_renew
  renew-recover threshold_ms dust v recovered = ground (arith, recovered)

  -- What `recoverVtxos` would take, `renewVtxos` takes too: where no renewal is in progress and the
  -- coins and the dust amount are the same, a recovery that is handed to `settle` has a renewal that
  -- is handed to it as well, to the same address and with at least the amount, whatever the settings.
  pub renew-recover_vtxos :
      (address : Text) (config : Option SettlementConfig) (vtxos : List Vtxo) (dust : ℕ)
      (recovery : SettleParams Vtxo)
      → recover_vtxos before_2025 now address vtxos dust ≡ ok recovery
      → (coins : List Vtxo) × (renew_vtxos before_2025 now address config false vtxos dust
          ≡ ok (settle_all address coins (sum_values coins)))
        × (recovery ≡ settle_all address recovery.inputs (sum_values recovery.inputs))
        × (sum_values recovery.inputs ≤ sum_values coins)
  unfolding renew_vtxos get_expiring_vtxos get_expiring_and_recoverable_vtxos
  renew-recover_vtxos address config vtxos dust recovery settled =
      let threshold_ms = renewal_threshold config in
      let p = should_recover before_2025 now dust in
      let q = should_renew before_2025 now threshold_ms dust in
      let weaker = renew-recover threshold_ms dust in
      let (kept, rich, whole) =
        all_or_none address dust (filter p vtxos) recovery
          (rw (sym (recover_vtxos-cases address vtxos dust)) settled) in
      let less : sum_values (filter p vtxos) ≤ sum_values (filter q vtxos) =
        sum_values_mono p q weaker vtxos in
      let some_left : is_empty (filter q vtxos) ≡ false = is_empty_mono p q weaker vtxos kept in
      let rich_too : ltb (sum_values (filter q vtxos)) dust ≡ false = ground (arith, less, rich) in
      (filter q vtxos, rw (some_left, rich_too) refl, rw (sym whole) refl, rw (sym whole) less)
