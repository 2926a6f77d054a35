-- ===== src/Wallet/Asset/Laws.antt =====
-- The chosen coins are enough, and the change is what is over.
use congenial_giggle.Common.{
  filter, ◌≡◌, refl, sym, ap, subst, ◌∙◌, ◌⊎◌, inl, inr, append-nil, arith, true, false, List, [],
  ◌∷◌, ◌++◌, Option, none, some, ok, err, if◌then◌else◌, if_elim, Bool-cases,
}
use mathlib.Core.List.{Permᴰ}
use congenial_giggle.Common.Int.{ℤ, pos, ◌+ℤ◌, ◌-ℤ◌, ltb_ℤ, int_laws}
use congenial_giggle.Common.Sets.{IsNew, IsDistinct}
use congenial_giggle.Common.Dict.{Dict, get, set, keys}
use congenial_giggle.Common.Sorting.{sort, sort-Perm}
use congenial_giggle.Extension.Asset.Hex.{Text}
use congenial_giggle.Extension.Asset.Packet.{same_text}
use congenial_giggle.Extension.Asset.Packet.Laws.{same_text_iff}
use congenial_giggle.Utils.TransactionHistory.{VirtualCoin, or_zero}
use congenial_giggle.Utils.TransactionHistory.Assets.{get-set}
use congenial_giggle.Wallet.Asset.{
  insufficient, amount_of_coin, has_asset, is_smaller, Selection, select_loop, coins_with_asset,
  select_coins_with_asset, change_loop, compute_asset_change,
}

abbrev pub sum_of : Text → List VirtualCoin → ℤ
sum_of id [] = pos 0
sum_of id (coin ∷ coins) = amount_of_coin id coin +ℤ sum_of id coins

-- The selection is the beginning of a list of coins, its total is their sum on top of another, and
-- if that is not enough, there are no more coins.
record Selects (id : Text) (required : ℤ) (coins : List VirtualCoin) (total : ℤ) (s : Selection)
    : Type 0 where
  adds_up : s.total_asset_amount ≡ total +ℤ sum_of id s.selected
  left : List VirtualCoin
  begins : coins ≡ s.selected ++ left
  all_taken : ltb_ℤ s.total_asset_amount required ≡ true → left ≡ []

select_loop-Selects :
    (id : Text) (required : ℤ) (coins : List VirtualCoin) (total : ℤ)
    → Selects id required coins total (select_loop id required coins total)
unfolding select_loop
select_loop-Selects id required [] total = record {
  adds_up = grind int_laws;
  left = [];
  begins = refl;
  all_taken = λ _. refl;
}
select_loop-Selects id required (coin ∷ coins) total =
    let next = total +ℤ amount_of_coin id coin in
    let rest = select_loop-Selects id required coins next in
    let sum = rest.adds_up in
    if_elim (Selects id required (coin ∷ coins) total) (ltb_ℤ total required)
      (λ short. record {
        adds_up = grind int_laws;
        left = rest.left;
        begins = ap (λ l. coin ∷ l) rest.begins;
        all_taken = rest.all_taken;
      })
      (λ enough. record {
        adds_up = grind int_laws;
        left = coin ∷ coins;
        begins = refl;
        all_taken = λ short. absurd (cc);
      })

sum_of-Perm :
    (id : Text) {coins others : List VirtualCoin}
    → Permᴰ coins others
    → sum_of id coins ≡ sum_of id others
sum_of-Perm id Permᴰ.nil = refl
sum_of-Perm id (Permᴰ.cons {b = b} {l₁ = l} e d) =
    ap (λ c. amount_of_coin id c +ℤ sum_of id l) e
    ∙ ap (λ s. amount_of_coin id b +ℤ s) (sum_of-Perm id d)
sum_of-Perm id (Permᴰ.swap {a} {b} {a'} {b'} {l} e f) =
    let first = ap (amount_of_coin id) e in let second = ap (amount_of_coin id) f in grind int_laws
sum_of-Perm id (Permᴰ.trans d d') = sum_of-Perm id d ∙ sum_of-Perm id d'

-- Where coins are selected, their amounts sum up to the total, which is at least what is required;
-- and where none are, all the coins that have the asset together are worth less than that.
pub select_coins_with_asset-cases :
    (coins : List VirtualCoin) (id : Text) (required : ℤ)
    → ((s : Selection) × (select_coins_with_asset coins id required ≡ ok s)
        × (s.total_asset_amount ≡ sum_of id s.selected)
        × (ltb_ℤ s.total_asset_amount required ≡ false))
      ⊎ ((have : ℤ) × (select_coins_with_asset coins id required ≡ err (insufficient have required))
          × (have ≡ sum_of id (filter (has_asset id) coins))
          × (ltb_ℤ have required ≡ true))
unfolding select_coins_with_asset coins_with_asset
select_coins_with_asset-cases coins id required =
    let sorted = sort (is_smaller id) (filter (has_asset id) coins) in
    let s = select_loop id required sorted (pos 0) in
    let selects = select_loop-Selects id required sorted (pos 0) in
    let sum = selects.adds_up in
    elim (Bool-cases (ltb_ℤ s.total_asset_amount required)) [
      | inr enough ↦ inl (s, rw (select_coins_with_asset, enough) refl, grind int_laws, enough)
      | inl short ↦
          let taken : sorted ≡ s.selected =
            selects.begins
            ∙ ap (λ l. s.selected ++ l) (selects.all_taken short)
            ∙ append-nil s.selected in
          let whole : sum_of id (filter (has_asset id) coins) ≡ sum_of id s.selected =
            sum_of-Perm id (sort-Perm (is_smaller id) (filter (has_asset id) coins))
            ∙ ap (sum_of id) taken in
          inr
            (s.total_asset_amount, rw (select_coins_with_asset, short) refl, grind int_laws, short)
    ]

-- The change of one asset, of which so much goes in and out.
abbrev pub change_of : Option ℤ → ℤ → Option ℤ
change_of none output_amount = none
change_of (some amount) output_amount =
    if ltb_ℤ (pos 0) (amount -ℤ output_amount) then some (amount -ℤ output_amount) else none

-- The change after one round of the loop.
abbrev round : ℤ → Text → Dict Text ℤ → Dict Text ℤ
round amount k change = if ltb_ℤ (pos 0) amount then set same_text k amount change else change

get-round :
    (amount : ℤ) (k : Text) (change : Dict Text ℤ) (id : Text)
    → get same_text id (round amount k change) ≡ (
        if same_text id k
        then if ltb_ℤ (pos 0) amount then some amount else get same_text id change
        else get same_text id change)
get-round amount k change id = ground (arith, get-set id k amount change)

get-new : (id : Text) (d : Dict Text ℤ) → IsNew id (keys d) → get same_text id d ≡ none
get-new id [] h = refl
get-new id ((k, a) ∷ d) h = ground (arith, same_text_iff id k, get-new id d h.1)

module _ (outputs : Dict Text ℤ) (id : Text) where
  rest_of :
      (k : Text) (a : ℤ) (inputs : Dict Text ℤ)
      → get same_text id ((k, a) ∷ inputs) ≡ none
      → (same_text id k ≡ false) × (get same_text id inputs ≡ none)
  rest_of k a inputs e = ground arith

  change_loop_other :
      (inputs change : Dict Text ℤ)
      → get same_text id inputs ≡ none
      → get same_text id (change_loop outputs inputs change) ≡ get same_text id change
  unfolding change_loop
  change_loop_other [] change e = refl
  change_loop_other ((k, a) ∷ inputs) change e =
      let amount = a -ℤ or_zero (get same_text k outputs) in
      let (apart, missing) = rest_of k a inputs e in
      change_loop_other inputs (round amount k change) missing
      ∙ get-round amount k change id
      ∙ rw apart refl

  get-change_loop :
      (inputs change : Dict Text ℤ)
      → IsDistinct (keys inputs)
      → get same_text id change ≡ none
      → get same_text id (change_loop outputs inputs change)
        ≡ change_of (get same_text id inputs) (or_zero (get same_text id outputs))
  unfolding change_loop
  get-change_loop [] change d e = e
  get-change_loop ((k, a) ∷ inputs) change (new, d) e =
      let amount = a -ℤ or_zero (get same_text k outputs) in
      let step = get-round amount k change id in
      elim (Bool-cases (same_text id k)) [
        | inl same_key ↦
            let equal = (same_text_iff id k).0 same_key in
            let gone : get same_text id inputs ≡ none =
              subst (λ x. get same_text x inputs ≡ none) (sym equal) (get-new k inputs new) in
            change_loop_other inputs (round amount k change) gone
            ∙ step
            ∙ subst
                (λ x.
                  (if same_text id x
                    then if ltb_ℤ (pos 0) (a -ℤ or_zero (get same_text x outputs))
                      then some (a -ℤ or_zero (get same_text x outputs))
                      else get same_text id change
                    else get same_text id change)
                  ≡ change_of (if same_text id x then some a else get same_text id inputs)
                      (or_zero (get same_text id outputs)))
                equal (rw ((same_text_iff id id).1 refl, e) refl)
        | inr apart ↦
            let kept : get same_text id (round amount k change) ≡ none = step ∙ rw apart e in
            get-change_loop inputs (round amount k change) d kept ∙ rw apart refl
      ]

-- Of every asset, the change is what goes in less what goes out, where that is positive; of every
-- other asset there is none.
pub get-compute_asset_change :
    (input_assets output_assets : Dict Text ℤ) (id : Text)
    → IsDistinct (keys input_assets)
    → get same_text id (compute_asset_change input_assets output_assets)
      ≡ change_of (get same_text id input_assets) (or_zero (get same_text id output_assets))
unfolding compute_asset_change
get-compute_asset_change inputs outputs id d = get-change_loop outputs id inputs [] d refl
