-- ===== src/Musig2.antt =====
-- packages/ts-sdk/src/musig2/keys.ts. The functions of @scure/btc-signer and @noble/curves are a
-- parameter; points are their compressed bytes.
use congenial_giggle.Common.{ℕ, Bool, List, [], ◌∷◌, Option, none, some, drop, bind, if◌then◌else◌}

-- `none` is a throw of the package.
pub record Musig : Type 0 where
  pub sort_keys : List (List ℕ) → Option (List (List ℕ))
  pub key_aggregate : List (List ℕ) → List (List ℕ) → Option (List ℕ)
  pub tap_tweak : List ℕ → List ℕ → List ℕ

pub record AggregateKey : Type 0 where
  pub pre_tweaked_key : List ℕ
  pub final_key : List ℕ

-- The rest of `aggregateKeys`, with the keys in their order.
unfoldable pub aggregate_sorted : Musig → List (List ℕ) → Option (List ℕ) → Option AggregateKey
aggregate_sorted m public_keys taproot_tweak =
    bind (m.key_aggregate public_keys []) λ pre_tweaked_key. elim taproot_tweak [
      | none ↦ some (record { pre_tweaked_key = pre_tweaked_key; final_key = pre_tweaked_key })
      | some root ↦
          let tweak = m.tap_tweak (drop 1 pre_tweaked_key) root in
          bind (m.key_aggregate public_keys (tweak ∷ []))
            λ final_key. some (record { pre_tweaked_key = pre_tweaked_key; final_key = final_key })
    ]

unfoldable pub aggregate_keys : Musig → List (List ℕ) → Bool → Option (List ℕ) → Option AggregateKey
unfolding aggregate_sorted
aggregate_keys m public_keys sort taproot_tweak =
    bind (if sort then m.sort_keys public_keys else some public_keys)
      λ keys. aggregate_sorted m keys taproot_tweak
