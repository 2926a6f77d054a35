-- ===== src/Extension/Asset/Metadata/Merkle.antt =====
-- packages/ts-sdk/src/extension/asset/metadata.ts: the Merkle tree of a metadata list. The tagged
-- hash of @noble/curves and `compareBytes` of @scure/btc-signer are not part of the repository.
use congenial_giggle.Common.{
  ℕ, zero, suc, ◌≡◌, ◌≢◌, ◌-◌, List, [], ◌∷◌, Option, none, some, ok, err, ltb, if◌then◌else◌,
  length,
}
use congenial_giggle.Common.Int.{ℤ, negsuc, eq_ℤ}
use congenial_giggle.Extension.Errors.{Throws, missing_metadata_list}
use congenial_giggle.Extension.Bytes.{Writer, ◌>>◌, to_bytes, write_byte, write_var_slice}
use congenial_giggle.Extension.Asset.Metadata.{Metadata}

pub data Tag : Type 0 where
  ark_leaf_tag ark_branch_tag : Tag

abbrev pub ark_leaf_version : ℕ
ark_leaf_version = 0

-- `taggedHash(tag, ...messages)`, and `compareBytes`, which is -1 for the smaller of two different
-- byte strings on the left, and 1 or 0 else.
pub record Hashing : Type 0 where
  pub tagged_hash : Tag → List (List ℕ) → List ℕ
  pub compare_bytes : List ℕ → List ℕ → ℤ
  pub compare_asymmetric :
      (a b : List ℕ) → compare_bytes a b ≡ negsuc 0 → compare_bytes b a ≢ negsuc 0
  pub compare_total :
      (a b : List ℕ) → compare_bytes a b ≢ negsuc 0 → compare_bytes b a ≢ negsuc 0 → a ≡ b

unfoldable pub leaf_message : Metadata → Writer
leaf_message md = do write_byte ark_leaf_version; write_var_slice md.key; write_var_slice md.value

-- `levels[i]`, undefined past the end.
unfoldable pub get_elem? {ℓ} : {A : Type ℓ} → List A → ℕ → Option A
get_elem? [] i = none
get_elem? (x ∷ xs) zero = some x
get_elem? (x ∷ xs) (suc i) = get_elem? xs i

-- `levels[levels.length - 1][0]`, where undefined is `none`.
unfoldable pub root_of_levels : List (List (List ℕ)) → Option (List ℕ)
root_of_levels levels = elim (get_elem? levels (length levels - 1)) [
  | none ↦ none
  | some level ↦ get_elem? level 0
]

module _ (hashing : Hashing) where
  unfoldable pub leaf_hash : Metadata → Throws (List ℕ)
  leaf_hash md = elim (to_bytes (leaf_message md)) [
    | ok bytes ↦ ok (hashing.tagged_hash ark_leaf_tag (bytes ∷ []))
    | err e ↦ err e
  ]

  -- `leaves.map(computeMetadataLeafHash)`
  unfoldable pub leaf_hashes : List Metadata → Throws (List (List ℕ))
  leaf_hashes [] = ok []
  leaf_hashes (md ∷ leaves) = elim (leaf_hash md) [
    | ok h ↦ elim (leaf_hashes leaves) [ ok hs ↦ ok (h ∷ hs) | err e ↦ err e ]
    | err e ↦ err e
  ]

  unfoldable pub branch_hash : List ℕ → List ℕ → List ℕ
  branch_hash a b =
      if eq_ℤ (hashing.compare_bytes a b) (negsuc 0)
      then hashing.tagged_hash ark_branch_tag (a ∷ b ∷ [])
      else hashing.tagged_hash ark_branch_tag (b ∷ a ∷ [])

  -- The inner loop: hashes in pairs, and one left over as it is.
  unfoldable pub next_level : List (List ℕ) → List (List ℕ)
  next_level [] = []
  next_level (a ∷ []) = a ∷ []
  next_level (a ∷ b ∷ current) = branch_hash a b ∷ next_level current

  -- `while (current.length > 1)`: the levels that are pushed. A level is shorter than the one below
  -- it, so as many rounds as there are leaves are enough.
  unfoldable pub upper_levels : ℕ → List (List ℕ) → List (List (List ℕ))
  upper_levels zero current = []
  upper_levels (suc fuel) current =
      let next = next_level current in
      let above = upper_levels fuel next in
      let more : List (List (List ℕ)) = next ∷ above in if ltb 1 (length current) then more else []

  unfoldable pub build_tree : List Metadata → Throws (List (List (List ℕ)))
  build_tree [] = ok []
  build_tree (md ∷ leaves) = elim (leaf_hashes (md ∷ leaves)) [
    | ok hashes ↦ ok (hashes ∷ upper_levels (length hashes) hashes)
    | err e ↦ err e
  ]

  unfoldable pub hash : List Metadata → Throws (Option (List ℕ))
  hash [] = err missing_metadata_list
  hash (md ∷ items) = elim (build_tree (md ∷ items)) [
    | ok levels ↦ ok (root_of_levels levels)
    | err e ↦ err e
  ]
