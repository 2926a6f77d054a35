-- ===== src/Extension/Asset/Metadata/Tree.antt =====
-- The root of the levels is the hash of a binary tree over the leaves, in their order.
use congenial_giggle.Common.{
  ℕ, zero, suc, ◌+◌, ◌≤◌, ◌-◌, ◌≡◌, refl, sym, ap, ◌∙◌, arith, List, [], ◌∷◌, ◌++◌, some, ok, ltb,
  length, append_assoc, append-nil, map, length-map, true,
}
use congenial_giggle.Common.Int.{negsuc, eq_ℤ_iff}
use congenial_giggle.Extension.Bytes.Laws.{Writes-then, Writes-write_byte, to_bytes-Writes}
use congenial_giggle.Extension.Bytes.VarUint.{Writes-write_var_slice}
use congenial_giggle.Extension.Asset.Metadata.{Metadata}
use congenial_giggle.Extension.Asset.Metadata.Laws as MetadataLaws
use congenial_giggle.Extension.Asset.Metadata.Merkle.{
  Hashing, ark_leaf_tag, leaf_message, get_elem?, leaf_hash, leaf_hashes, branch_hash, next_level,
  upper_levels, build_tree, root_of_levels, hash,
}

pub data Tree : Type 0 where
  leaf : List ℕ → Tree
  node : Tree → Tree → Tree

abbrev pub leaves_of : Tree → List (List ℕ)
leaves_of (leaf h) = h ∷ []
leaves_of (node l r) = leaves_of l ++ leaves_of r

abbrev all_leaves : List Tree → List (List ℕ)
all_leaves [] = []
all_leaves (t ∷ ts) = leaves_of t ++ all_leaves ts

-- Trees in pairs, as the hashes of a level.
pair_trees : List Tree → List Tree
pair_trees [] = []
pair_trees (a ∷ []) = a ∷ []
pair_trees (a ∷ b ∷ ts) = node a b ∷ pair_trees ts

pair_trees-leaves : (ts : List Tree) → all_leaves (pair_trees ts) ≡ all_leaves ts
unfolding pair_trees
pair_trees-leaves [] = refl
pair_trees-leaves (a ∷ []) = refl
pair_trees-leaves (a ∷ b ∷ ts) =
    append_assoc (leaves_of a) (leaves_of b) (all_leaves (pair_trees ts))
    ∙ ap (λ rest. leaves_of a ++ (leaves_of b ++ rest)) (pair_trees-leaves ts)

pair_trees_shorter :
    (ts : List Tree)
    → (length (pair_trees ts) ≤ length ts)
      × (length (pair_trees ts) + length (pair_trees ts) ≤ length ts + 1)
      × (length ts ≤ length (pair_trees ts) + length (pair_trees ts))
unfolding pair_trees
pair_trees_shorter [] = omega arith
pair_trees_shorter (a ∷ []) = omega arith
pair_trees_shorter (a ∷ b ∷ ts) = omega (arith, pair_trees_shorter ts)

-- The last of the levels `x ∷ xs`.
abbrev last_of {ℓ} : {A : Type ℓ} → A → List A → A
last_of x [] = x
last_of x (y ∷ ys) = last_of y ys

get_elem?-last {ℓ} :
    {A : Type ℓ} (x : A) (xs : List A)
    → get_elem? (x ∷ xs) (length (x ∷ xs) - 1) ≡ some (last_of x xs)
unfolding get_elem?
get_elem?-last x [] = refl
get_elem?-last x (y ∷ ys) =
    let less : suc (suc (length ys)) - 1 ≡ suc (suc (length ys) - 1) = omega arith in
    rw less (get_elem?-last y ys)

-- The root is the only hash of the last level.
root_of_levels-last :
    (level : List (List ℕ)) (levels : List (List (List ℕ))) {h : List ℕ}
    → last_of level levels ≡ h ∷ []
    → root_of_levels (level ∷ levels) ≡ some h
unfolding root_of_levels get_elem?
root_of_levels-last level levels e = rw (root_of_levels, get_elem?-last level levels, e)

all_leaves-leaf : (hs : List (List ℕ)) → all_leaves (map leaf hs) ≡ hs
all_leaves-leaf [] = refl
all_leaves-leaf (h ∷ hs) = ap (λ rest. h ∷ rest) (all_leaves-leaf hs)

module _ (hashing : Hashing) where
  -- The hash of a tree.
  abbrev pub tree_hash : Tree → List ℕ
  tree_hash (leaf h) = h
  tree_hash (node l r) = branch_hash hashing (tree_hash l) (tree_hash r)

  next_level-pair_trees :
      (ts : List Tree) → next_level hashing (map tree_hash ts) ≡ map tree_hash (pair_trees ts)
  unfolding next_level pair_trees
  next_level-pair_trees [] = refl
  next_level-pair_trees (a ∷ []) = refl
  next_level-pair_trees (a ∷ b ∷ ts) =
      ap (λ rest. tree_hash (node a b) ∷ rest) (next_level-pair_trees ts)

  -- The order of two children does not matter.
  pub branch_hash_comm : (a b : List ℕ) → branch_hash hashing a b ≡ branch_hash hashing b a
  unfolding branch_hash
  branch_hash_comm a b = ground (
    arith,
    eq_ℤ_iff (hashing.compare_bytes a b) (negsuc 0),
    eq_ℤ_iff (hashing.compare_bytes b a) (negsuc 0),
    hashing.compare_asymmetric a b,
    hashing.compare_total a b,
  )

  -- What stands for an entry at the leaves: the tagged hash of a version byte and its wire format.
  abbrev pub entry_hash : Metadata → List ℕ
  entry_hash md = hashing.tagged_hash ark_leaf_tag ((0 ∷ MetadataLaws.wire md) ∷ [])

  leaf_hash-entry_hash : (md : Metadata) → leaf_hash hashing md ≡ ok (entry_hash md)
  unfolding leaf_hash leaf_message
  leaf_hash-entry_hash md =
      let message = to_bytes-Writes (
        Writes-then (Writes-write_byte 0 (omega arith))
          (Writes-then (Writes-write_var_slice md.key) (Writes-write_var_slice md.value))) in
      rw (leaf_hash, leaf_message, message)

  leaf_hashes-entry_hash :
      (items : List Metadata) → leaf_hashes hashing items ≡ ok (map entry_hash items)
  unfolding leaf_hashes
  leaf_hashes-entry_hash [] = refl
  leaf_hashes-entry_hash (md ∷ items) =
      rw (leaf_hashes, leaf_hash-entry_hash md, leaf_hashes-entry_hash items)

  upper_levels-root :
      (fuel : ℕ) (t : Tree) (ts : List Tree)
      → length (t ∷ ts) ≤ fuel
      → (r : Tree) × (leaves_of r ≡ all_leaves (t ∷ ts))
        × (last_of (map tree_hash (t ∷ ts)) (upper_levels hashing fuel (map tree_hash (t ∷ ts)))
            ≡ tree_hash r ∷ [])
  unfolding upper_levels pair_trees
  upper_levels-root zero t ts h = absurd (omega arith)
  upper_levels-root (suc fuel) t [] h = (t, sym (append-nil (leaves_of t)), refl)
  upper_levels-root (suc fuel) a (b ∷ ts) h =
      let (r, leaves, root) =
        upper_levels-root fuel (node a b) (pair_trees ts) (omega (arith, pair_trees_shorter ts)) in
      let more : ltb 1 (suc (suc (length (map tree_hash ts)))) ≡ true = ground arith in
      (
        r,
        leaves ∙ pair_trees-leaves (a ∷ b ∷ ts),
        (rw (more, next_level-pair_trees (a ∷ b ∷ ts)) root),
      )

  tree_hashes-leaf : (hs : List (List ℕ)) → map tree_hash (map leaf hs) ≡ hs
  tree_hashes-leaf [] = refl
  tree_hashes-leaf (h ∷ hs) = ap (λ rest. h ∷ rest) (tree_hashes-leaf hs)

  levels-root :
      (h : List ℕ) (hs : List (List ℕ))
      → (r : Tree) × (leaves_of r ≡ h ∷ hs)
        × (last_of (h ∷ hs) (upper_levels hashing (length (h ∷ hs)) (h ∷ hs)) ≡ tree_hash r ∷ [])
  levels-root h hs =
      let fits : length (leaf h ∷ map leaf hs) ≤ length (h ∷ hs) =
        omega (arith, length-map hs leaf) in
      let (r, leaves, root) = upper_levels-root (length (h ∷ hs)) (leaf h) (map leaf hs) fits in
      (r, leaves ∙ ap (λ rest. h ∷ rest) (all_leaves-leaf hs), (rw (tree_hashes-leaf hs) at root))

  -- The hash of a list with an entry exists, and is the hash of a binary tree whose leaves are the
  -- hashes of the entries, in order.
  pub hash-tree :
      (md : Metadata) (items : List Metadata)
      → (t : Tree) × (leaves_of t ≡ map entry_hash (md ∷ items))
        × (hash hashing (md ∷ items) ≡ ok (some (tree_hash t)))
  unfolding hash build_tree
  hash-tree md items =
      let (t, leaves, root) = levels-root (entry_hash md) (map entry_hash items) in
      (
        t,
        leaves,
        rw (hash, build_tree, leaf_hashes-entry_hash (md ∷ items), root_of_levels-last _ _ root),
      )
