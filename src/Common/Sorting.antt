-- ===== src/Common/Sorting.antt =====
-- `Array.prototype.sort` with a comparison, which is stable.
use congenial_giggle.Common.{
  ◌≡◌, refl, Bool, true, false, List, [], ◌∷◌, if◌then◌else◌, All, if_elim,
}
use mathlib.Core.List.Permᴰ
use mathlib.Core.List.{Permᴰ}

module _ {A : Type 0} (less : A → A → Bool) where
  abbrev pub insert : A → List A → List A
  insert x [] = x ∷ []
  insert x (y ∷ ys) = let rest = insert x ys in if less y x then y ∷ rest else x ∷ y ∷ ys

  abbrev pub sort : List A → List A
  sort [] = []
  sort (x ∷ xs) = insert x (sort xs)

  pub insert-Perm : (x : A) (l : List A) → Permᴰ (x ∷ l) (insert x l)
  insert-Perm x [] = Permᴰ.refl (x ∷ [])
  insert-Perm x (y ∷ ys) =
      if_elim (λ l. Permᴰ (x ∷ y ∷ ys) l) (less y x)
        (λ before. Permᴰ.trans (Permᴰ.swap refl refl) (Permᴰ.cons refl (insert-Perm x ys)))
        (λ after. Permᴰ.refl (x ∷ y ∷ ys))

  -- What is sorted is what was given, in another order.
  pub sort-Perm : (l : List A) → Permᴰ l (sort l)
  sort-Perm [] = Permᴰ.nil
  sort-Perm (x ∷ xs) = Permᴰ.trans (Permᴰ.cons refl (sort-Perm xs)) (insert-Perm x (sort xs))

  -- No item is less than one before it.
  abbrev pub IsSorted : List A → Type 0
  IsSorted [] = Unit {0}
  IsSorted (x ∷ xs) = All (λ y. less y x ≡ false) xs × IsSorted xs

  module _ (asymmetric : (x y : A) → less x y ≡ true → less y x ≡ false)
      (transitive : (x y z : A) → less y x ≡ false → less z y ≡ false → less z x ≡ false) where
    All-insert : (P : A → Type 0) (x : A) (l : List A) → P x → All P l → All P (insert x l)
    All-insert P x [] p h = (p, tt)
    All-insert P x (y ∷ ys) p (q, h) =
        if_elim (λ l. All P l) (less y x) (λ before. (q, All-insert P x ys p h))
          (λ after. (p, (q, h)))

    below :
        (x y : A) (l : List A)
        → less y x ≡ false
        → All (λ z. less z y ≡ false) l
        → All (λ z. less z x ≡ false) l
    below x y [] h k = tt
    below x y (z ∷ l) h (p, k) = (transitive x y z h p, below x y l h k)

    insert-IsSorted : (x : A) (l : List A) → IsSorted l → IsSorted (insert x l)
    insert-IsSorted x [] s = (tt, tt)
    insert-IsSorted x (y ∷ ys) (h, s) =
        if_elim IsSorted (less y x)
          (λ before. (
            All-insert (λ z. less z y ≡ false) x ys (asymmetric y x before) h,
            insert-IsSorted x ys s,
          ))
          (λ after. ((after, below x y ys after h), (h, s)))

    pub sort-IsSorted : (l : List A) → IsSorted (sort l)
    sort-IsSorted [] = tt
    sort-IsSorted (x ∷ xs) = insert-IsSorted x (sort xs) (sort-IsSorted xs)
