-- ===== src/Common/Sets.antt =====
-- A JavaScript `Set` filled by a loop: the list of what was added, newest first.
use congenial_giggle.Common.{
  ◌++◌, filter, Bool-cases, inl, inr, ◌≡◌, sym, ap, ◌≢◌, ◌↔◌, arith, Bool, true, false, List, [],
  ◌∷◌, any, All, map,
}

module _ {A : Type 0} where
  -- `z` is not among the items.
  abbrev pub IsNew : A → List A → Type 0
  IsNew z = All (λ x. x ≢ z)

  -- No item occurs twice.
  abbrev pub IsDistinct : List A → Type 0
  IsDistinct [] = Unit {0}
  IsDistinct (x ∷ xs) = IsNew x xs × IsDistinct xs

  -- Each item is new when its turn comes.
  abbrev pub AreNew : List A → List A → Type 0
  AreNew [] seen = Unit {0}
  AreNew (x ∷ xs) seen = IsNew x seen × AreNew xs (x ∷ seen)

  -- One more item in the set: the others differ from it too.
  All-IsNew_cons :
      (y : A) (seen xs : List A)
      → All (λ x. IsNew x (y ∷ seen)) xs ↔ (IsNew y xs × All (λ x. IsNew x seen) xs)
  All-IsNew_cons y seen [] = (λ _. (tt, tt), λ _. tt)
  All-IsNew_cons y seen (x ∷ xs) =
      let (to, from) = All-IsNew_cons y seen xs in
      (
        λ ((ne, new), h). ((λ e. ne (sym e), (to h).0), (new, (to h).1)),
        λ ((ne, h), (new, k)). ((λ e. ne (sym e), new), from (h, k)),
      )

  AreNew-iff : (xs seen : List A) → AreNew xs seen ↔ (All (λ x. IsNew x seen) xs × IsDistinct xs)
  AreNew-iff [] seen = (λ _. (tt, tt), λ _. tt)
  AreNew-iff (x ∷ xs) seen =
      let (to, from) = AreNew-iff xs (x ∷ seen) in
      let (split, join) = All-IsNew_cons x seen xs in
      (
        λ (new, h). ((new, (split (to h).0).1), ((split (to h).0).0, (to h).1)),
        λ ((new, h), (apart, k)). (new, from (join (apart, h), k)),
      )

  All-IsNew_nil : (xs : List A) → All (λ x. IsNew x []) xs
  All-IsNew_nil [] = tt
  All-IsNew_nil (x ∷ xs) = (tt, All-IsNew_nil xs)

  -- From an empty set on, the loop asks for distinct items.
  pub AreNew-IsDistinct : (xs : List A) → AreNew xs [] ↔ IsDistinct xs
  AreNew-IsDistinct xs =
      let (to, from) = AreNew-iff xs [] in (λ h. (to h).1, λ h. from (All-IsNew_nil xs, h))

  -- New in two lists together is new in each.
  pub IsNew-append : (z : A) (xs ys : List A) → IsNew z (xs ++ ys) ↔ (IsNew z xs × IsNew z ys)
  IsNew-append z [] ys = (λ h. (tt, h), λ (_, h). h)
  IsNew-append z (x ∷ xs) ys =
      let (to, from) = IsNew-append z xs ys in
      (λ (ne, h). ((ne, (to h).0), (to h).1), λ ((ne, h), k). (ne, from (h, k)))

  -- Distinct items in front of others from which they all differ.
  pub IsDistinct-append :
      (xs ys : List A)
      → IsDistinct xs
      → IsDistinct ys
      → All (λ x. IsNew x ys) xs
      → IsDistinct (xs ++ ys)
  IsDistinct-append [] ys h k apart = k
  IsDistinct-append (x ∷ xs) ys (new, h) k (other, apart) =
      ((IsNew-append x xs ys).1 (new, other), IsDistinct-append xs ys h k apart)

module _ {A : Type 0} (eq : A → A → Bool) (eq_iff : (a b : A) → (eq a b ≡ true) ↔ (a ≡ b)) where
  -- `set.has(z)` is false exactly for a new `z`.
  pub any-eq_iff : (z : A) (seen : List A) → (any (eq z) seen ≡ false) ↔ IsNew z seen
  any-eq_iff z [] = ground arith
  any-eq_iff z (x ∷ seen) = ground (arith, eq_iff z x, any-eq_iff z seen)

module _ {A B : Type 0} (P : A → Type 0) (f : A → B)
    (injective : (a b : A) → P a → P b → f a ≡ f b → a ≡ b) where
  IsNew-map : (z : A) (xs : List A) → P z → All P xs → IsNew (f z) (map f xs) ↔ IsNew z xs
  IsNew-map z [] p h = (λ _. tt, λ _. tt)
  IsNew-map z (x ∷ xs) p (q, h) =
      let (to, from) = IsNew-map z xs p h in
      (
        λ (ne, new). (λ e. ne (ap f e), to new),
        λ (ne, new). (λ e. ne (injective x z q p e), from new),
      )

  -- An injection keeps items apart.
  pub IsDistinct-map : (xs : List A) → All P xs → IsDistinct (map f xs) ↔ IsDistinct xs
  IsDistinct-map [] h = (λ _. tt, λ _. tt)
  IsDistinct-map (x ∷ xs) (p, h) =
      let (to, from) = IsDistinct-map xs h in
      let (new, new') = IsNew-map x xs p h in (λ (a, b). (new a, to b), λ (a, b). (new' a, from b))

module _ {A B : Type 0} (f : A → B) (p : A → Bool) where
  IsNew-filter : (z : B) (xs : List A) → IsNew z (map f xs) → IsNew z (map f (filter p xs))
  IsNew-filter z [] new = tt
  IsNew-filter z (x ∷ xs) (ne, new) = elim (Bool-cases (p x)) [
    | inl kept ↦ rw kept (ne, IsNew-filter z xs new)
    | inr left_out ↦ rw left_out (IsNew-filter z xs new)
  ]

  -- What is left of distinct items is distinct.
  pub IsDistinct-filter : (xs : List A) → IsDistinct (map f xs) → IsDistinct (map f (filter p xs))
  IsDistinct-filter [] h = tt
  IsDistinct-filter (x ∷ xs) (new, h) = elim (Bool-cases (p x)) [
    | inl kept ↦ rw kept (IsNew-filter (f x) xs new, IsDistinct-filter xs h)
    | inr left_out ↦ rw left_out (IsDistinct-filter xs h)
  ]

  -- What every item that passes the test has, the rest has.
  pub All-filter {κ} :
      (P : B → Type κ) (passed : (x : A) → p x ≡ true → P (f x)) (xs : List A)
      → All P (map f (filter p xs))
  All-filter P passed [] = tt
  All-filter P passed (x ∷ xs) = elim (Bool-cases (p x)) [
    | inl kept ↦ rw kept (passed x kept, All-filter P passed xs)
    | inr left_out ↦ rw left_out (All-filter P passed xs)
  ]
