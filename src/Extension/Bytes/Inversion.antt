-- ===== src/Extension/Bytes/Inversion.antt =====
-- What a successful read says about the value. `Yields p Q`: on bytes, whatever `p` returns has the
-- property `Q`, and the rest is bytes again.
use congenial_giggle.Common.{
  ℕ, zero, suc, ◌+◌, ◌*◌, ◌/◌, ◌%◌, ◌≡◌, refl, ap, subst, ◌^◌, arith, List, [], ◌∷◌, ok, err,
  length, take, drop, length-take, All, Bool-cases, inl, inr, ◌==◌,
}
use congenial_giggle.Common.Int.{ℤ, pos, IsUint16, IsNatural}
use congenial_giggle.Extension.Errors.{Error, Throws}
use congenial_giggle.Extension.Bytes.{
  IsByte, Parser, ◌>>=◌, return, throw, catch_as, check, run, read_byte, read_slice, read_uint16_le,
  read_times, at_least, validated, remaining, var_uint_rounds, read_var_uint, read_amount,
  read_var_slice,
}

pub record Yields {ℓ κ} {A : Type ℓ} (p : Parser A) (Q : A → Type κ) : Type (ℓ ⊔ κ) where
  pub sound :
      (bytes : List ℕ) (a : A) (rest : List ℕ)
      → All IsByte bytes
      → p bytes ≡ ok (a, rest)
      → Q a × All IsByte rest

pub bind-eq-ok {ℓ κ} :
    {A : Type ℓ} {B : Type κ} (p : Parser A) (k : A → Parser B) (bytes : List ℕ) {b : B}
    {rest : List ℕ}
    → (p >>= k) bytes ≡ ok (b, rest)
    → (a : A) × (mid : List ℕ) × (p bytes ≡ ok (a, mid)) × (k a mid ≡ ok (b, rest))
unfolding ◌>>=◌
bind-eq-ok {A} {B} p k bytes {b} {rest} h = split (p bytes) refl
  where
    split :
        (r : Throws (A × List ℕ))
        → p bytes ≡ r
        → (a : A) × (mid : List ℕ) × (p bytes ≡ ok (a, mid)) × (k a mid ≡ ok (b, rest))
    split (ok (a, mid)) e = (a, mid, e, (rw (e, ◌>>=◌) at h))
    split (err x) e =
        let bad : ◌≡◌ {A = Throws (B × List ℕ)} (err x) (ok (b, rest)) = (rw (e, ◌>>=◌) at h) in cc

pub Yields-bind {ℓ κ μ ν} :
    {A : Type ℓ} {B : Type κ} {p : Parser A} {Q : A → Type μ} {R : B → Type ν} (k : A → Parser B)
    → Yields p Q
    → ((a : A) → Q a → Yields (k a) R)
    → Yields (p >>= k) R
Yields-bind {p} k hp hk = record {
  sound = λ bytes b rest h e.
      let (a, mid, e₁, e₂) = bind-eq-ok p k bytes e in
      let (q, h') = hp.sound bytes a mid h e₁ in (hk a q).sound mid b rest h' e₂;
}

pub Yields-weaken {ℓ κ μ} :
    {A : Type ℓ} {p : Parser A} {Q : A → Type κ} {R : A → Type μ}
    → ((a : A) → Q a → R a)
    → Yields p Q
    → Yields p R
Yields-weaken f h = record {
  sound = λ bytes a rest b e. let (q, b') = h.sound bytes a rest b e in (f a q, b');
}

pub Yields-return {ℓ κ} : {A : Type ℓ} (Q : A → Type κ) (a : A) → Q a → Yields (return a) Q
unfolding return
Yields-return Q a q = record {
  sound = λ bytes b rest h e.
      let same : a ≡ b = cc in
      let left : bytes ≡ rest = cc in (subst Q same q, subst (All IsByte) left h);
}

pub Yields-throw {ℓ κ} : {A : Type ℓ} (Q : A → Type κ) (x : Error) → Yields (throw {A = A} x) Q
unfolding throw
Yields-throw Q x = record { sound = λ bytes a rest h e. cc }

pub Yields-check {ℓ κ} :
    {A : Type ℓ} (Q : A → Type κ) (r : Throws A) → ((a : A) → r ≡ ok a → Q a) → Yields (check r) Q
unfolding check
Yields-check Q (ok x) q = record {
  sound = λ bytes b rest h e.
      let same : x ≡ b = cc in
      let left : bytes ≡ rest = cc in (q b (ap ok same), subst (All IsByte) left h);
}
Yields-check Q (err x) q = record { sound = λ bytes b rest h e. cc }

pub catch_as-eq-ok {ℓ} :
    {A : Type ℓ} (x : Error) (p : Parser A) (bytes : List ℕ) {r : A × List ℕ}
    → catch_as x p bytes ≡ ok r
    → p bytes ≡ ok r
unfolding catch_as
catch_as-eq-ok x p bytes h = ground arith

pub Yields-catch_as {ℓ κ} :
    {A : Type ℓ} {p : Parser A} {Q : A → Type κ} (x : Error) → Yields p Q → Yields (catch_as x p) Q
Yields-catch_as {p} x hp = record {
  sound = λ bytes a rest h e. hp.sound bytes a rest h (catch_as-eq-ok x p bytes e);
}

at_least-eq-ok {ℓ} :
    {A : Type ℓ} (size : ℕ) (e : ℕ → Error) (p : Parser A) (bytes : List ℕ) {r : A × List ℕ}
    → at_least size e p bytes ≡ ok r
    → p bytes ≡ ok r
unfolding at_least
at_least-eq-ok size e p bytes h = ground arith

pub Yields-at_least {ℓ κ} :
    {A : Type ℓ} {p : Parser A} {Q : A → Type κ} (size : ℕ) (x : ℕ → Error)
    → Yields p Q
    → Yields (at_least size x p) Q
Yields-at_least {p} size x hp = record {
  sound = λ bytes a rest h e. hp.sound bytes a rest h (at_least-eq-ok size x p bytes e);
}

pub Yields-read_byte : Yields read_byte IsByte
unfolding read_byte
Yields-read_byte = record { sound = go }
  where
    go :
        (bytes : List ℕ) (a : ℕ) (rest : List ℕ)
        → All IsByte bytes
        → read_byte bytes ≡ ok (a, rest)
        → IsByte a × All IsByte rest
    go [] a rest h e = cc
    go (b ∷ bs) a rest (p, h) e =
        let left : bs ≡ rest = cc in (ground arith, subst (All IsByte) left h)

All-take {ℓ κ} : {A : Type ℓ} (P : A → Type κ) (n : ℕ) (xs : List A) → All P xs → All P (take n xs)
All-take P zero xs h = tt
All-take P (suc n) [] h = tt
All-take P (suc n) (x ∷ xs) (p, h) = (p, All-take P n xs h)

pub All-drop {ℓ κ} :
    {A : Type ℓ} (P : A → Type κ) (n : ℕ) (xs : List A) → All P xs → All P (drop n xs)
All-drop P zero xs h = h
All-drop P (suc n) [] h = tt
All-drop P (suc n) (x ∷ xs) (p, h) = All-drop P n xs h

read_slice-eq-ok :
    (size : ℕ) (bytes slice rest : List ℕ)
    → read_slice size bytes ≡ ok (slice, rest)
    → (take size bytes ≡ slice) × (drop size bytes ≡ rest) × (length slice ≡ size)
unfolding read_slice
read_slice-eq-ok size bytes slice rest h = ground (arith, length-take size bytes)

pub Yields-read_slice :
    (size : ℕ) → Yields (read_slice size) (λ s. (length s ≡ size) × All IsByte s)
Yields-read_slice size = record {
  sound = λ bytes slice rest h e.
      let (front, back, fits) = read_slice-eq-ok size bytes slice rest e in
      (
        (fits, subst (All IsByte) front (All-take IsByte size bytes h)),
        subst (All IsByte) back (All-drop IsByte size bytes h),
      );
}

pub Yields-read_uint16_le : Yields read_uint16_le IsUint16
unfolding read_uint16_le
Yields-read_uint16_le = record { sound = go }
  where
    go :
        (bytes : List ℕ) (z : ℤ) (rest : List ℕ)
        → All IsByte bytes
        → read_uint16_le bytes ≡ ok (z, rest)
        → IsUint16 z × All IsByte rest
    go [] z rest h e = cc
    go (lo ∷ []) z rest h e = cc
    go (lo ∷ hi ∷ bs) z rest (p, (q, h)) e =
        let left : bs ≡ rest = cc in
        let value : pos (lo + 256 * hi) ≡ z = cc in
        (subst IsUint16 value (omega arith), subst (All IsByte) left h)

var_uint_rounds-rest :
    (bytes : List ℕ) (result shift n : ℕ) (rest : List ℕ)
    → All IsByte bytes
    → var_uint_rounds result shift bytes ≡ ok (n, rest)
    → All IsByte rest
unfolding var_uint_rounds
var_uint_rounds-rest [] result shift n rest h e = cc
var_uint_rounds-rest (b ∷ bs) result shift n rest (p, h) e = elim (Bool-cases (b / 128 % 2 == 1)) [
  | inl more ↦
      var_uint_rounds-rest bs (result + b % 128 * 2 ^ shift) (shift + 7) n rest h
        (rw (more, var_uint_rounds) at e)
  | inr last ↦ let left : bs ≡ rest = ground arith in subst (All IsByte) left h
]

pub Yields-read_var_uint : Yields read_var_uint (λ _. Unit {0})
unfolding read_var_uint
Yields-read_var_uint = record {
  sound = λ bytes n rest h e. (tt, var_uint_rounds-rest bytes 0 0 n rest h e);
}

pub Yields-read_amount : Yields read_amount IsNatural
unfolding read_amount
Yields-read_amount = Yields-bind _ Yields-read_var_uint (λ n _. Yields-return IsNatural (pos n) tt)

pub Yields-read_var_slice : Yields read_var_slice (All IsByte)
unfolding read_var_slice
Yields-read_var_slice =
    Yields-bind _ Yields-read_var_uint
      (λ size _. Yields-weaken (λ s h. h.1) (Yields-read_slice size))

pub Yields-times {ℓ κ} :
    {A : Type ℓ} (Q : A → Type κ) (p : Parser A)
    → Yields p Q
    → (count : ℕ) → Yields (read_times p count) (λ xs. (length xs ≡ count) × All Q xs)
unfolding read_times
Yields-times Q p h zero = Yields-return (λ xs. (length xs ≡ 0) × All Q xs) [] (refl, tt)
Yields-times Q p h (suc count) = Yields-bind _ h λ x q.
    Yields-bind _ (Yields-times Q p h count) λ xs qs.
      Yields-return (λ ys. (length ys ≡ suc count) × All Q ys) (x ∷ xs) (ap suc qs.0, (q, qs.1))

pub run-eq-ok {ℓ κ} :
    {A : Type ℓ} {p : Parser A} {Q : A → Type κ} (bytes : List ℕ) {a : A}
    → Yields p Q
    → All IsByte bytes
    → run p bytes ≡ ok a
    → Q a
unfolding run
run-eq-ok {A} {p} {Q} bytes {a} hp h e = split (p bytes) refl
  where
    split : (r : Throws (A × List ℕ)) → p bytes ≡ r → Q a
    split (ok (b, rest)) e' =
        let same : ◌≡◌ {A = Throws A} (ok b) (ok a) = (rw (e', run) at e) in
        let same' : b ≡ a = cc in subst Q same' (hp.sound bytes b rest h e').0
    split (err x) e' = let bad : ◌≡◌ {A = Throws A} (err x) (ok a) = (rw (e', run) at e) in cc

pub validated-eq-ok_inv {ℓ} :
    {A : Type ℓ} (validate : A → Throws (Unit {0})) (x : A) {y : A}
    → validated validate x ≡ ok y
    → (validate x ≡ ok tt) × (x ≡ y)
unfolding validated
validated-eq-ok_inv validate x h = ground arith

pub Yields-remaining : Yields remaining (λ _. Unit {0})
unfolding remaining
Yields-remaining = record {
  sound = λ bytes n rest h e. let left : bytes ≡ rest = cc in (tt, subst (All IsByte) left h);
}
