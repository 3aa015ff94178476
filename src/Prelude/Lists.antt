-- ===== src/Prelude/Lists.antt =====
-- C arrays as lists with native indices.
use Prim.Native.Nat.{ℕ, zero, suc, ◌+◌, ◌-◌, ◌<◌, min}
use mathlib.Core.Path.{◌≡◌, refl, sym, ap}
use mathlib.Core.Logic.{◌≢◌, ◌⊎◌, inl, inr}
use mathlib.Core.List.{List, [], ◌∷◌, ◌++◌, map}
use native.Mathlib.Omega.{arith}

module _ {ℓ} {A : Type ℓ} where
  abbrev pub length : List A → ℕ
  length [] = 0
  length (_ ∷ xs) = suc (length xs)

  abbrev pub get_or : List A → ℕ → A → A
  get_or [] _ d = d
  get_or (x ∷ _) zero _ = x
  get_or (_ ∷ xs) (suc i) d = get_or xs i d

  -- A write out of bounds changes nothing.
  abbrev pub set : List A → ℕ → A → List A
  set [] _ _ = []
  set (_ ∷ xs) zero v = v ∷ xs
  set (x ∷ xs) (suc i) v = x ∷ set xs i v

  abbrev pub take : ℕ → List A → List A
  take zero _ = []
  take (suc n) [] = []
  take (suc n) (x ∷ xs) = x ∷ take n xs

  abbrev pub drop : ℕ → List A → List A
  drop zero xs = xs
  drop (suc n) [] = []
  drop (suc n) (x ∷ xs) = drop n xs

  abbrev pub replicate : ℕ → A → List A
  replicate zero a = []
  replicate (suc n) a = a ∷ replicate n a

  pub length-append : (xs ys : List A) → length (xs ++ ys) ≡ length xs + length ys
  length-append [] ys = omega arith
  length-append (x ∷ xs) ys = omega (arith, length-append xs ys)

  pub length-set : (xs : List A) (i : ℕ) (v : A) → length (set xs i v) ≡ length xs
  length-set [] i v = refl
  length-set (x ∷ xs) zero v = refl
  length-set (x ∷ xs) (suc i) v = ap suc (length-set xs i v)

  pub get_or-set_self :
      (xs : List A) (i : ℕ) (v d : A) → i < length xs → get_or (set xs i v) i d ≡ v
  get_or-set_self [] i v d h = absurd (omega arith)
  get_or-set_self (x ∷ xs) zero v d h = refl
  get_or-set_self (x ∷ xs) (suc i) v d h = get_or-set_self xs i v d (omega arith)

  pub get_or-set_ne :
      (xs : List A) {i j : ℕ} (v d : A) → i ≢ j → get_or (set xs i v) j d ≡ get_or xs j d
  get_or-set_ne [] v d h = refl
  get_or-set_ne (x ∷ xs) {i = zero} {j = zero} v d h = absurd (h refl)
  get_or-set_ne (x ∷ xs) {i = zero} {j = suc j} v d h = refl
  get_or-set_ne (x ∷ xs) {i = suc i} {j = zero} v d h = refl
  get_or-set_ne (x ∷ xs) {i = suc i} {j = suc j} v d h = get_or-set_ne xs v d (λ e. h (ap suc e))

  -- After a write an element is the value written, or as it was.
  pub get_or-set_cases :
      (xs : List A) (i j : ℕ) (v d : A)
      → (get_or (set xs i v) j d ≡ v) ⊎ (get_or (set xs i v) j d ≡ get_or xs j d)
  get_or-set_cases [] i j v d = inr refl
  get_or-set_cases (x ∷ xs) zero zero v d = inl refl
  get_or-set_cases (x ∷ xs) zero (suc j) v d = inr refl
  get_or-set_cases (x ∷ xs) (suc i) zero v d = inr refl
  get_or-set_cases (x ∷ xs) (suc i) (suc j) v d = get_or-set_cases xs i j v d

  -- A write is undone by writing back what was there.
  pub set-set_back :
      (xs : List A) (i : ℕ) (v w d : A) → get_or xs i d ≡ w → set (set xs i v) i w ≡ xs
  set-set_back [] i v w d h = refl
  set-set_back (x ∷ xs) zero v w d h = ap (λ y. y ∷ xs) (sym h)
  set-set_back (x ∷ xs) (suc i) v w d h = ap (λ ys. x ∷ ys) (set-set_back xs i v w d h)

  pub length-take : (n : ℕ) (xs : List A) → length (take n xs) ≡ min n (length xs)
  length-take zero xs = omega arith
  length-take (suc n) [] = omega arith
  length-take (suc n) (x ∷ xs) = omega (arith, length-take n xs)

  pub length-drop : (n : ℕ) (xs : List A) → length (drop n xs) ≡ length xs - n
  length-drop zero xs = omega arith
  length-drop (suc n) [] = omega arith
  length-drop (suc n) (x ∷ xs) = omega (arith, length-drop n xs)

  pub length-replicate : (n : ℕ) (a : A) → length (replicate n a) ≡ n
  length-replicate zero a = refl
  length-replicate (suc n) a = ap suc (length-replicate n a)

  pub get_or-replicate : (n i : ℕ) (a : A) → get_or (replicate n a) i a ≡ a
  get_or-replicate zero i a = refl
  get_or-replicate (suc n) zero a = refl
  get_or-replicate (suc n) (suc i) a = get_or-replicate n i a

  pub take_of_empty : (n : ℕ) (xs : List A) → length xs ≡ 0 → take n xs ≡ []
  take_of_empty zero xs h = refl
  take_of_empty (suc n) [] h = refl
  take_of_empty (suc n) (x ∷ xs) h = absurd (omega arith)

  pub take-append_drop :
      (n m k : ℕ) (xs : List A) → k ≡ n + m → take n xs ++ take m (drop n xs) ≡ take k xs
  take-append_drop zero m k xs e = let e' : m ≡ k = omega arith in rw e'
  take-append_drop (suc n) m zero xs e = absurd (omega arith)
  take-append_drop (suc n) zero (suc k) [] e = refl
  take-append_drop (suc n) (suc m) (suc k) [] e = refl
  take-append_drop (suc n) m (suc k) (x ∷ xs) e =
      ap (λ ys. x ∷ ys) (take-append_drop n m k xs (omega arith))

module _ {ℓ κ} {A : Type ℓ} {B : Type κ} where
  pub length-map : (f : A → B) (xs : List A) → length (map f xs) ≡ length xs
  length-map f [] = refl
  length-map f (x ∷ xs) = ap suc (length-map f xs)

-- A predicate of every element.
abbrev pub All {ℓ κ} : {A : Type ℓ} → (A → Type κ) → List A → Type κ
All P [] = Unit
All P (x ∷ xs) = P x × All P xs
