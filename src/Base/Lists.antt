-- ===== src/Base/Lists.antt =====
-- C arrays as lists with native indices; a write out of bounds is the `none` of `store`.
use Prim.Native.Nat.{ℕ, zero, suc, ◌+◌, ◌-◌, ◌<◌, ◌≤◌, min}
use mathlib.Core.Path.{◌≡◌, refl, ap, ◌∙◌}
use mathlib.Core.Logic.{◌≢◌}
use mathlib.Core.List.{List, [], ◌∷◌, ◌++◌}
use mathlib.Core.Option.{Option, none, some}
use mathlib.Core.Option
use native.Mathlib.Omega.{arith}

module _ {ℓ} {A : Type ℓ} where
  abbrev pub length : List A → ℕ
  length [] = 0
  length (x ∷ xs) = suc (length xs)

  abbrev pub get_elem? : List A → ℕ → Option A
  get_elem? [] i = none
  get_elem? (x ∷ xs) zero = some x
  get_elem? (x ∷ xs) (suc i) = get_elem? xs i

  abbrev pub get_or : List A → ℕ → A → A
  get_or [] i d = d
  get_or (x ∷ xs) zero d = x
  get_or (x ∷ xs) (suc i) d = get_or xs i d

  abbrev pub set : List A → ℕ → A → List A
  set [] i v = []
  set (x ∷ xs) zero v = v ∷ xs
  set (x ∷ xs) (suc i) v = x ∷ set xs i v

  abbrev pub store : List A → ℕ → A → Option (List A)
  store [] i v = none
  store (x ∷ xs) zero v = some (v ∷ xs)
  store (x ∷ xs) (suc i) v = Option.map (λ ys. x ∷ ys) (store xs i v)

  abbrev pub take : ℕ → List A → List A
  take zero xs = []
  take (suc n) [] = []
  take (suc n) (x ∷ xs) = x ∷ take n xs

  abbrev pub drop : ℕ → List A → List A
  drop zero xs = xs
  drop (suc n) [] = []
  drop (suc n) (x ∷ xs) = drop n xs

  abbrev pub replicate : ℕ → A → List A
  replicate zero a = []
  replicate (suc n) a = a ∷ replicate n a

  pub length-append : (xs ys : List A) → length (xs ++ ys) ≡ length xs + length ys
  length-append [] ys = omega arith
  length-append (x ∷ xs) ys = omega (arith, length-append xs ys)

  pub length-set : (xs : List A) (i : ℕ) (v : A) → length (set xs i v) ≡ length xs
  length-set [] i v = refl
  length-set (x ∷ xs) zero v = refl
  length-set (x ∷ xs) (suc i) v = ap suc (length-set xs i v)

  pub length-replicate : (n : ℕ) (a : A) → length (replicate n a) ≡ n
  length-replicate zero a = refl
  length-replicate (suc n) a = ap suc (length-replicate n a)

  pub length-take : (n : ℕ) (xs : List A) → length (take n xs) ≡ min n (length xs)
  length-take zero xs = omega arith
  length-take (suc n) [] = omega arith
  length-take (suc n) (x ∷ xs) = omega (arith, length-take n xs)

  pub get_or-set_self :
      (xs : List A) (i : ℕ) (v d : A) → i < length xs → get_or (set xs i v) i d ≡ v
  get_or-set_self [] i v d h = absurd (omega arith)
  get_or-set_self (x ∷ xs) zero v d h = refl
  get_or-set_self (x ∷ xs) (suc i) v d h = get_or-set_self xs i v d (omega arith)

  pub get_or-set_ne :
      (xs : List A) {i j : ℕ} (v d : A) → i ≢ j → get_or (set xs i v) j d ≡ get_or xs j d
  get_or-set_ne [] v d h = refl
  get_or-set_ne (x ∷ xs) {i = zero} {j = zero} v d h = absurd (h refl)
  get_or-set_ne (x ∷ xs) {i = zero} {j = suc j} v d h = refl
  get_or-set_ne (x ∷ xs) {i = suc i} {j = zero} v d h = refl
  get_or-set_ne (x ∷ xs) {i = suc i} {j = suc j} v d h = get_or-set_ne xs v d (λ e. h (ap suc e))

  -- A read or write just past a prefix.
  pub get_elem?-append : (xs ys : List A) (y : A) → get_elem? (xs ++ y ∷ ys) (length xs) ≡ some y
  get_elem?-append [] ys y = refl
  get_elem?-append (x ∷ xs) ys y = get_elem?-append xs ys y

  pub store-append :
      (xs ys : List A) (y v : A) → store (xs ++ y ∷ ys) (length xs) v ≡ some (xs ++ v ∷ ys)
  store-append [] ys y v = refl
  store-append (x ∷ xs) ys y v = ap (Option.map (λ zs. x ∷ zs)) (store-append xs ys y v)

  pub store-past : (xs : List A) (i : ℕ) (v : A) → length xs ≤ i → store xs i v ≡ none
  store-past [] i v h = refl
  store-past (x ∷ xs) zero v h = absurd (omega arith)
  store-past (x ∷ xs) (suc i) v h = ap (Option.map (λ ys. x ∷ ys)) (store-past xs i v (omega arith))

  pub take-append_le : (n : ℕ) (xs ys : List A) → n ≤ length xs → take n (xs ++ ys) ≡ take n xs
  take-append_le zero xs ys h = refl
  take-append_le (suc n) [] ys h = absurd (omega arith)
  take-append_le (suc n) (x ∷ xs) ys h = ap (λ t. x ∷ t) (take-append_le n xs ys (omega arith))

  pub take-append_add : (xs ys : List A) (n : ℕ) → take (length xs + n) (xs ++ ys) ≡ xs ++ take n ys
  take-append_add [] ys n = ap (λ k. take k ys) {x = 0 + n} {y = n} (omega arith)
  take-append_add (x ∷ xs) ys n =
      ap (λ k. take k (x ∷ (xs ++ ys))) {x = suc (length xs) + n} {y = suc (length xs + n)}
        (omega arith)
      ∙ ap (λ t. x ∷ t) (take-append_add xs ys n)

  pub drop-append_add : (xs ys : List A) (n : ℕ) → drop (length xs + n) (xs ++ ys) ≡ drop n ys
  drop-append_add [] ys n = ap (λ k. drop k ys) {x = 0 + n} {y = n} (omega arith)
  drop-append_add (x ∷ xs) ys n =
      ap (λ k. drop k (x ∷ (xs ++ ys))) {x = suc (length xs) + n} {y = suc (length xs + n)}
        (omega arith)
      ∙ drop-append_add xs ys n

  pub drop-nil : (n : ℕ) → drop n [] ≡ []
  drop-nil zero = refl
  drop-nil (suc n) = refl

  pub length-drop : (n : ℕ) (xs : List A) → length (drop n xs) ≡ length xs - n
  length-drop zero xs = omega arith
  length-drop (suc n) [] = omega arith
  length-drop (suc n) (x ∷ xs) = omega (arith, length-drop n xs)

  pub drop-suc :
      (n : ℕ) (xs : List A) {y : A} {ys : List A} → drop n xs ≡ y ∷ ys → drop (suc n) xs ≡ ys
  drop-suc zero [] h = cc
  drop-suc zero (x ∷ xs) h = cc
  drop-suc (suc n) [] h = cc
  drop-suc (suc n) (x ∷ xs) h = drop-suc n xs h

  -- There is an element in each place.
  pub drop_lt :
      (n : ℕ) (xs : List A) → n < length xs → (y : A) × (ys : List A) × (drop n xs ≡ y ∷ ys)
  drop_lt n [] h = absurd (omega arith)
  drop_lt zero (x ∷ xs) h = (x, xs, refl)
  drop_lt (suc n) (x ∷ xs) h = drop_lt n xs (omega arith)

  pub drop-replicate : (n k : ℕ) (x : A) → drop k (replicate n x) ≡ replicate (n - k) x
  drop-replicate n zero x = ap (λ m. replicate m x) {x = n} {y = n - 0} (omega arith)
  drop-replicate zero (suc k) x = ap (λ m. replicate m x) {x = 0} {y = 0 - suc k} (omega arith)
  drop-replicate (suc n) (suc k) x =
      drop-replicate n k x ∙ ap (λ m. replicate m x) {x = n - k} {y = suc n - suc k} (omega arith)
