-- ===== src/Base/Lists.antt =====
-- Lists measured by the native numbers, and a predicate on every element.
use Prim.Native.Nat.{ℕ, zero, suc, ◌+◌, ◌≤◌}
use mathlib.Core.Path.{◌≡◌, refl, ap, ◌∙◌}
use mathlib.Core.Logic.{◌⊎◌, inl, inr}
use mathlib.Core.Bool.{Bool, true, false}
use mathlib.Core.Option.{Option, none, some}
use mathlib.Core.List.{List, [], ◌∷◌, ◌++◌}
use native.Mathlib.Omega.{arith}
use titan_explorer.Base.Tests.{if◌then◌else◌}

module _ {ℓ} {A : Type ℓ} where
  abbrev pub length : List A → ℕ
  length [] = 0
  length (x ∷ xs) = suc (length xs)

  pub length-append : (xs ys : List A) → length (xs ++ ys) ≡ length xs + length ys
  length-append [] ys = omega arith
  length-append (x ∷ xs) ys = omega (arith, length-append xs ys)

  abbrev pub take : ℕ → List A → List A
  take zero xs = []
  take (suc n) [] = []
  take (suc n) (x ∷ xs) = x ∷ take n xs

  abbrev pub drop : ℕ → List A → List A
  drop zero xs = xs
  drop (suc n) [] = []
  drop (suc n) (x ∷ xs) = drop n xs

  abbrev pub replicate : ℕ → A → List A
  replicate zero a = []
  replicate (suc n) a = a ∷ replicate n a

  abbrev pub get_elem? : List A → ℕ → Option A
  get_elem? [] i = none
  get_elem? (x ∷ xs) zero = some x
  get_elem? (x ∷ xs) (suc i) = get_elem? xs i

  -- A write out of bounds changes nothing.
  abbrev pub set : List A → ℕ → A → List A
  set [] i v = []
  set (x ∷ xs) zero v = v ∷ xs
  set (x ∷ xs) (suc i) v = x ∷ set xs i v

  abbrev pub All {κ} : (A → Type κ) → List A → Type κ
  All P [] = Unit
  All P (x ∷ xs) = P x × All P xs

  -- The elements that pass a Boolean test, in their order.
  abbrev pub keep : (A → Bool) → List A → List A
  keep p [] = []
  keep p (x ∷ xs) = if p x then x ∷ keep p xs else keep p xs

  abbrev pub any : (A → Bool) → List A → Bool
  any p [] = false
  any p (x ∷ xs) = if p x then true else any p xs

  pub List-cases : (xs : List A) → (xs ≡ []) ⊎ ((x : A) × (r : List A) × (xs ≡ x ∷ r))
  List-cases [] = inl refl
  List-cases (x ∷ r) = inr (x, r, refl)

  take-empty : (k : ℕ) → take k [] ≡ []
  take-empty zero = refl
  take-empty (suc k) = refl

  drop-empty : (k : ℕ) → drop k [] ≡ []
  drop-empty zero = refl
  drop-empty (suc k) = refl

  -- Two pages that follow one another are one page.
  pub take-add : (n m : ℕ) (l : List A) → take n l ++ take m (drop n l) ≡ take (n + m) l
  take-add zero m l = ap (λ k. take k l) {x = m} {y = 0 + m} (omega arith)
  take-add (suc n) m [] =
      take-empty m ∙ ap (λ k. take k []) {x = suc (n + m)} {y = suc n + m} (omega arith)
  take-add (suc n) m (x ∷ l) =
      ap (λ t. x ∷ t) (take-add n m l)
      ∙ ap (λ k. take k (x ∷ l)) {x = suc (n + m)} {y = suc n + m} (omega arith)

  pub take-all : (n : ℕ) (l : List A) → length l ≤ n → take n l ≡ l
  take-all zero [] h = refl
  take-all zero (x ∷ l) h = ground (arith, h)
  take-all (suc n) [] h = refl
  take-all (suc n) (x ∷ l) h = ap (λ t. x ∷ t) (take-all n l (omega (arith, h)))

  pub drop-add : (n m : ℕ) (l : List A) → drop m (drop n l) ≡ drop (n + m) l
  drop-add zero m l = ap (λ k. drop k l) {x = m} {y = 0 + m} (omega arith)
  drop-add (suc n) m [] =
      drop-empty m ∙ ap (λ k. drop k []) {x = suc (n + m)} {y = suc n + m} (omega arith)
  drop-add (suc n) m (x ∷ l) =
      drop-add n m l ∙ ap (λ k. drop k (x ∷ l)) {x = suc (n + m)} {y = suc n + m} (omega arith)
