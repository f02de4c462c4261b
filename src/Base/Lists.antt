-- ===== src/Base/Lists.antt =====
-- Lists measured and indexed by native numbers, under the library's names.
use Prim.Native.Nat.{ℕ, zero, suc, ◌+◌, ◌<◌, ◌≤◌}
use mathlib.Core.Path.{◌≡◌, refl, ap}
use mathlib.Core.Logic.{◌≢◌}
use mathlib.Core.List.{List, [], ◌∷◌, ◌++◌}
use mathlib.Core.Option.{Option, none, some}
use native.Mathlib.Omega.{arith}
use mathlib.Core.Bool.{Bool, true, false}

module _ {ℓ} {A : Type ℓ} where
  abbrev pub length : List A → ℕ
  length [] = 0
  length (x ∷ xs) = suc (length xs)

  abbrev pub get_elem? : List A → ℕ → Option A
  get_elem? [] i = none
  get_elem? (x ∷ xs) zero = some x
  get_elem? (x ∷ xs) (suc i) = get_elem? xs i

  abbrev pub is_empty : List A → Bool
  is_empty [] = true
  is_empty (x ∷ xs) = false

  abbrev pub tail : List A → List A
  tail [] = []
  tail (x ∷ xs) = xs

  pub length-tail : (xs : List A) → length (tail xs) ≤ length xs
  length-tail [] = omega arith
  length-tail (x ∷ xs) = omega arith

  -- Apply `f` at a position; out of bounds nothing changes.
  abbrev pub modify : (A → A) → List A → ℕ → List A
  modify f [] i = []
  modify f (x ∷ xs) zero = f x ∷ xs
  modify f (x ∷ xs) (suc i) = x ∷ modify f xs i

  pub length-append : (xs ys : List A) → length (xs ++ ys) ≡ length xs + length ys
  length-append [] ys = omega arith
  length-append (x ∷ xs) ys = omega (arith, length-append xs ys)

  pub length-modify : (f : A → A) (xs : List A) (i : ℕ) → length (modify f xs i) ≡ length xs
  length-modify f [] i = refl
  length-modify f (x ∷ xs) zero = refl
  length-modify f (x ∷ xs) (suc i) = ap suc (length-modify f xs i)

  pub modify-append :
      (f : A → A) (xs : List A) (y : A) (ys : List A)
      → modify f (xs ++ y ∷ ys) (length xs) ≡ xs ++ f y ∷ ys
  modify-append f [] y ys = refl
  modify-append f (x ∷ xs) y ys = ap (◌∷◌ x) (modify-append f xs y ys)

  pub get_elem?-append :
      (xs : List A) (y : A) (ys : List A) → get_elem? (xs ++ y ∷ ys) (length xs) ≡ some y
  get_elem?-append [] y ys = refl
  get_elem?-append (x ∷ xs) y ys = get_elem?-append xs y ys

  pub get_elem?-some : (xs : List A) (i : ℕ) → i < length xs → (x : A) × (get_elem? xs i ≡ some x)
  get_elem?-some [] i h = elim h [ ]
  get_elem?-some (x ∷ xs) zero h = (x, refl)
  get_elem?-some (x ∷ xs) (suc i) h = get_elem?-some xs i (omega arith)

  pub get_elem?-lt : (xs : List A) (i : ℕ) {x : A} → get_elem? xs i ≡ some x → i < length xs
  get_elem?-lt [] i h = cc
  get_elem?-lt (x ∷ xs) zero h = omega arith
  get_elem?-lt (x ∷ xs) (suc i) h = omega (arith, get_elem?-lt xs i h)

  pub get_elem?-modify_self :
      (f : A → A) (xs : List A) (i : ℕ) {x : A}
      → get_elem? xs i ≡ some x
      → get_elem? (modify f xs i) i ≡ some (f x)
  get_elem?-modify_self f [] i h = cc
  get_elem?-modify_self f (x ∷ xs) zero h = cc
  get_elem?-modify_self f (x ∷ xs) (suc i) h = get_elem?-modify_self f xs i h

  pub get_elem?-modify_ne :
      (f : A → A) (xs : List A) {i j : ℕ} → i ≢ j → get_elem? (modify f xs i) j ≡ get_elem? xs j
  get_elem?-modify_ne f [] h = refl
  get_elem?-modify_ne f (x ∷ xs) {i = zero} {j = zero} h = absurd (h refl)
  get_elem?-modify_ne f (x ∷ xs) {i = zero} {j = suc j} h = refl
  get_elem?-modify_ne f (x ∷ xs) {i = suc i} {j = zero} h = refl
  get_elem?-modify_ne f (x ∷ xs) {i = suc i} {j = suc j} h =
      get_elem?-modify_ne f xs (λ e. h (ap suc e))
