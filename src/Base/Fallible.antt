-- ===== src/Base/Fallible.antt =====
-- The results of C routines: what may stop the program, and what the model adds for loops.
use mathlib.Core.Logic.{◌≢◌}
use mathlib.Core.Option.{Option, none, some}

-- `exited` is `exit(EXIT_FAILURE)`; `faulted` is a null dereference or a union read at a member
-- that was not written.
pub data Result {ℓ} (A : Type ℓ) : Type ℓ where
  returned : A → Result A
  exited faulted : Result A

abbrev pub bind {ℓ κ} : {A : Type ℓ} {B : Type κ} → Result A → (A → Result B) → Result B
bind (returned a) f = f a
bind exited f = exited
bind faulted f = faulted

abbrev pub from_option {ℓ} : {A : Type ℓ} → Option A → Result A
from_option none = faulted
from_option (some a) = returned a

-- A routine that reads and changes a state of type `S`.
abbrev pub Stateful : Type 0 → Type 0 → Type 0
Stateful S A = S → Result (A × S)

module _ {S : Type 0} where
  abbrev pub pure : {A : Type 0} → A → Stateful S A
  pure a s = returned (a, s)

  infixl 5 ◌>>=◌ ◌>>◌
  abbrev pub ◌>>=◌ : {A B : Type 0} → Stateful S A → (A → Stateful S B) → Stateful S B
  ◌>>=◌ m f s = bind (m s) (λ (a, s'). f a s')

  abbrev pub ◌>>◌ : {B : Type 0} → Stateful S (Unit {0}) → Stateful S B → Stateful S B
  ◌>>◌ m k s = bind (m s) (λ (a, s'). k s')

  -- A dereference: `none` is NULL or dangling.
  abbrev pub deref : {A : Type 0} → (S → Option A) → Stateful S A
  deref g s = bind (from_option (g s)) (λ a. returned (a, s))

  abbrev pub change : (S → S) → Stateful S (Unit {0})
  change g s = returned (tt, g s)

  abbrev pub crash : {A : Type 0} → Stateful S A
  crash s = faulted

-- The same of a routine that the model runs on fuel; `out_of_fuel` has no counterpart in the
-- program.
pub data Outcome {ℓ} (A : Type ℓ) : Type ℓ where
  ok : A → Outcome A
  exits faults out_of_fuel : Outcome A

abbrev pub then_run {ℓ κ} : {A : Type ℓ} {B : Type κ} → Outcome A → (A → Outcome B) → Outcome B
then_run (ok a) f = f a
then_run exits f = exits
then_run faults f = faults
then_run out_of_fuel f = out_of_fuel

abbrev pub from_result {ℓ} : {A : Type ℓ} → Result A → Outcome A
from_result (returned a) = ok a
from_result exited = exits
from_result faulted = faults

-- The routine ran within its fuel, and `P` holds of its value if it returned one.
pub data Ensures {ℓ κ} {A : Type ℓ} (P : A → Type κ) : Outcome A → Type (ℓ ⊔ κ) where
  returns : {a : A} → P a → Ensures P (ok a)
  stops : Ensures P exits
  crashes : Ensures P faults

module _ {ℓ κ} {A : Type ℓ} {P : A → Type κ} where
  pub Ensures-ne-out_of_fuel : {r : Outcome A} → Ensures P r → r ≢ out_of_fuel
  Ensures-ne-out_of_fuel (returns h) = cc
  Ensures-ne-out_of_fuel stops = cc
  Ensures-ne-out_of_fuel crashes = cc

  pub Ensures-then {ℓ' κ'} :
      {B : Type ℓ'} {Q : B → Type κ'} {r : Outcome A} {f : A → Outcome B}
      → Ensures P r
      → ((a : A) → P a → Ensures Q (f a))
      → Ensures Q (then_run r f)
  Ensures-then (returns {a} h) k = k a h
  Ensures-then stops k = stops
  Ensures-then crashes k = crashes

  pub Ensures-result : (r : Result A) → ((a : A) → P a) → Ensures P (from_result r)
  Ensures-result (returned a) h = returns (h a)
  Ensures-result exited h = stops
  Ensures-result faulted h = crashes

  pub Ensures-map {κ'} :
      {Q : A → Type κ'} {r : Outcome A} → ((a : A) → P a → Q a) → Ensures P r → Ensures Q r
  Ensures-map f (returns {a} h) = returns (f a h)
  Ensures-map f stops = stops
  Ensures-map f crashes = crashes
