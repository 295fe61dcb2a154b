-- ===== src/Prelude/Abort.antt =====
-- A call that may abort: `eosio::check` ends the whole transaction with a message, and what the
-- transaction wrote is undone, so an abort carries the message and no state.
use Prim.Native.String.{String}
use mathlib.Core.Path.{◌≡◌, refl}
use mathlib.Core.Logic.{◌⊎◌, inl, inr}
use mathlib.Core.Bool.{Bool, true, false}
use mathlib.Core.Option.{Option, none, some}

pub data Result {ℓ} (T : Type ℓ) : Type ℓ where
  ok : T → Result T
  err : String → Result T

module _ {ℓ κ} {T : Type ℓ} {U : Type κ} where
  infixl 5 ◌>>=◌ ◌>>◌
  -- The rest of a call runs unless the first part aborts.
  abbrev pub ◌>>=◌ : Result T → (T → Result U) → Result U
  err message >>= rest = err message
  ok t >>= rest = rest t

  abbrev pub ◌>>◌ : Result T → Result U → Result U
  err message >> rest = err message
  ok t >> rest = rest

-- eosio::check(condition, message)
abbrev pub check : Bool → String → Result (Unit {0})
check true e = ok tt
check false e = err e

-- A lookup that aborts where nothing is found: `multi_index::get`.
abbrev pub or_fail {ℓ} : {A : Type ℓ} → Option A → String → Result A
or_fail none e = err e
or_fail (some a) e = ok a

-- To split on the outcome of a call and keep the equation.
pub Result-cases {ℓ} :
    {A : Type ℓ} (r : Result A) → ((a : A) × (r ≡ ok a)) ⊎ ((e : String) × (r ≡ err e))
Result-cases (ok a) = inl (a, refl)
Result-cases (err e) = inr (e, refl)
