-- ===== src/Prelude/Outcome.antt =====
-- What a fallible operation returns, and the errors that the modelled code raises.
use mathlib.Core.Bool.{Bool, true, false, false≢true}
use mathlib.Core.Path.{◌≡◌, refl, sym}

-- One constructor for each `anyhow!` of the server's message handlers, and one for a failed call of
-- the message broker.
pub data Error : Type 0 where
  no_session no_active_connection not_connected invalid_min connect_without_logon storage : Error

pub data Result {ℓ} (Value : Type ℓ) : Type ℓ where
  err : (problem : Error) → Result Value
  ok : (value : Value) → Result Value

-- `Result<()>`
abbrev pub Done : Type 0
Done = Result Unit

abbrev pub is_ok {ℓ} : {A : Type ℓ} → Result A → Bool
is_ok (err problem) = false
is_ok (ok value) = true

-- A predicate on the value, if the operation succeeds.
abbrev pub OnOk {ℓ κ} : {A : Type ℓ} → (A → Type κ) → Result A → Type κ
OnOk P (err problem) = Unit
OnOk P (ok value) = P value

-- The operator `?`, and what follows it.
module _ {ℓ κ} {A : Type ℓ} {B : Type κ} where
  infixl 5 ◌>>=◌
  abbrev pub ◌>>=◌ : Result A → (A → Result B) → Result B
  err problem >>= next = err problem
  ok value >>= next = next value

  pub is_ok-bind :
      (m : Result A) (next : A → Result B) → is_ok m ≡ false → is_ok (m >>= next) ≡ false
  is_ok-bind (err problem) next h = refl
  is_ok-bind (ok value) next h = absurd (false≢true (sym h))

  pub OnOk-bind {ι μ} :
      {P : A → Type ι} (Q : B → Type μ) (m : Result A) (next : A → Result B)
      → OnOk P m
      → ((a : A) → P a → OnOk Q (next a))
      → OnOk Q (m >>= next)
  OnOk-bind Q (err problem) next h each = tt
  OnOk-bind Q (ok value) next h each = each value h

  -- The two steps of a success.
  pub bind_succeeds :
      (m : Result A) (next : A → Result B) (b : B)
      → (m >>= next) ≡ ok b
      → (a : A) × (m ≡ ok a) × (next a ≡ ok b)
  bind_succeeds (err problem) next b h = cc
  bind_succeeds (ok value) next b h = (value, refl, h)
