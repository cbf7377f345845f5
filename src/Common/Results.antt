-- ===== src/Common/Results.antt =====
-- Rust's `Result`, with the error type first, and its chain.
use mathlib.Core.Path.{◌≡◌, refl, subst}
use mathlib.Core.Bool.{Bool, true, false}
use mathlib.Core.Logic.{◌⊎◌, inl, inr}
use static_web_server.Common.Tests.{if◌then◌else◌}

pub data Result {ℓₑ ℓₐ} (Err : Type ℓₑ) (Val : Type ℓₐ) : Type (ℓₑ ⊔ ℓₐ) where
  err : Err → Result Err Val
  ok : Val → Result Err Val

module _ {ℓₑ ℓₐ} {Err : Type ℓₑ} {Val : Type ℓₐ} where
  pub ok-inj : {v w : Val} → ◌≡◌ {A = Result Err Val} (ok v) (ok w) → v ≡ w
  ok-inj e = cc

  pub Result-cases : (m : Result Err Val) → ((e : Err) × (m ≡ err e)) ⊎ ((v : Val) × (m ≡ ok v))
  Result-cases (ok v) = inr (v, refl)
  Result-cases (err e) = inl (e, refl)

module _ {ℓₑ ℓₐ ℓₙ} {Err : Type ℓₑ} {Val : Type ℓₐ} {Next : Type ℓₙ} where
  -- `and_then`, or the operator `?` and what follows it
  infixl 5 ◌>>=◌
  abbrev pub ◌>>=◌ : Result Err Val → (Val → Result Err Next) → Result Err Next
  err e >>= next = err e
  ok v >>= next = next v

  -- a chain that succeeds has gone through both its steps
  pub >>=-eq-ok :
      (m : Result Err Val) (next : Val → Result Err Next) {w : Next}
      → (m >>= next) ≡ ok w
      → (v : Val) × (m ≡ ok v) × (next v ≡ ok w)
  >>=-eq-ok (err e) next h = cc
  >>=-eq-ok (ok v) next h = (v, refl, h)

module _ {ℓₑ ℓₙ κ} {Err : Type ℓₑ} {Next : Type ℓₙ} (P : Next → Type κ) where
  -- The value holds `P`, if there is one.
  abbrev pub Holds : Result Err Next → Type κ
  Holds (err e) = Unit
  Holds (ok v) = P v

  pub Holds-ok : (m : Result Err Next) {v : Next} → m ≡ ok v → Holds m → P v
  Holds-ok m h p = subst Holds h p

  -- A chain holds what its second step makes hold of each value of the first.
  pub >>=-Holds {ℓₐ} :
      {Val : Type ℓₐ} (m : Result Err Val) (next : Val → Result Err Next)
      → ((v : Val) → m ≡ ok v → Holds (next v))
      → Holds (m >>= next)
  >>=-Holds (err e) next h = tt
  >>=-Holds (ok v) next h = h v refl

  pub if-Holds :
      (b : Bool) (m n : Result Err Next)
      → (b ≡ true → Holds m)
      → (b ≡ false → Holds n)
      → Holds (if b then m else n)
  if-Holds true m n h k = h refl
  if-Holds false m n h k = k refl
