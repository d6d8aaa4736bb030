-- ===== src/Common/Res.antt =====
-- Results of fallible code: `rspark_core::error::Result`, and the panic of `unwrap`.
use mathlib.Core.Path.{◌≡◌, refl, subst}

-- The kinds of `rspark_core::error::Error`. Message texts are for people and are left out.
pub data Error : Type 0 where
  io parse type schema execution storage cluster sql serde csv network not_found invalid_state :
      Error

pub data Result {ℓ} (A : Type ℓ) : Type ℓ where
  ok : A → Result A
  err : Error → Result A
  panic : Result A

module _ {ℓ κ} {A : Type ℓ} {B : Type κ} where
  infixl 5 ◌>>=◌
  -- The `?` of Rust: go on with the value, or return the failure.
  abbrev pub ◌>>=◌ : Result A → (A → Result B) → Result B
  panic >>= next = panic
  err kind >>= next = err kind
  ok value >>= next = next value

  -- What stands behind a chain that succeeds: its first part succeeded, and so did the rest.
  pub >>=-eq-ok :
      (first : Result A) (next : A → Result B) {end' : B}
      → first >>= next ≡ ok end'
      → (value : A) × (first ≡ ok value) × (next value ≡ ok end')
  >>=-eq-ok panic next h = cc
  >>=-eq-ok (err kind) next h = cc
  >>=-eq-ok (ok value) next h = (value, refl, h)

infixl 5 ◌>>◌
abbrev pub ◌>>◌ {ℓ} : {A : Type ℓ} → Result (Unit {0}) → Result A → Result A
check >> rest = check >>= λ _. rest

pub ok-injective {ℓ} : {A : Type ℓ} {a b : A} → ok a ≡ ok b → a ≡ b
ok-injective h = cc

module _ {ℓ κ} {A : Type ℓ} (P : A → Type κ) where
  -- A value that the computation returns has the property; a failure may happen.
  abbrev pub Returns : Result A → Type κ
  Returns (ok a) = P a
  Returns (err e) = Unit
  Returns panic = Unit

  pub Returns-eq : (m : Result A) {a : A} → Returns m → m ≡ ok a → P a
  Returns-eq m r e = subst Returns e r

module _ {ℓ κ λ' μ} {A : Type ℓ} {B : Type κ} (P : A → Type λ') (Q : B → Type μ) where
  pub Returns-bind :
      (m : Result A) (f : A → Result B)
      → Returns P m
      → ((a : A) → P a → Returns Q (f a))
      → Returns Q (m >>= f)
  Returns-bind (ok a) f r next = next a r
  Returns-bind (err e) f r next = tt
  Returns-bind panic f r next = tt
