-- ===== src/Status.antt =====
-- include/bluetooth/status.h: `bt_status_t` as a result, and the actions that return one while they
-- change a state. `BT_OK` is `ok`; each other status is an `Error`.
pub mod Sim
use aros_bluzing.Prelude.{◌≡◌, refl, Bool, true, false}

pub data Error : Type 0 where
  invalid_argument buffer_overflow buffer_underflow no_resources io : Error

pub data Result (A : Type 0) : Type 0 where
  ok : A → Result A
  err : Error → Result A

abbrev pub Status : Type 0
Status = Result (Unit {0})

abbrev pub is_ok : {A : Type 0} → Result A → Bool
is_ok (ok _) = true
is_ok (err _) = false

-- A function that may change `*s` and fails with a status; what it did before it failed stays.
abbrev pub Action : Type 0 → Type 0 → Type 0
Action S A = S → Result A × S

abbrev pub bind : {S A B : Type 0} → Result A × S → (A → Action S B) → Result B × S
bind (ok a, s) f = f a s
bind (err e, s) f = (err e, s)

infixl 5 ◌>>=◌ ◌>>◌
abbrev pub ◌>>=◌ : {S A B : Type 0} → Action S A → (A → Action S B) → Action S B
◌>>=◌ m f s = bind (m s) f

abbrev pub ◌>>◌ : {S B : Type 0} → Action S (Unit {0}) → Action S B → Action S B
◌>>◌ m k s = bind (m s) (λ _. k)

abbrev pub return : {S A : Type 0} → A → Action S A
return a s = (ok a, s)

abbrev pub throw : {S A : Type 0} → Error → Action S A
throw e s = (err e, s)

abbrev pub fail : {S A : Type 0} → Error → Action S A
fail e s = (err e, s)

-- `if (test) return e;`
abbrev pub fail_if : {S : Type 0} → Bool → Error → Action S (Unit {0})
fail_if true e s = (err e, s)
fail_if false e s = (ok tt, s)

abbrev pub gets : {S A : Type 0} → (S → A) → Action S A
gets f s = (ok (f s), s)

abbrev pub lift : {S A : Type 0} → Result A → Action S A
lift x s = (x, s)

pub bind-eq_ok :
    {S A B : Type 0} (p : Result A × S) (f : A → Action S B) {b : B}
    → (bind p f).0 ≡ ok b
    → (a : A) × (p.0 ≡ ok a) × ((f a p.1).0 ≡ ok b)
bind-eq_ok (ok a, s) f h = (a, refl, h)
bind-eq_ok (err e, s) f h = cc
