-- ===== src/Status/Sim.antt =====
-- Simulation of one kind of state by another: an action and its description give the same result
-- and keep related states related.
use aros_bluzing.Prelude.{◌≡◌}
use mathlib.Core.Path.{subst}
use aros_bluzing.Status.{Result, ok, err, Action, bind, ◌>>=◌}

module _ {S T : Type 0} (R : S → T → Type 0) where
  abbrev pub Agree : {A : Type 0} → Result A × S → Result A × T → Type 0
  Agree p q = (p.0 ≡ q.0) × R p.1 q.1

  abbrev pub Simulates : {A : Type 0} → Action S A → Action T A → Type 0
  Simulates m n = (s : S) (t : T) → R s t → Agree (m s) (n t)

  Agree-bind :
      {A B : Type 0} (p : Result A × S) (q : Result A × T) (f : A → Action S B) (g : A → Action T B)
      → Agree p q
      → ((a : A) → Simulates (f a) (g a))
      → Agree (bind p f) (bind q g)
  Agree-bind (ok a, s) (ok b, t) f g (e, r) h =
      let same : a ≡ b = cc in subst (λ x. Agree (f a s) (g x t)) same (h a s t r)
  Agree-bind (ok a, s) (err x, t) f g (e, r) h = cc
  Agree-bind (err x, s) (ok b, t) f g (e, r) h = cc
  Agree-bind (err x, s) (err y, t) f g (e, r) h = (cc, r)

  -- A chain of simulated actions is simulated.
  pub Simulates-bind :
      {A B : Type 0} {m : Action S A} {n : Action T A} (f : A → Action S B) (g : A → Action T B)
      → Simulates m n
      → ((a : A) → Simulates (f a) (g a))
      → Simulates (m >>= f) (n >>= g)
  Simulates-bind {m} {n} f g h k s t r = Agree-bind (m s) (n t) f g (h s t r) k
