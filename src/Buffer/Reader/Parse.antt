-- ===== src/Buffer/Reader/Parse.antt =====
-- Parsers built from the read operations of core/buffer/buffer.c, as list parsers: the steps of a
-- `do` block one by one, and what a whole parser makes of the bytes that are left.
use aros_bluzing.Prelude.{
  ℕ, ◌≡◌, refl, ap, ◌∙◌, List, length, if◌then◌else◌, Bool, true, false, Bool-cases, inl, inr, take,
  ◌++◌, ◌∷◌, ◌<◌, ◌+◌, ◌*◌, ◌^◌, take-append, drop-append,
}
use mathlib.Core.Path.{subst}
use aros_bluzing.Status.{
  Error, ok, err, buffer_underflow, Result, Action, ◌>>=◌, return, fail_if, gets,
}
use aros_bluzing.Status.Sim.{Simulates, Simulates-bind}
use aros_bluzing.Buffer.{size_mod}
use aros_bluzing.Buffer.Reader.{Reader, reader_init, remaining, peek_or_fail}
use aros_bluzing.Buffer.Reader.Refine.{
  Views, reader_init-Views_all, remaining-unread, peek-Views, need, has, has_append,
}
use aros_bluzing.Endian
use aros_bluzing.Endian.{IsByte}
use aros_bluzing.Endian.Values.{le16_back, read_le16_value}
use native.Mathlib.Nat.{mod-eq_of_lt}

abbrev pub Parses : {A : Type 0} → Action Reader A → Action (List ℕ) A → Type 0
Parses m n = Simulates Views m n

pub bind-Parses :
    {A B : Type 0} {m : Action Reader A} {n : Action (List ℕ) A} (f : A → Action Reader B)
    (g : A → Action (List ℕ) B)
    → Parses m n
    → ((a : A) → Parses (f a) (g a))
    → Parses (m >>= f) (n >>= g)
bind-Parses f g h k = Simulates-bind Views f g h k

pub return-Parses : {A : Type 0} (a : A) → Parses (return a) (return a)
return-Parses a r l v = (refl, v)

pub fail_if-Parses : (b : Bool) (e : Error) → Parses (fail_if b e) (fail_if b e)
fail_if-Parses true e r l v = (refl, v)
fail_if-Parses false e r l v = (refl, v)

pub remaining-Parses : Parses (gets remaining) (gets length)
remaining-Parses r l v = (ap ok (remaining-unread v.valid ∙ ap length v.rest), v)

-- The next `n` bytes, not consumed.
abbrev pub front : ℕ → Action (List ℕ) (List ℕ)
front n l = if has n l then (ok (take n l), l) else (err buffer_underflow, l)

pub peek-Parses : (n : ℕ) → Parses (peek_or_fail n) (front n)
peek-Parses n r l v = elim (Bool-cases (has n l)) [
  | inl e ↦ rw (peek-Views n r l v, e) (refl, v)
  | inr e ↦ rw (peek-Views n r l v, e) (refl, v)
]

-- The outcome of a parser that returns `a` and leaves `rest`.
abbrev pub Yields : {A : Type 0} → Result A × Reader → A → List ℕ → Type 0
Yields p a rest = (p.0 ≡ ok a) × Views p.1 rest

-- What a parser makes of the bytes `l`.
abbrev pub Reads : {A : Type 0} → Action Reader A → List ℕ → A → List ℕ → Type 0
Reads m l a rest = (r : Reader) → Views r l → Yields (m r) a rest

-- It fails with `e`.
abbrev pub Refuses : {A : Type 0} → Action Reader A → List ℕ → Error → Type 0
Refuses m l e = (r : Reader) → Views r l → (m r).0 ≡ err e

module _ {A : Type 0} {m : Action Reader A} {n : Action (List ℕ) A} (sim : Parses m n) where
  pub Reads-of : {l rest : List ℕ} {a : A} → n l ≡ (ok a, rest) → Reads m l a rest
  Reads-of {l} e r v = subst (λ p. ((m r).0 ≡ p.0) × Views (m r).1 p.1) e (sim r l v)

  pub Refuses-of : {l : List ℕ} {x : Error} → (n l).0 ≡ err x → Refuses m l x
  Refuses-of {l} e r v = (sim r l v).0 ∙ e

-- A parser run on a whole buffer.
pub Parses-all :
    {A : Type 0} {m : Action Reader A} {n : Action (List ℕ) A}
    → Parses m n
    → (bytes : List ℕ) → length bytes < size_mod
    → (m (reader_init bytes (length bytes))).0 ≡ (n bytes).0
Parses-all sim bytes small = (sim _ bytes (reader_init-Views_all bytes refl small)).0

-- Values as they stand on the wire.
pub le16_needed :
    (v : ℕ) (t : List ℕ)
    → v < 2 ^ 16
    → need 2 Endian.read_le16 (Endian.write_le16 v ++ t) ≡ (ok v, t)
unfolding Endian.write_le16
le16_needed v t h = ap (λ x. (ok x, t)) (le16_back v t ∙ mod-eq_of_lt h)

pub le16_bytes_needed :
    (a b : ℕ) (t : List ℕ)
    → IsByte a
    → IsByte b
    → need 2 Endian.read_le16 (a ∷ b ∷ t) ≡ (ok (a + 256 * b), t)
le16_bytes_needed a b t ha hb = ap (λ x. (ok x, t)) (read_le16_value a b t ha hb)

pub payload_needed :
    {A : Type 0} (value : List ℕ → A) (p rest : List ℕ)
    → need (length p) value (p ++ rest) ≡ (ok (value (p ++ rest)), rest)
payload_needed value p rest = rw (has_append p rest, drop-append p rest)

pub payload_front : (p rest : List ℕ) → front (length p) (p ++ rest) ≡ (ok p, p ++ rest)
payload_front p rest = rw (has_append p rest, take-append p rest)
