-- ===== src/Smp/Association.antt =====
-- core/security/smp_pairing.c: the association method against the tables of the specification.
use aros_bluzing.Prelude.{
  ℕ, zero, suc, ◌≤◌, ◌≡◌, refl, get_or, List, [], ◌∷◌, ◌==◌, not, ◌&&◌, ◌||◌, Bool, true, false,
  ◌⊎◌, inl, inr, arith,
}
use aros_bluzing.Smp.{
  AssociationMethod, just_works, numeric_comparison, passkey_initiator_displays,
  passkey_responder_displays, passkey_both_input, io_association,
}

-- The methods of the Core Specification, Vol 3 Part H, table 2.8: a row for each capability of the
-- responder, a column for each of the initiator, in the order of their numbers: a display only, a
-- display with yes and no, a keyboard only, nothing, and a keyboard with a display.
abbrev legacy_table : List (List AssociationMethod)
legacy_table =
    (just_works ∷ just_works ∷ passkey_responder_displays ∷ just_works ∷ passkey_responder_displays
      ∷ [])
    ∷ (just_works ∷ just_works ∷ passkey_responder_displays ∷ just_works
        ∷ passkey_responder_displays ∷ [])
    ∷ (passkey_initiator_displays ∷ passkey_initiator_displays ∷ passkey_both_input ∷ just_works
        ∷ passkey_initiator_displays ∷ [])
    ∷ (just_works ∷ just_works ∷ just_works ∷ just_works ∷ just_works ∷ [])
    ∷ (passkey_initiator_displays ∷ passkey_initiator_displays ∷ passkey_responder_displays
        ∷ just_works ∷ passkey_initiator_displays ∷ [])
    ∷ []

abbrev secure_table : List (List AssociationMethod)
secure_table =
    (just_works ∷ just_works ∷ passkey_responder_displays ∷ just_works ∷ passkey_responder_displays
      ∷ [])
    ∷ (just_works ∷ numeric_comparison ∷ passkey_responder_displays ∷ just_works
        ∷ numeric_comparison ∷ [])
    ∷ (passkey_initiator_displays ∷ passkey_initiator_displays ∷ passkey_both_input ∷ just_works
        ∷ passkey_initiator_displays ∷ [])
    ∷ (just_works ∷ just_works ∷ just_works ∷ just_works ∷ just_works ∷ [])
    ∷ (passkey_initiator_displays ∷ numeric_comparison ∷ passkey_responder_displays ∷ just_works
        ∷ numeric_comparison ∷ [])
    ∷ []

abbrev pub table : Bool → ℕ → ℕ → AssociationMethod
table true initiator responder = get_or (get_or secure_table responder []) initiator just_works
table false initiator responder = get_or (get_or legacy_table responder []) initiator just_works

-- The pairs at which the code differs from the table.
abbrev pub departs : Bool → ℕ → ℕ → Bool
departs secure_connections a b =
    ((a == 0) && (b == 4))
    || (((a == 4) && (b == 0))
        || (not secure_connections
            && (((a == 1) && (b == 4)) || (((a == 4) && (b == 1)) || ((a == 4) && (b == 4))))))

-- The method is that of the table, or at one of the pairs the one without confirmation where the table
-- has a passkey that one device displays.
abbrev pub Agrees : Bool → ℕ → ℕ → AssociationMethod → Type 0
Agrees sc a b m =
    (departs sc a b ≡ false) × (m ≡ table sc a b)
    ⊎ (departs sc a b ≡ true)
      × (m ≡ just_works)
      × ((table sc a b ≡ passkey_initiator_displays) ⊎ (table sc a b ≡ passkey_responder_displays))

-- A property of the five capabilities.
for_five : (P : ℕ → Type 0) → P 0 → P 1 → P 2 → P 3 → P 4 → (a : ℕ) → a ≤ 4 → P a
for_five P p q r s t zero h = p
for_five P p q r s t (suc zero) h = q
for_five P p q r s t (suc (suc zero)) h = r
for_five P p q r s t (suc (suc (suc zero))) h = s
for_five P p q r s t (suc (suc (suc (suc zero)))) h = t
for_five P p q r s t (suc (suc (suc (suc (suc a))))) h = absurd (omega arith)

-- For the capabilities that there are, the method is the one of the specification's table, but for a
-- device with a keyboard and a display and a partner with a display: there the code takes the method
-- without confirmation, unless both compare numbers, where the table has a passkey.
pub io_association-Agrees :
    (sc : Bool) (a b : ℕ) → a ≤ 4 → b ≤ 4 → Agrees sc a b (io_association a b sc)
unfolding io_association
io_association-Agrees true a b h k =
    for_five (λ x. (y : ℕ) → y ≤ 4 → Agrees true x y (io_association x y true))
      (for_five (λ b. Agrees true 0 b (io_association 0 b true)) (inl (refl, refl))
        (inl (refl, refl)) (inl (refl, refl)) (inl (refl, refl)) (inr (refl, refl, inl refl)))
      (for_five (λ b. Agrees true 1 b (io_association 1 b true)) (inl (refl, refl))
        (inl (refl, refl)) (inl (refl, refl)) (inl (refl, refl)) (inl (refl, refl)))
      (for_five (λ b. Agrees true 2 b (io_association 2 b true)) (inl (refl, refl))
        (inl (refl, refl)) (inl (refl, refl)) (inl (refl, refl)) (inl (refl, refl)))
      (for_five (λ b. Agrees true 3 b (io_association 3 b true)) (inl (refl, refl))
        (inl (refl, refl)) (inl (refl, refl)) (inl (refl, refl)) (inl (refl, refl)))
      (for_five (λ b. Agrees true 4 b (io_association 4 b true)) (inr (refl, refl, inr refl))
        (inl (refl, refl)) (inl (refl, refl)) (inl (refl, refl)) (inl (refl, refl)))
      a h b k
io_association-Agrees false a b h k =
    for_five (λ x. (y : ℕ) → y ≤ 4 → Agrees false x y (io_association x y false))
      (for_five (λ b. Agrees false 0 b (io_association 0 b false)) (inl (refl, refl))
        (inl (refl, refl)) (inl (refl, refl)) (inl (refl, refl)) (inr (refl, refl, inl refl)))
      (for_five (λ b. Agrees false 1 b (io_association 1 b false)) (inl (refl, refl))
        (inl (refl, refl)) (inl (refl, refl)) (inl (refl, refl)) (inr (refl, refl, inl refl)))
      (for_five (λ b. Agrees false 2 b (io_association 2 b false)) (inl (refl, refl))
        (inl (refl, refl)) (inl (refl, refl)) (inl (refl, refl)) (inl (refl, refl)))
      (for_five (λ b. Agrees false 3 b (io_association 3 b false)) (inl (refl, refl))
        (inl (refl, refl)) (inl (refl, refl)) (inl (refl, refl)) (inl (refl, refl)))
      (for_five (λ b. Agrees false 4 b (io_association 4 b false)) (inr (refl, refl, inr refl))
        (inr (refl, refl, inr refl)) (inl (refl, refl)) (inl (refl, refl))
        (inr (refl, refl, inl refl)))
      a h b k
