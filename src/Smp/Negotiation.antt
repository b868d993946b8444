-- ===== src/Smp/Negotiation.antt =====
-- core/security/smp_pairing.c: the outcome of a negotiation.
use aros_bluzing.Prelude.{
  ℕ, ◌≤◌, ◌<◌, ◌+◌, ◌/◌, ◌%◌, ◌^◌, ◌≡◌, refl, ap₂, min, is_bit, is_bit_both, if◌then◌else◌, ◌==◌,
  not, ◌&&◌, ◌||◌, Bool, true, false, Bool-cases, ◌⊎◌, inl, inr, arith,
}
use aros_bluzing.Status.{ok, err, invalid_argument}
use aros_bluzing.Smp.Association.{Agrees, io_association-Agrees}
use aros_bluzing.Smp.{
  PairingFeatures, AssociationMethod, just_works, oob, PairingNegotiation, features_valid, within,
  choose, outcome, negotiate_pairing,
}

-- Both devices ask for the feature with the bit `k`, or one of them does.
abbrev pub both_ask : ℕ → PairingFeatures → PairingFeatures → Bool
both_ask k request response =
    (request.auth_req / 2 ^ k % 2 == 1) && (response.auth_req / 2 ^ k % 2 == 1)

abbrev pub one_asks : ℕ → PairingFeatures → PairingFeatures → Bool
one_asks k request response =
    (request.auth_req / 2 ^ k % 2 == 1) || (response.auth_req / 2 ^ k % 2 == 1)

-- How many devices have data of the other from out of band.
abbrev pub oob_count : PairingFeatures → PairingFeatures → ℕ
oob_count request response = request.oob_data_flag + response.oob_data_flag

-- How a method is selected: out of band where one device has the data, or both have them without
-- Secure Connections; else without confirmation if no device asks for protection; else by the
-- capabilities.
abbrev pub Selected : PairingFeatures → PairingFeatures → Bool → Bool → AssociationMethod → Type 0
Selected request response sc mitm m =
    ((if sc then 1 else 2) ≤ oob_count request response) × (m ≡ oob)
    ⊎ (oob_count request response < (if sc then 1 else 2))
      × ((mitm ≡ false) × (m ≡ just_works)
          ⊎ (mitm ≡ true) × Agrees sc request.io_capability response.io_capability m)

choose-Selected :
    (request response : PairingFeatures) (sc mitm : Bool)
    → request.oob_data_flag ≤ 1
    → response.oob_data_flag ≤ 1
    → request.io_capability ≤ 4
    → response.io_capability ≤ 4
    → Selected request response sc mitm (choose request response sc mitm)
choose-Selected request response true mitm h k i j =
    elim (Bool-cases (not (request.oob_data_flag == 0) || not (response.oob_data_flag == 0))) [
      | inl e ↦ rw e (inl (ground arith, refl))
      | inr e ↦ elim (Bool-cases mitm) [
        | inl m ↦ rw (e, m) (inr (ground arith, inr (refl, io_association-Agrees true _ _ i j)))
        | inr m ↦ rw (e, m) (inr (ground arith, inl (refl, refl)))
      ]
    ]
choose-Selected request response false mitm h k i j =
    elim (Bool-cases (not (request.oob_data_flag == 0) && not (response.oob_data_flag == 0))) [
      | inl e ↦ rw e (inl (ground arith, refl))
      | inr e ↦ elim (Bool-cases mitm) [
        | inl m ↦ rw (e, m) (inr (ground arith, inr (refl, io_association-Agrees false _ _ i j)))
        | inr m ↦ rw (e, m) (inr (ground arith, inl (refl, refl)))
      ]
    ]

-- What an agreement guarantees.
pub record IsAgreed (request response : PairingFeatures) (n : PairingNegotiation) : Type 0 where
  pub secure_connections : n.secure_connections ≡ both_ask 3 request response
  pub bonding : n.bonding ≡ both_ask 0 request response
  pub mitm : n.mitm_requested ≡ one_asks 2 request response
  pub key_size :
      n.encryption_key_size ≡ min request.max_encryption_key_size response.max_encryption_key_size
  pub key_size_range : (7 ≤ n.encryption_key_size) × (n.encryption_key_size ≤ 16)
  pub initiator_keys :
      (n.initiator_key_distribution ≡ response.initiator_key_distribution)
      × (within request.initiator_key_distribution n.initiator_key_distribution ≡ true)
  pub responder_keys :
      (n.responder_key_distribution ≡ response.responder_key_distribution)
      × (within request.responder_key_distribution n.responder_key_distribution ≡ true)
  pub method : Selected request response n.secure_connections n.mitm_requested n.association

valid_bounds :
    (f : PairingFeatures)
    → features_valid f ≡ true
    → (f.oob_data_flag ≤ 1)
      × (f.io_capability ≤ 4)
      × (7 ≤ f.max_encryption_key_size)
      × (f.max_encryption_key_size ≤ 16)
unfolding features_valid
valid_bounds f h = ground arith

agreed :
    (request response : PairingFeatures)
    → features_valid request ≡ true
    → features_valid response ≡ true
    → within request.initiator_key_distribution response.initiator_key_distribution ≡ true
    → within request.responder_key_distribution response.responder_key_distribution ≡ true
    → IsAgreed request response (outcome request response)
agreed request response e f g k =
    let (a, i, b, c) = valid_bounds request e in
    let (d, j, l, m) = valid_bounds response f in
    record {
      secure_connections = is_bit_both 3 request.auth_req response.auth_req;
      bonding = is_bit_both 0 request.auth_req response.auth_req;
      mitm = ap₂ ◌||◌ (is_bit 2 request.auth_req) (is_bit 2 response.auth_req);
      key_size = ground arith;
      key_size_range = ground arith;
      initiator_keys = (refl, g);
      responder_keys = (refl, k);
      method =
          choose-Selected request response (outcome request response).secure_connections
            (outcome request response).mitm_requested a d i j;
    }

-- A negotiation fails only on features out of range or a response that adds keys to the request. Where
-- it succeeds, it has Secure Connections and bonding if both sides ask for them, and protection if one
-- asks for it; the key size is the smaller one and in range; the keys are those of the response, and
-- the request has them. The method is out of band if one side has the data (without Secure Connections,
-- both), else the one without confirmation if no side asks for protection, and else the one of the
-- specification's table for the two capabilities, but for the pairs at which the code departs from it.
pub negotiate_pairing-IsAgreed :
    (request response : PairingFeatures)
    → ((negotiate_pairing request response ≡ err invalid_argument)
        × ((features_valid request ≡ false)
            ⊎ (features_valid response ≡ false)
            ⊎ (within request.initiator_key_distribution response.initiator_key_distribution
                ≡ false)
            ⊎ (within request.responder_key_distribution response.responder_key_distribution
                ≡ false)))
      ⊎ ((n : PairingNegotiation) × (negotiate_pairing request response ≡ ok n)
          × IsAgreed request response n)
unfolding negotiate_pairing
negotiate_pairing-IsAgreed request response = elim (Bool-cases (features_valid request)) [
  | inr e ↦ rw e (inl (refl, inl refl))
  | inl e ↦ elim (Bool-cases (features_valid response)) [
    | inr f ↦ rw (e, f) (inl (refl, inr (inl refl)))
    | inl f ↦
        elim (Bool-cases
          (within request.initiator_key_distribution response.initiator_key_distribution)) [
            | inr g ↦ rw (e, f, g) (inl (refl, inr (inr (inl refl))))
            | inl g ↦
                elim (Bool-cases
                  (within request.responder_key_distribution response.responder_key_distribution)) [
                    | inr k ↦ rw (e, f, g, k) (inl (refl, inr (inr (inr refl))))
                    | inl k ↦
                        rw (e, f, g, k)
                          (inr (outcome request response, refl, agreed request response e f g k))
                  ]
          ]
  ]
]
