-- ===== src/Smp.antt =====
-- core/security/smp_pairing.c: what two devices agree on before they pair.
pub mod Association
pub mod Negotiation
pub mod Packets
pub mod Payloads
pub mod RoundTrip
pub mod Keys
pub mod Messages
use aros_bluzing.Prelude.{
  ℕ, ◌-◌, ltb, leb, ◌==◌, not, ◌&&◌, ◌||◌, if◌then◌else◌, Bool, true, false, bit_and,
}
use aros_bluzing.Status.{ok, err, invalid_argument, Result}

pub record PairingFeatures : Type 0 where
  pub io_capability : ℕ
  pub oob_data_flag : ℕ
  pub auth_req : ℕ
  pub max_encryption_key_size : ℕ
  pub initiator_key_distribution : ℕ
  pub responder_key_distribution : ℕ

pub data AssociationMethod : Type 0 where
  just_works oob numeric_comparison passkey_initiator_displays passkey_responder_displays
        passkey_both_input :
      AssociationMethod

pub record PairingNegotiation : Type 0 where
  pub secure_connections : Bool
  pub bonding : Bool
  pub mitm_requested : Bool
  pub encryption_key_size : ℕ
  pub initiator_key_distribution : ℕ
  pub responder_key_distribution : ℕ
  pub association : AssociationMethod

abbrev pub auth_req_bonding : ℕ
auth_req_bonding = 0x01

abbrev pub auth_req_mitm : ℕ
auth_req_mitm = 0x04

abbrev pub auth_req_sc : ℕ
auth_req_sc = 0x08

abbrev pub auth_req_valid_mask : ℕ
auth_req_valid_mask = 0x3d

abbrev pub key_dist_valid_mask : ℕ
key_dist_valid_mask = 0x0f

-- `(x & ~mask) == 0` of bytes.
abbrev pub within : ℕ → ℕ → Bool
within mask x = bit_and x (0xff - mask) == 0

-- `(x & flag) != 0`
abbrev pub has_flag : ℕ → ℕ → Bool
has_flag flag x = not (bit_and x flag == 0)

unfoldable pub features_valid : PairingFeatures → Bool
features_valid f =
    leb f.io_capability 4
    && (leb f.oob_data_flag 1
        && (within auth_req_valid_mask f.auth_req
            && (leb (bit_and f.auth_req 0x03) auth_req_bonding
                && (leb 7 f.max_encryption_key_size
                    && (leb f.max_encryption_key_size 16
                        && (within key_dist_valid_mask f.initiator_key_distribution
                            && within key_dist_valid_mask f.responder_key_distribution))))))

abbrev pub has_yes_no : ℕ → Bool
has_yes_no io = (io == 0x01) || (io == 0x04)

-- A display, whatever else there is.
abbrev pub displays : ℕ → Bool
displays io = (io == 0x00) || ((io == 0x01) || (io == 0x04))

-- The last test of `io_association`, on a responder with a keyboard only.
abbrev pub responder_keyboard : ℕ → ℕ → AssociationMethod
responder_keyboard initiator responder =
    if (responder == 0x02) && displays initiator then passkey_initiator_displays else just_works

unfoldable pub io_association : ℕ → ℕ → Bool → AssociationMethod
io_association initiator responder secure_connections =
    if secure_connections && (has_yes_no initiator && has_yes_no responder)
    then numeric_comparison
    else if (initiator == 0x03) || (responder == 0x03)
    then just_works
    else if initiator == 0x02
    then if responder == 0x02
      then passkey_both_input
      else if displays responder
      then passkey_responder_displays
      else responder_keyboard initiator responder
    else responder_keyboard initiator responder

abbrev pub choose : PairingFeatures → PairingFeatures → Bool → Bool → AssociationMethod
choose request response secure_connections mitm_requested =
    if (secure_connections
        && (not (request.oob_data_flag == 0) || not (response.oob_data_flag == 0)))
      || (not secure_connections
          && (not (request.oob_data_flag == 0) && not (response.oob_data_flag == 0)))
    then oob
    else if not mitm_requested
    then just_works
    else io_association request.io_capability response.io_capability secure_connections

abbrev pub outcome : PairingFeatures → PairingFeatures → PairingNegotiation
outcome request response =
    let both = bit_and request.auth_req response.auth_req in
    let sc = has_flag auth_req_sc both in
    let mitm =
      has_flag auth_req_mitm request.auth_req || has_flag auth_req_mitm response.auth_req in
    record {
      secure_connections = sc;
      bonding = has_flag auth_req_bonding both;
      mitm_requested = mitm;
      encryption_key_size =
          if ltb request.max_encryption_key_size response.max_encryption_key_size
          then request.max_encryption_key_size
          else response.max_encryption_key_size;
      initiator_key_distribution = response.initiator_key_distribution;
      responder_key_distribution = response.responder_key_distribution;
      association = choose request response sc mitm;
    }

unfoldable pub negotiate_pairing : PairingFeatures → PairingFeatures → Result PairingNegotiation
negotiate_pairing request response =
    if not (features_valid request) || not (features_valid response)
    then err invalid_argument
    else if not (within request.initiator_key_distribution response.initiator_key_distribution)
        || not (within request.responder_key_distribution response.responder_key_distribution)
    then err invalid_argument
    else ok (outcome request response)
