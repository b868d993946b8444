-- ===== src/Tests/Pairing.antt =====
-- core/security/smp_pairing.c and protocols/smp/smp.c at the features of a host and a keyboard.
use aros_bluzing.Prelude.{◌≡◌, refl, ◌⊎◌, false, [], ◌∷◌, replicate, arith}
use aros_bluzing.Status.{ok, err, invalid_argument}
use aros_bluzing.Smp.{
  PairingFeatures, PairingNegotiation, features_valid, within, io_association, negotiate_pairing,
  just_works,
}
use aros_bluzing.Buffer.Writer.{Writer}
use aros_bluzing.Smp.Packets.{parse_command}
use aros_bluzing.Smp.Payloads.{Accepts, parse_command-Accepts}
use aros_bluzing.Smp.Messages.{features, GoesBack, message_back}
use aros_bluzing.Smp.Association.{Agrees, io_association-Agrees}
use aros_bluzing.Smp.Negotiation.{IsAgreed, negotiate_pairing-IsAgreed}

abbrev host : PairingFeatures
host = record {
  io_capability = 1;
  oob_data_flag = 0;
  auth_req = 0x0d;
  max_encryption_key_size = 16;
  initiator_key_distribution = 0x07;
  responder_key_distribution = 0x07;
}

abbrev keyboard : PairingFeatures
keyboard = record host {
  io_capability = 2;
  auth_req = 0x05;
  initiator_key_distribution = 0x02;
  responder_key_distribution = 0x03;
}

negotiate_pairing-IsAgreed_example :
    ((negotiate_pairing host keyboard ≡ err invalid_argument)
      × ((features_valid host ≡ false)
          ⊎ (features_valid keyboard ≡ false)
          ⊎ (within 0x07 0x02 ≡ false)
          ⊎ (within 0x07 0x03 ≡ false)))
    ⊎ ((n : PairingNegotiation) × (negotiate_pairing host keyboard ≡ ok n)
        × IsAgreed host keyboard n)
negotiate_pairing-IsAgreed_example = negotiate_pairing-IsAgreed host keyboard

io_association-Agrees_example : Agrees false 4 2 (io_association 4 2 false)
io_association-Agrees_example = io_association-Agrees false 4 2 (omega arith) (omega arith)

-- A keyboard with a display and a device with a display only.
keyboard_display : io_association 4 0 false ≡ just_works
unfolding io_association
keyboard_display = refl

abbrev room_for_seven : Writer
room_for_seven = record { bytes = replicate 7 0; cap = 7; pos = 0 }

message_back_example : GoesBack (features 0x01 host) room_for_seven
unfolding features_valid
message_back_example =
    message_back (features 0x01 host) room_for_seven (refl, refl)
      (record { held = omega arith; sized = omega arith; within = omega arith })

parse_command-Accepts_example : Accepts (0x05 ∷ 0x08 ∷ []) (parse_command (0x05 ∷ 0x08 ∷ []) 2)
parse_command-Accepts_example = parse_command-Accepts (0x05 ∷ 0x08 ∷ []) (omega arith)
