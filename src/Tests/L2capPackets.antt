-- ===== src/Tests/L2capPackets.antt =====
-- protocols/l2cap at concrete fragments and commands.
use aros_bluzing.Prelude.{
  ℕ, suc, ◌<◌, ◌≡◌, refl, List, [], ◌∷◌, ◌++◌, length, replicate, length-replicate, true, arith,
}
use aros_bluzing.Status.{ok}
use aros_bluzing.Endian
use aros_bluzing.Buffer.Writer.{Writer}
use aros_bluzing.Buffer.Writer.Emits.{Appends}
use aros_bluzing.L2cap.{Reassembler, reassembly_max, reassembler_feed, more}
use aros_bluzing.L2cap.Assembly.{Holds, Steps, assemble}
use aros_bluzing.L2cap.Reassembly.{reassembler_feed-Steps}
use aros_bluzing.L2cap.Rebuild.{IsPdu, feed_rest, concat, fragments_rebuild}
use aros_bluzing.L2cap.Signaling.{configure_request_fields, configure_response_fields}
use aros_bluzing.Buffer.Reader.{reader_init}
use aros_bluzing.Buffer.Reader.Refine.{Views}
use aros_bluzing.L2cap.Signaling.{
  encode_connection_request, parse_connection_request, encode_connection_response,
  parse_connection_response, encode_disconnection_request, encode_disconnection_response,
  parse_disconnection, encode_command_reject, parse_command_reject, encode_configure_request,
  parse_configure_request, encode_configure_response, parse_configure_response,
}
use aros_bluzing.L2cap.Signaling.Commands.{
  le16s, sig_header_bytes, command_bytes, commands_back, command_reject_back,
}
use aros_bluzing.L2cap.Signaling.Scan.{ConfigOption, mtu_option, other_option, options_bytes}
use aros_bluzing.L2cap.Signaling.Options.{mtu_options, configure_options, encode_configure-Appends}

abbrev pub idle : Reassembler
idle = record { buf = replicate reassembly_max 0; have = 0; want = 0 }

pub idle-Holds : Holds idle []
idle-Holds = record {
  sized = length-replicate {A = ℕ} reassembly_max 0;
  front = refl;
  held = refl;
  small = omega arith;
  want = refl;
  fits = omega arith;
  bytes = tt;
}

-- A PDU of three bytes for the channel 4, and its beginning.
abbrev start : List ℕ
start = 3 ∷ 0 ∷ 4 ∷ []

reassembler_feed-Steps_example : Steps (reassembler_feed 0 start 3 idle) (assemble 0 start [])
reassembler_feed-Steps_example =
    reassembler_feed-Steps 0 start [] idle (omega arith) (omega arith) idle-Holds

whole-IsPdu : IsPdu (start ++ (concat ((0 ∷ 9 ∷ []) ∷ (8 ∷ []) ∷ []) ++ (7 ∷ [])))
whole-IsPdu = record {
  declared = refl;
  header = omega arith;
  small = omega arith;
  bytes = omega arith;
}

fragments_rebuild_example :
    Steps
      (feed_rest ((0 ∷ 9 ∷ []) ∷ (8 ∷ []) ∷ []) (reassembler_feed 2 start 3 idle))
      (more, 3 ∷ 0 ∷ 4 ∷ 0 ∷ 9 ∷ 8 ∷ [])
fragments_rebuild_example =
    fragments_rebuild 2 start (7 ∷ []) ((0 ∷ 9 ∷ []) ∷ (8 ∷ []) ∷ []) idle [] (omega arith)
      (omega arith) whole-IsPdu idle-Holds

abbrev writer : Writer
writer = record { bytes = replicate 20 0; cap = 20; pos = 0 }

commands_back_example :
    Appends (command_bytes 2 7 (1 ∷ 0x40 ∷ [])) writer (encode_connection_request 7 1 0x40 writer)
    × (parse_connection_request (le16s (1 ∷ 0x40 ∷ [])) 4
        ≡ ok (record { psm = 1; source_cid = 0x40 }))
    × Appends
        (command_bytes 3 7 (1 ∷ 0x40 ∷ 0 ∷ 2 ∷ []))
        writer
        (encode_connection_response 7 1 0x40 0 2 writer)
    × (parse_connection_response (le16s (1 ∷ 0x40 ∷ 0 ∷ 2 ∷ [])) 8
        ≡ ok (record { destination_cid = 1; source_cid = 0x40; result = 0; status = 2 }))
    × Appends
        (command_bytes 6 7 (1 ∷ 0x40 ∷ []))
        writer
        (encode_disconnection_request 7 1 0x40 writer)
    × Appends
        (command_bytes 7 7 (1 ∷ 0x40 ∷ []))
        writer
        (encode_disconnection_response 7 1 0x40 writer)
    × (parse_disconnection (le16s (1 ∷ 0x40 ∷ [])) 4
        ≡ ok (record { destination_cid = 1; source_cid = 0x40 }))
commands_back_example =
    commands_back 7 1 0x40 0 2 writer (omega arith) (omega arith) (omega arith) (omega arith)
      (omega arith)

command_reject_back_example :
    Appends (command_bytes 1 7 (2 ∷ [])) writer (encode_command_reject 7 2 writer)
    × (parse_command_reject (Endian.write_le16 2 ++ (5 ∷ 6 ∷ [])) 4
        ≡ ok (record { reason = 2; reason_data = 5 ∷ 6 ∷ []; data_len = 2 }))
command_reject_back_example =
    command_reject_back 7 2 (5 ∷ 6 ∷ []) writer (omega arith) (omega arith) (omega arith)

-- A flush timeout of two bytes, and the MTU twice.
abbrev options : List ConfigOption
options = mtu_option 48 ∷ other_option 2 (255 ∷ 255 ∷ []) ∷ mtu_option 672 ∷ []

options_len : length (options_bytes options) < 65536
unfolding Endian.write_le16
options_len = omega arith

configure_options_example :
    (parse_configure_request
        (Endian.write_le16 0x41 ++ (Endian.write_le16 0 ++ options_bytes options))
        (suc (suc (suc (suc (length (options_bytes options))))))
      ≡ ok (record { destination_cid = 0x41; flags = 0; has_mtu = true; mtu = 672 }))
    × (parse_configure_response
          (Endian.write_le16 0x41
            ++ (Endian.write_le16 0 ++ (Endian.write_le16 3 ++ options_bytes options)))
          (suc (suc (suc (suc (suc (suc (length (options_bytes options))))))))
        ≡ ok (record { source_cid = 0x41; flags = 0; result = 3; has_mtu = true; mtu = 672 }))
    × Views
        (configure_request_fields (
          reader_init
            (Endian.write_le16 0x41 ++ (Endian.write_le16 0 ++ options_bytes options))
            (suc (suc (suc (suc (length (options_bytes options)))))))).1
        []
    × Views
        (configure_response_fields (
          reader_init
            (Endian.write_le16 0x41
              ++ (Endian.write_le16 0 ++ (Endian.write_le16 3 ++ options_bytes options)))
            (suc (suc (suc (suc (suc (suc (length (options_bytes options)))))))))).1
        []
configure_options_example =
    configure_options 0x41 0 3 options (omega arith) (omega arith) (omega arith)
      (omega arith, ((λ e. absurd (omega arith)), (omega arith, tt))) options_len

encode_configure-Appends_example :
    Appends
      (sig_header_bytes 4 7 8
        ++ (Endian.write_le16 0x41 ++ (Endian.write_le16 0 ++ options_bytes (mtu_options 672))))
      writer
      (encode_configure_request 7 0x41 0 672 writer)
    × Appends
        (sig_header_bytes 5 7 10
          ++ (Endian.write_le16 0x41
              ++ (Endian.write_le16 0 ++ (Endian.write_le16 3 ++ options_bytes (mtu_options 672)))))
        writer
        (encode_configure_response 7 0x41 0 3 672 writer)
unfolding Endian.write_le16
encode_configure-Appends_example = encode_configure-Appends 7 0x41 0 3 672 writer (omega arith)
