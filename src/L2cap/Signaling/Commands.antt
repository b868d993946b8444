-- ===== src/L2cap/Signaling/Commands.antt =====
-- protocols/l2cap/signaling.c: the commands with fields of a fixed size, and their parsers.
use aros_bluzing.Prelude.{
  ℕ, suc, ◌<◌, ◌^◌, ◌≡◌, refl, ap, ◌∙◌, List, [], ◌∷◌, ◌++◌, length, arith, take_all, le→ltb,
}
use aros_bluzing.Status.{ok, Action, ◌>>=◌, ◌>>◌, return, gets}
use aros_bluzing.Endian
use aros_bluzing.Buffer.Reader.Refine.{need, has-length, read_le16-Views}
use aros_bluzing.Buffer.Reader.Parse.{
  Parses, bind-Parses, return-Parses, remaining-Parses, front, peek-Parses, Parses-all, le16_needed,
}
use aros_bluzing.Buffer.Writer.{Writer, write_le16}
use aros_bluzing.Buffer.Writer.Emits.{
  Emits, Appends, IsValid, Appends-of, then-Emits, write_u8-Emits, write_le16-Emits,
}
use aros_bluzing.L2cap.Signaling.{
  sig_encode_header, encode_connection_request, ConnectionRequest, connection_request_fields,
  parse_connection_request, encode_connection_response, ConnectionResponse,
  connection_response_fields, parse_connection_response, encode_disconnection_request,
  encode_disconnection_response, Disconnection, disconnection_fields, parse_disconnection,
  encode_command_reject, CommandReject, command_reject_fields, parse_command_reject,
}

-- Values of 16 bits one after the other.
abbrev pub le16s : List ℕ → List ℕ
le16s [] = []
le16s (v ∷ t) = Endian.write_le16 v ++ le16s t

abbrev pub sig_header_bytes : ℕ → ℕ → ℕ → List ℕ
sig_header_bytes code identifier length = code ∷ identifier ∷ Endian.write_le16 length

pub sig_encode_header-Emits :
    (code identifier length : ℕ)
    → Emits (sig_encode_header code identifier length) (sig_header_bytes code identifier length)
unfolding sig_encode_header
sig_encode_header-Emits code identifier length =
    then-Emits (write_u8-Emits code)
      (then-Emits (write_u8-Emits identifier) (write_le16-Emits length))

-- What each parser makes of the bytes after the header.
list_connection_request : Action (List ℕ) ConnectionRequest
list_connection_request = do
  psm ← need 2 Endian.read_le16
  source_cid ← need 2 Endian.read_le16
  return (record { psm = psm; source_cid = source_cid })

connection_request-Parses : Parses connection_request_fields list_connection_request
unfolding connection_request_fields list_connection_request
connection_request-Parses = bind-Parses _ _ read_le16-Views λ psm.
    bind-Parses _ _ read_le16-Views λ cid. return-Parses (record { psm = psm; source_cid = cid })

list_connection_response : Action (List ℕ) ConnectionResponse
list_connection_response = do
  destination_cid ← need 2 Endian.read_le16
  source_cid ← need 2 Endian.read_le16
  result ← need 2 Endian.read_le16
  status ← need 2 Endian.read_le16
  return (record {
    destination_cid = destination_cid;
    source_cid = source_cid;
    result = result;
    status = status;
  })

connection_response-Parses : Parses connection_response_fields list_connection_response
unfolding connection_response_fields list_connection_response
connection_response-Parses = bind-Parses _ _ read_le16-Views λ d.
    bind-Parses _ _ read_le16-Views λ s. bind-Parses _ _ read_le16-Views λ result.
      bind-Parses _ _ read_le16-Views λ status.
        return-Parses
          (record { destination_cid = d; source_cid = s; result = result; status = status })

list_disconnection : Action (List ℕ) Disconnection
list_disconnection = do
  destination_cid ← need 2 Endian.read_le16
  source_cid ← need 2 Endian.read_le16
  return (record { destination_cid = destination_cid; source_cid = source_cid })

disconnection-Parses : Parses disconnection_fields list_disconnection
unfolding disconnection_fields list_disconnection
disconnection-Parses = bind-Parses _ _ read_le16-Views λ d.
    bind-Parses _ _ read_le16-Views
      λ s. return-Parses (record { destination_cid = d; source_cid = s })

list_command_reject : Action (List ℕ) CommandReject
list_command_reject = do
  reason ← need 2 Endian.read_le16
  data_len ← gets length
  reason_data ← front data_len
  return (record { reason = reason; reason_data = reason_data; data_len = data_len })

command_reject-Parses : Parses command_reject_fields list_command_reject
unfolding command_reject_fields list_command_reject
command_reject-Parses = bind-Parses _ _ read_le16-Views λ reason.
    bind-Parses _ _ remaining-Parses λ n.
      bind-Parses _ _ (peek-Parses n)
        λ bytes. return-Parses (record { reason = reason; reason_data = bytes; data_len = n })

-- The header and the fields of a command, in 16 bits each.
abbrev pub command_bytes : ℕ → ℕ → List ℕ → List ℕ
command_bytes code identifier fields =
    sig_header_bytes code identifier (length (le16s fields)) ++ le16s fields

parse_connection_request_lem :
    (psm cid : ℕ)
    → psm < 2 ^ 16
    → cid < 2 ^ 16
    → list_connection_request (le16s (psm ∷ cid ∷ []))
      ≡ (ok (record { psm = psm; source_cid = cid }), [])
unfolding list_connection_request
parse_connection_request_lem psm cid hp hc =
    rw (le16_needed psm (le16s (cid ∷ [])) hp, le16_needed cid [] hc) refl

parse_connection_response_lem :
    (d s result status : ℕ)
    → d < 2 ^ 16
    → s < 2 ^ 16
    → result < 2 ^ 16
    → status < 2 ^ 16
    → list_connection_response (le16s (d ∷ s ∷ result ∷ status ∷ []))
      ≡ (ok (record { destination_cid = d; source_cid = s; result = result; status = status }), [])
unfolding list_connection_response
parse_connection_response_lem d s result status hd hs hr ht =
    rw
      (
        le16_needed d (le16s (s ∷ result ∷ status ∷ [])) hd,
        le16_needed s (le16s (result ∷ status ∷ [])) hs,
        le16_needed result (le16s (status ∷ [])) hr,
        le16_needed status [] ht,
      )
      refl

parse_disconnection_lem :
    (d s : ℕ)
    → d < 2 ^ 16
    → s < 2 ^ 16
    → list_disconnection (le16s (d ∷ s ∷ []))
      ≡ (ok (record { destination_cid = d; source_cid = s }), [])
unfolding list_disconnection
parse_disconnection_lem d s hd hs = rw (le16_needed d (le16s (s ∷ [])) hd, le16_needed s [] hs) refl

parse_command_reject_lem :
    (reason : ℕ) (rest : List ℕ)
    → reason < 2 ^ 16
    → (list_command_reject (Endian.write_le16 reason ++ rest)).0
      ≡ ok (record { reason = reason; reason_data = rest; data_len = length rest })
unfolding list_command_reject
parse_command_reject_lem reason rest h =
    let whole : front (length rest) rest ≡ (ok rest, rest) =
      rw
        (
          has-length (length rest) rest,
          le→ltb (length rest) (length rest) (omega arith),
          take_all (length rest) rest (omega arith),
        )
        refl in
    rw (le16_needed reason rest h, whole) refl

two_fields :
    (code identifier a b : ℕ)
    → Emits
        (sig_encode_header code identifier 4 >> (write_le16 a >> write_le16 b))
        (command_bytes code identifier (a ∷ b ∷ []))
unfolding Endian.write_le16
two_fields code identifier a b =
    then-Emits (sig_encode_header-Emits code identifier 4)
      (then-Emits (write_le16-Emits a) (write_le16-Emits b))

-- The commands with fields of two bytes only: each is written whole if the writer has room for it and
-- is refused with an overflow if it has not, after which a beginning of it may be there; the fields
-- are parsed back from the bytes after the header.
pub commands_back :
    (identifier a b c d : ℕ) (w : Writer)
    → a < 2 ^ 16
    → b < 2 ^ 16
    → c < 2 ^ 16
    → d < 2 ^ 16
    → IsValid w
    → Appends
        (command_bytes 2 identifier (a ∷ b ∷ []))
        w
        (encode_connection_request identifier a b w)
      × (parse_connection_request (le16s (a ∷ b ∷ [])) 4 ≡ ok (record { psm = a; source_cid = b }))
      × Appends
          (command_bytes 3 identifier (a ∷ b ∷ c ∷ d ∷ []))
          w
          (encode_connection_response identifier a b c d w)
      × (parse_connection_response (le16s (a ∷ b ∷ c ∷ d ∷ [])) 8
          ≡ ok (record { destination_cid = a; source_cid = b; result = c; status = d }))
      × Appends
          (command_bytes 6 identifier (a ∷ b ∷ []))
          w
          (encode_disconnection_request identifier a b w)
      × Appends
          (command_bytes 7 identifier (a ∷ b ∷ []))
          w
          (encode_disconnection_response identifier a b w)
      × (parse_disconnection (le16s (a ∷ b ∷ [])) 4
          ≡ ok (record { destination_cid = a; source_cid = b }))
unfolding encode_connection_request encode_connection_response encode_disconnection_request
    encode_disconnection_response parse_connection_request parse_connection_response
    parse_disconnection Endian.write_le16
commands_back identifier a b c d w ha hb hc hd v = (
  Appends-of (two_fields 2 identifier a b) w v,
  Parses-all connection_request-Parses (le16s (a ∷ b ∷ [])) (omega arith)
      ∙ ap (λ p. p.0) (parse_connection_request_lem a b ha hb),
  Appends-of
      (then-Emits (sig_encode_header-Emits 3 identifier 8) (
        then-Emits (write_le16-Emits a)
          (then-Emits (write_le16-Emits b) (then-Emits (write_le16-Emits c) (write_le16-Emits d)))))
      w v,
  Parses-all connection_response-Parses (le16s (a ∷ b ∷ c ∷ d ∷ [])) (omega arith)
      ∙ ap (λ p. p.0) (parse_connection_response_lem a b c d ha hb hc hd),
  Appends-of (two_fields 6 identifier a b) w v,
  Appends-of (two_fields 7 identifier a b) w v,
  Parses-all disconnection-Parses (le16s (a ∷ b ∷ [])) (omega arith)
      ∙ ap (λ p. p.0) (parse_disconnection_lem a b ha hb),
)

-- A command reject is written whole if the writer has room for it and is refused with an overflow if
-- it has not, after which a beginning of it may be there; the reason is parsed back with whatever
-- follows it.
pub command_reject_back :
    (identifier reason : ℕ) (rest : List ℕ) (w : Writer)
    → reason < 2 ^ 16
    → length rest < 2 ^ 16
    → IsValid w
    → Appends
        (command_bytes 1 identifier (reason ∷ []))
        w
        (encode_command_reject identifier reason w)
      × (parse_command_reject (Endian.write_le16 reason ++ rest) (suc (suc (length rest)))
          ≡ ok (record { reason = reason; reason_data = rest; data_len = length rest }))
unfolding encode_command_reject parse_command_reject Endian.write_le16
command_reject_back identifier reason rest w h small v = (
  Appends-of (then-Emits (sig_encode_header-Emits 1 identifier 2) (write_le16-Emits reason)) w v,
  rw (le→ltb (suc (suc (length rest))) 2 (omega arith)) (
      Parses-all command_reject-Parses (Endian.write_le16 reason ++ rest) (omega arith)
      ∙ parse_command_reject_lem reason rest h),
)
