-- ===== src/Hci/Info.antt =====
-- protocols/hci/hci.c: the answers to the initialization commands, and the inquiry command.
use aros_bluzing.Prelude.{ℕ, List, ◌==◌, not, replicate, if◌then◌else◌}
use aros_bluzing.Status.{ok, err, invalid_argument, Result, Action, ◌>>=◌, ◌>>◌, return}
use aros_bluzing.Buffer.Reader.{Reader, reader_init, read_u8, read_le16, read_bytes}
use aros_bluzing.Buffer.Writer.{Writer, writer_init, writer_len, write_u8, write_le24}
use aros_bluzing.Hci.{encode_command}

pub record LocalVersion : Type 0 where
  pub status : ℕ
  pub hci_version : ℕ
  pub hci_revision : ℕ
  pub lmp_pal_version : ℕ
  pub manufacturer_name : ℕ
  pub lmp_pal_subversion : ℕ

local_version_fields : Action Reader LocalVersion
local_version_fields = do
  status ← read_u8
  hci_version ← read_u8
  hci_revision ← read_le16
  lmp_pal_version ← read_u8
  manufacturer_name ← read_le16
  lmp_pal_subversion ← read_le16
  return (record {
    status = status;
    hci_version = hci_version;
    hci_revision = hci_revision;
    lmp_pal_version = lmp_pal_version;
    manufacturer_name = manufacturer_name;
    lmp_pal_subversion = lmp_pal_subversion;
  })

unfoldable pub parse_local_version : List ℕ → ℕ → Result LocalVersion
unfolding local_version_fields
parse_local_version return_params len =
    if not (len == 9)
    then err invalid_argument
    else (local_version_fields (reader_init return_params len)).0

pub record LocalFeatures : Type 0 where
  pub status : ℕ
  pub features : List ℕ

local_features_fields : Action Reader LocalFeatures
local_features_fields = do
  status ← read_u8
  features ← read_bytes 8
  return (record { status = status; features = features })

unfoldable pub parse_local_features : List ℕ → ℕ → Result LocalFeatures
unfolding local_features_fields
parse_local_features return_params len =
    if not (len == 9)
    then err invalid_argument
    else (local_features_fields (reader_init return_params len)).0

pub record BufferSize : Type 0 where
  pub status : ℕ
  pub acl_data_packet_length : ℕ
  pub sco_data_packet_length : ℕ
  pub total_num_acl_data_packets : ℕ
  pub total_num_sco_data_packets : ℕ

buffer_size_fields : Action Reader BufferSize
buffer_size_fields = do
  status ← read_u8
  acl_length ← read_le16
  sco_length ← read_u8
  acl_packets ← read_le16
  sco_packets ← read_le16
  return (record {
    status = status;
    acl_data_packet_length = acl_length;
    sco_data_packet_length = sco_length;
    total_num_acl_data_packets = acl_packets;
    total_num_sco_data_packets = sco_packets;
  })

unfoldable pub parse_buffer_size : List ℕ → ℕ → Result BufferSize
unfolding buffer_size_fields
parse_buffer_size return_params len =
    if not (len == 8)
    then err invalid_argument
    else (buffer_size_fields (reader_init return_params len)).0

-- `OGF_LINK_CONTROL << 10 | OCF_INQUIRY`
abbrev pub opcode_inquiry : ℕ
opcode_inquiry = 0x0401

inquiry_params : ℕ → ℕ → ℕ → Action Writer (Unit {0})
inquiry_params lap inquiry_length num_responses = do
  write_le24 lap
  write_u8 inquiry_length
  write_u8 num_responses

-- The parameters are built in a buffer of five bytes on the stack.
unfoldable pub encode_inquiry : ℕ → ℕ → ℕ → Action Writer (Unit {0})
unfolding inquiry_params
encode_inquiry lap inquiry_length num_responses w =
    let (st, pw) =
      inquiry_params lap inquiry_length num_responses (writer_init (replicate 5 0) 5) in
    elim st [ ok _ ↦ encode_command opcode_inquiry pw.bytes (writer_len pw) w | err e ↦ (err e, w) ]
