-- ===== src/L2cap/Signaling/Options.antt =====
-- protocols/l2cap/signaling.c: the configuration commands and the scan of their option list.
use aros_bluzing.Prelude.{
  ℕ, suc, ◌+◌, ◌<◌, ◌^◌, ◌≡◌, refl, sym, ap, ◌∙◌, List, [], ◌∷◌, ◌++◌, length, arith, ◌==◌,
  if◌then◌else◌, Bool-cases, inl, inr, All, le→ltb,
}
use aros_bluzing.Status.{ok, Action, ◌>>=◌, return}
use aros_bluzing.Endian
use aros_bluzing.Endian.{at}
use aros_bluzing.Buffer.Reader.Refine.{need, read_le16-Views, Views, reader_init-Views_all}
use aros_bluzing.Buffer.Reader.{reader_init}
use aros_bluzing.Buffer.Reader.Parse.{
  Parses, bind-Parses, return-Parses, Parses-all, Reads-of, le16_needed,
}
use aros_bluzing.Buffer.Writer.{Writer}
use aros_bluzing.Buffer.Writer.Emits.{
  Emits, Appends, IsValid, Appends-of, then-Emits, done-Emits, write_u8-Emits, write_le16-Emits,
}
use aros_bluzing.L2cap.Signaling.{
  ConfigureRequest, configure_request_fields, parse_configure_request, encode_configure_request,
  ConfigureResponse, configure_response_fields, parse_configure_response, encode_configure_response,
  write_mtu_option, mtu_option_len,
}
use aros_bluzing.L2cap.Signaling.Commands.{sig_header_bytes, sig_encode_header-Emits}
use aros_bluzing.L2cap.Signaling.Scan.{
  mtu_option, ConfigOption, IsOption, options_bytes, found_in, nothing, list_scan, scan-Parses,
  list_scan_lem,
}

-- The options that the encoders write for an MTU: none for 0.
abbrev pub mtu_options : ℕ → List ConfigOption
mtu_options mtu = if mtu == 0 then [] else (mtu_option mtu ∷ [])

write_mtu_option-Emits : (mtu : ℕ) → Emits (write_mtu_option mtu) (options_bytes (mtu_options mtu))
unfolding write_mtu_option Endian.write_le16
write_mtu_option-Emits mtu = elim (Bool-cases (mtu == 0)) [
  | inl e ↦ rw e done-Emits
  | inr e ↦
      rw e (then-Emits (write_u8-Emits 1) (then-Emits (write_u8-Emits 2) (write_le16-Emits mtu)))
]

list_configure_request : Action (List ℕ) ConfigureRequest
list_configure_request = do
  destination_cid ← need 2 Endian.read_le16
  flags ← need 2 Endian.read_le16
  found ← list_scan
  return (record {
    destination_cid = destination_cid;
    flags = flags;
    has_mtu = found.has_mtu;
    mtu = found.mtu;
  })

configure_request-Parses : Parses configure_request_fields list_configure_request
unfolding configure_request_fields list_configure_request
configure_request-Parses = bind-Parses _ _ read_le16-Views λ d.
    bind-Parses _ _ read_le16-Views λ flags. bind-Parses _ _ scan-Parses λ found.
      return-Parses
        (record { destination_cid = d; flags = flags; has_mtu = found.has_mtu; mtu = found.mtu })

list_configure_response : Action (List ℕ) ConfigureResponse
list_configure_response = do
  source_cid ← need 2 Endian.read_le16
  flags ← need 2 Endian.read_le16
  result ← need 2 Endian.read_le16
  found ← list_scan
  return (record {
    source_cid = source_cid;
    flags = flags;
    result = result;
    has_mtu = found.has_mtu;
    mtu = found.mtu;
  })

configure_response-Parses : Parses configure_response_fields list_configure_response
unfolding configure_response_fields list_configure_response
configure_response-Parses = bind-Parses _ _ read_le16-Views λ s.
    bind-Parses _ _ read_le16-Views λ flags. bind-Parses _ _ read_le16-Views λ result.
      bind-Parses _ _ scan-Parses λ found. return-Parses (record {
        source_cid = s;
        flags = flags;
        result = result;
        has_mtu = found.has_mtu;
        mtu = found.mtu;
      })

module _ (d flags result : ℕ) (os : List ConfigOption) (hd : d < 2 ^ 16) (hf : flags < 2 ^ 16)
    (hr : result < 2 ^ 16) (ho : All IsOption os) where
  parse_configure_request_lem :
      list_configure_request (Endian.write_le16 d ++ (Endian.write_le16 flags ++ options_bytes os))
      ≡ (
        ok (record {
          destination_cid = d;
          flags = flags;
          has_mtu = (found_in nothing os).has_mtu;
          mtu = (found_in nothing os).mtu;
        }),
        [],
      )
  unfolding list_configure_request
  parse_configure_request_lem =
      rw
        (
          le16_needed d (Endian.write_le16 flags ++ options_bytes os) hd,
          le16_needed flags (options_bytes os) hf,
          list_scan_lem os ho,
        )
        refl

  parse_configure_response_lem :
      list_configure_response (
        Endian.write_le16 d
        ++ (Endian.write_le16 flags ++ (Endian.write_le16 result ++ options_bytes os)))
      ≡ (
        ok (record {
          source_cid = d;
          flags = flags;
          result = result;
          has_mtu = (found_in nothing os).has_mtu;
          mtu = (found_in nothing os).mtu;
        }),
        [],
      )
  unfolding list_configure_response
  parse_configure_response_lem =
      rw
        (
          le16_needed d (Endian.write_le16 flags ++ (Endian.write_le16 result ++ options_bytes os))
              hd,
          le16_needed flags (Endian.write_le16 result ++ options_bytes os) hf,
          le16_needed result (options_bytes os) hr,
          list_scan_lem os ho,
        )
        refl

mtu_option_len_lem : (mtu : ℕ) → mtu_option_len mtu ≡ length (options_bytes (mtu_options mtu))
unfolding Endian.write_le16
mtu_option_len_lem mtu = elim (Bool-cases (mtu == 0)) [ inl e ↦ rw e refl | inr e ↦ rw e refl ]

-- Both configuration commands are parsed whatever options follow their fields: the MTU found is the
-- one of the last MTU option, options of other types are skipped, and without an MTU option none is
-- found. The scan leaves nothing of the list unread.
pub configure_options :
    (d flags result : ℕ) (os : List ConfigOption)
    → d < 2 ^ 16
    → flags < 2 ^ 16
    → result < 2 ^ 16
    → All IsOption os
    → length (options_bytes os) < 2 ^ 16
    → (parse_configure_request
          (Endian.write_le16 d ++ (Endian.write_le16 flags ++ options_bytes os))
          (suc (suc (suc (suc (length (options_bytes os))))))
        ≡ ok (record {
          destination_cid = d;
          flags = flags;
          has_mtu = (found_in nothing os).has_mtu;
          mtu = (found_in nothing os).mtu;
        }))
      × (parse_configure_response
            (Endian.write_le16 d
              ++ (Endian.write_le16 flags ++ (Endian.write_le16 result ++ options_bytes os)))
            (suc (suc (suc (suc (suc (suc (length (options_bytes os))))))))
          ≡ ok (record {
            source_cid = d;
            flags = flags;
            result = result;
            has_mtu = (found_in nothing os).has_mtu;
            mtu = (found_in nothing os).mtu;
          }))
      × Views
          (configure_request_fields (
            reader_init
              (Endian.write_le16 d ++ (Endian.write_le16 flags ++ options_bytes os))
              (suc (suc (suc (suc (length (options_bytes os)))))))).1
          []
      × Views
          (configure_response_fields (
            reader_init
              (Endian.write_le16 d
                ++ (Endian.write_le16 flags ++ (Endian.write_le16 result ++ options_bytes os)))
              (suc (suc (suc (suc (suc (suc (length (options_bytes os)))))))))).1
          []
unfolding parse_configure_request parse_configure_response Endian.write_le16
configure_options d flags result os hd hf hr ho small = (
  rw (le→ltb (suc (suc (suc (suc (length (options_bytes os)))))) 4 (omega arith)) (
      Parses-all configure_request-Parses _ (omega arith)
      ∙ ap (λ p. p.0) (parse_configure_request_lem d flags result os hd hf hr ho)),
  rw (le→ltb (suc (suc (suc (suc (suc (suc (length (options_bytes os)))))))) 6 (omega arith)) (
      Parses-all configure_response-Parses _ (omega arith)
      ∙ ap (λ p. p.0) (parse_configure_response_lem d flags result os hd hf hr ho)),
  (Reads-of configure_request-Parses (parse_configure_request_lem d flags result os hd hf hr ho) _
      (reader_init-Views_all _ refl (omega arith))).1,
  (Reads-of configure_response-Parses (parse_configure_response_lem d flags result os hd hf hr ho) _
      (reader_init-Views_all _ refl (omega arith))).1,
)

-- The encoders of the configuration commands write the whole command or report an overflow: the
-- header with the length of what follows, the fields, and one MTU option, or none for an MTU of 0.
pub encode_configure-Appends :
    (identifier d flags result mtu : ℕ) (w : Writer)
    → IsValid w
    → Appends
        (sig_header_bytes 4 identifier (4 + length (options_bytes (mtu_options mtu)))
          ++ (Endian.write_le16 d ++ (Endian.write_le16 flags ++ options_bytes (mtu_options mtu))))
        w
        (encode_configure_request identifier d flags mtu w)
      × Appends
          (sig_header_bytes 5 identifier (6 + length (options_bytes (mtu_options mtu)))
            ++ (Endian.write_le16 d
                ++ (Endian.write_le16 flags
                    ++ (Endian.write_le16 result ++ options_bytes (mtu_options mtu)))))
          w
          (encode_configure_response identifier d flags result mtu w)
unfolding encode_configure_request encode_configure_response
encode_configure-Appends identifier d flags result mtu w v =
    let same : mtu_option_len mtu ≡ length (options_bytes (mtu_options mtu)) =
      mtu_option_len_lem mtu in
    (
      rw (sym same) (
          Appends-of
            (then-Emits (sig_encode_header-Emits 4 identifier (4 + mtu_option_len mtu)) (
              then-Emits (write_le16-Emits d)
                (then-Emits (write_le16-Emits flags) (write_mtu_option-Emits mtu))))
            w v),
      rw (sym same) (
          Appends-of
            (then-Emits (sig_encode_header-Emits 5 identifier (6 + mtu_option_len mtu)) (
              then-Emits (write_le16-Emits d) (
                then-Emits (write_le16-Emits flags)
                  (then-Emits (write_le16-Emits result) (write_mtu_option-Emits mtu)))))
            w v),
    )
