-- ===== src/Hci/Inquiry.antt =====
-- protocols/hci/hci.c: the iterator over the responses of an Inquiry Result event. The event is
-- column-major: all addresses, then all page scan modes, and so on.
use aros_bluzing.Prelude.{
  ℕ, ◌+◌, ◌*◌, ◌%◌, ◌^◌, List, [], ◌∷◌, drop, ltb, leb, if◌then◌else◌, bit_or,
}
use aros_bluzing.Status.{ok, err, buffer_underflow, Result, Action}
use aros_bluzing.Buffer.{sub_size}
use aros_bluzing.Endian.{at, shl}

pub record InquiryEntry : Type 0 where
  pub bd_addr : List ℕ
  pub page_scan_repetition_mode : ℕ
  pub class_of_device : ℕ
  pub clock_offset : ℕ

pub record InquiryIter : Type 0 where
  pub base : List ℕ
  pub available : ℕ
  pub count : ℕ
  pub index : ℕ

unfoldable pub inquiry_iter_init : List ℕ → ℕ → Result InquiryIter
inquiry_iter_init params len =
    let count = at params 0 in
    let available = sub_size len 1 in
    if ltb len 1
    then err buffer_underflow
    else if ltb available (count * 14)
    then err buffer_underflow
    else ok (record { base = drop 1 params; available = available; count = count; index = 0 })

-- The response at index `i` of `n`.
abbrev pub entry_at : List ℕ → ℕ → ℕ → InquiryEntry
entry_at addrs n i =
    let psrm = drop (n * 6) addrs in
    let cod = drop (n * 1 + n * 2) psrm in
    let clock = drop (n * 3) cod in
    record {
      bd_addr =
          at addrs (i * 6)
          ∷ at addrs (i * 6 + 1)
          ∷ at addrs (i * 6 + 2)
          ∷ at addrs (i * 6 + 3)
          ∷ at addrs (i * 6 + 4)
          ∷ at addrs (i * 6 + 5)
          ∷ [];
      page_scan_repetition_mode = at psrm i;
      class_of_device =
          bit_or (bit_or (at cod (i * 3)) (shl 32 (at cod (i * 3 + 1)) 8))
            (shl 32 (at cod (i * 3 + 2)) 16);
      clock_offset = bit_or (at clock (i * 2)) (shl 32 (at clock (i * 2 + 1)) 8) % 2 ^ 16;
    }

unfoldable pub inquiry_iter_next : Action InquiryIter InquiryEntry
inquiry_iter_next it =
    if leb it.count it.index
    then (err buffer_underflow, it)
    else (ok (entry_at it.base it.count it.index), record it { index = (it.index + 1) % 256 })
