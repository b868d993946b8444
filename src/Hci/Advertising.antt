-- ===== src/Hci/Advertising.antt =====
-- protocols/hci/hci.c: the iterator over the reports of an LE Advertising Report event.
use aros_bluzing.Prelude.{ℕ, ◌-◌, List, ◌==◌, not, if◌then◌else◌}
use aros_bluzing.Status.{
  ok, err, invalid_argument, buffer_underflow, Result, Action, ◌>>=◌, ◌>>◌, return, fail_if,
}
use aros_bluzing.Buffer.Reader.{Reader, reader_init, read_u8, read_bytes, peek_or_fail, skip}

-- `int8_t rssi` is its bit pattern, a byte.
pub record AdvReport : Type 0 where
  pub event_type : ℕ
  pub address_type : ℕ
  pub address : List ℕ
  pub data_len : ℕ
  pub payload : List ℕ
  pub rssi : ℕ

pub record AdvIter : Type 0 where
  pub r : Reader
  pub remaining : ℕ

abbrev pub subevent_advertising_report : ℕ
subevent_advertising_report = 0x02

unfoldable pub adv_iter_start : Action Reader ℕ
adv_iter_start = do
  subevent_code ← read_u8
  fail_if (not (subevent_code == subevent_advertising_report)) invalid_argument
  read_u8

abbrev pub counted : Result ℕ × Reader → Result AdvIter
counted (ok n, r) = ok (record { r = r; remaining = n })
counted (err e, r) = err e

unfoldable pub adv_iter_init : List ℕ → ℕ → Result AdvIter
adv_iter_init params len = counted (adv_iter_start (reader_init params len))

unfoldable pub read_report : Action Reader AdvReport
read_report = do
  event_type ← read_u8
  address_type ← read_u8
  address ← read_bytes 6
  data_len ← read_u8
  payload ← peek_or_fail data_len
  skip data_len
  rssi_raw ← read_u8
  return (record {
    event_type = event_type;
    address_type = address_type;
    address = address;
    data_len = data_len;
    payload = payload;
    rssi = rssi_raw;
  })

-- `it->remaining--` runs only for a whole report, where it is not 0.
abbrev pub count_report : AdvIter → Result AdvReport × Reader → Result AdvReport × AdvIter
count_report it (ok a, r) = (ok a, record { r = r; remaining = it.remaining - 1 })
count_report it (err e, r) = (err e, record it { r = r })

unfoldable pub adv_iter_next : Action AdvIter AdvReport
adv_iter_next it =
    if it.remaining == 0 then (err buffer_underflow, it) else count_report it (read_report it.r)
