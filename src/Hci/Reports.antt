-- ===== src/Hci/Reports.antt =====
-- protocols/hci/hci.c: the reports of an LE Advertising Report event, and their iterator.
use aros_bluzing.Prelude.{
  ℕ, zero, suc, ◌≡◌, refl, ap, ◌∙◌, List, [], ◌∷◌, ◌++◌, length, map, take, append_assoc, ◌==◌, not,
  false, ◌<◌, arith,
}
use aros_bluzing.Status.{ok, err, invalid_argument, Result, Action, ◌>>=◌, ◌>>◌, return, fail_if}
use aros_bluzing.Endian.{at}
use aros_bluzing.Buffer.{size_mod}
use aros_bluzing.Buffer.Reader.{Reader, reader_init}
use aros_bluzing.Buffer.Reader.Refine.{
  Views, need, read_u8-Views, read_bytes-Views, skip-Views, reader_init-Views_all,
}
use aros_bluzing.Buffer.Reader.Parse.{
  Parses, bind-Parses, return-Parses, fail_if-Parses, front, peek-Parses, Reads, Reads-of,
  payload_needed, payload_front,
}
use aros_bluzing.Hci.Advertising.{
  AdvReport, AdvIter, subevent_advertising_report, adv_iter_start, adv_iter_init, read_report,
  adv_iter_next, count_report, counted,
}

-- A report as its sender builds it: the address byte by byte, then the data.
pub record Advert : Type 0 where
  pub event_type : ℕ
  pub address_type : ℕ
  pub a0 : ℕ
  pub a1 : ℕ
  pub a2 : ℕ
  pub a3 : ℕ
  pub a4 : ℕ
  pub a5 : ℕ
  pub payload : List ℕ
  pub rssi : ℕ

abbrev pub report_bytes : Advert → List ℕ
report_bytes x =
    x.event_type
    ∷ x.address_type
    ∷ x.a0
    ∷ x.a1
    ∷ x.a2
    ∷ x.a3
    ∷ x.a4
    ∷ x.a5
    ∷ length x.payload
    ∷ (x.payload ++ (x.rssi ∷ []))

abbrev pub report_of : Advert → AdvReport
report_of x = record {
  event_type = x.event_type;
  address_type = x.address_type;
  address = x.a0 ∷ x.a1 ∷ x.a2 ∷ x.a3 ∷ x.a4 ∷ x.a5 ∷ [];
  data_len = length x.payload;
  payload = x.payload;
  rssi = x.rssi;
}

abbrev pub all_bytes : List Advert → List ℕ
all_bytes [] = []
all_bytes (x ∷ xs) = report_bytes x ++ all_bytes xs

list_report : Action (List ℕ) AdvReport
list_report = do
  event_type ← need 1 (λ p. at p 0)
  address_type ← need 1 (λ p. at p 0)
  address ← need 6 (take 6)
  data_len ← need 1 (λ p. at p 0)
  payload ← front data_len
  need data_len (λ _. tt)
  rssi_raw ← need 1 (λ p. at p 0)
  return (record {
    event_type = event_type;
    address_type = address_type;
    address = address;
    data_len = data_len;
    payload = payload;
    rssi = rssi_raw;
  })

read_report-Parses : Parses read_report list_report
unfolding read_report list_report
read_report-Parses = bind-Parses _ _ read_u8-Views λ event_type.
    bind-Parses _ _ read_u8-Views λ address_type. bind-Parses _ _ (read_bytes-Views 6) λ address.
      bind-Parses _ _ read_u8-Views λ data_len. bind-Parses _ _ (peek-Parses data_len) λ payload.
        bind-Parses _ _ (skip-Views data_len) λ _. bind-Parses _ _ read_u8-Views λ rssi_raw.
          return-Parses (record {
            event_type = event_type;
            address_type = address_type;
            address = address;
            data_len = data_len;
            payload = payload;
            rssi = rssi_raw;
          })

read_report-Reads :
    (x : Advert) (rest : List ℕ) → Reads read_report (report_bytes x ++ rest) (report_of x) rest
unfolding list_report
read_report-Reads x rest = Reads-of read_report-Parses (
    rw (append_assoc x.payload (x.rssi ∷ []) rest) (
      rw (
        payload_front x.payload (x.rssi ∷ rest),
        payload_needed (λ _. tt) x.payload (x.rssi ∷ rest),
      )))

-- `while (bt_hci_le_adv_report_iter_next(&it, &report) == BT_OK)`: the reports in turn.
abbrev pub more_reports : Result AdvReport → (AdvIter → List AdvReport) → AdvIter → List AdvReport
more_reports (ok a) rest it = a ∷ rest it
more_reports (err _) rest it = []

unfoldable pub adv_reports : ℕ → AdvIter → List AdvReport
adv_reports zero it = []
adv_reports (suc fuel) it =
    let (report, it') = adv_iter_next it in more_reports report (adv_reports fuel) it'

adv_iter_next_more :
    (x : Advert) (rest : List ℕ) (n : ℕ) (r : Reader)
    → Views r (report_bytes x ++ rest)
    → (r' : Reader) × (adv_iter_next (record { r = r; remaining = suc n })
        ≡ (ok (report_of x), record { r = r'; remaining = n }))
      × Views r' rest
unfolding adv_iter_next
adv_iter_next_more x rest n r v =
    let (result, views) = read_report-Reads x rest r v in
    let p : read_report r ≡ (ok (report_of x), (read_report r).1) =
      ap (λ (q : Result AdvReport). (q, (read_report r).1)) result in
    let it : AdvIter = record { r = r; remaining = suc n } in
    let left = λ (k : ℕ).
      let next : AdvIter = record { r = (read_report r).1; remaining = k } in
      let q : Result AdvReport × AdvIter = (ok (report_of x), next) in q in
    let busy : (suc n == 0) ≡ false = ground arith in
    ((read_report r).1, rw busy (ap (count_report it) p ∙ ap left {y = n} (omega arith)), views)

adv_reports-Views :
    (xs : List Advert) (rest : List ℕ) (r : Reader) (fuel : ℕ)
    → Views r (all_bytes xs ++ rest)
    → length xs < fuel
    → adv_reports fuel (record { r = r; remaining = length xs }) ≡ map report_of xs
unfolding adv_reports
adv_reports-Views xs rest r zero v h = absurd (omega arith)
adv_reports-Views [] rest r (suc fuel) v h = unfold adv_iter_next in refl
adv_reports-Views (x ∷ xs) rest r (suc fuel) v h =
    let v' : Views r (report_bytes x ++ (all_bytes xs ++ rest)) = rw append_assoc at v in
    let (r', e, views) = adv_iter_next_more x (all_bytes xs ++ rest) (length xs) r v' in
    rw e (ap (◌∷◌ (report_of x)) (adv_reports-Views xs rest r' fuel views (omega arith)))

list_start : Action (List ℕ) ℕ
list_start = do
  subevent_code ← need 1 (λ p. at p 0)
  fail_if (not (subevent_code == subevent_advertising_report)) invalid_argument
  need 1 (λ p. at p 0)

adv_iter_start-Parses : Parses adv_iter_start list_start
unfolding adv_iter_start list_start
adv_iter_start-Parses = bind-Parses _ _ read_u8-Views λ code.
    bind-Parses _ _ (fail_if-Parses (not (code == subevent_advertising_report)) invalid_argument)
      λ _. read_u8-Views

-- Iterating over an LE Advertising Report event returns exactly the reports that it holds, in
-- order, whatever bytes follow; the fuel is one more than their number.
pub adv_reports-all_bytes :
    (xs : List Advert) (rest : List ℕ) (len : ℕ)
    → len ≡ length (subevent_advertising_report ∷ length xs ∷ all_bytes xs ++ rest)
    → len < size_mod
    → (it : AdvIter) × (adv_iter_init
          (subevent_advertising_report ∷ length xs ∷ all_bytes xs ++ rest)
          len
        ≡ ok it)
      × (adv_reports (suc (length xs)) it ≡ map report_of xs)
unfolding adv_iter_init list_start
adv_reports-all_bytes xs rest len e small =
    let bytes = subevent_advertising_report ∷ length xs ∷ all_bytes xs ++ rest in
    let r = reader_init bytes len in
    let (result, views) =
      Reads-of adv_iter_start-Parses {rest = all_bytes xs ++ rest} {a = length xs} refl r
        (reader_init-Views_all bytes e small) in
    let r' = (adv_iter_start r).1 in
    let p : adv_iter_start r ≡ (ok (length xs), r') = ap (λ (q : Result ℕ). (q, r')) result in
    (
      record { r = r'; remaining = length xs },
      ap counted p,
      adv_reports-Views xs rest r' (suc (length xs)) views (omega arith),
    )
