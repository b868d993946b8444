-- ===== src/Tests/Transfers.antt =====
-- protocols/l2cap: a PDU of seven bytes cut into packets of four.
use aros_bluzing.Prelude.{ℕ, ◌≡◌, refl, List, [], ◌∷◌, some, arith}
use aros_bluzing.Status.{ok}
use aros_bluzing.L2cap.{Reassembler, reassembler_take}
use aros_bluzing.L2cap.Assembly.{Holds}
use aros_bluzing.L2cap.Rebuild.{IsPdu}
use aros_bluzing.L2cap.Sending.{send_fragmented}
use aros_bluzing.L2cap.Fragments.{chunks, packets, deliver, send_fragmented-packets}
use aros_bluzing.L2cap.Transfer.{receive, outcomes, send_received}
use aros_bluzing.Tests.L2capPackets.{idle, idle-Holds}

abbrev pdu : List ℕ
pdu = 3 ∷ 0 ∷ 4 ∷ 0 ∷ 9 ∷ 8 ∷ 7 ∷ []

pdu-IsPdu : IsPdu pdu
pdu-IsPdu = record {
  declared = refl;
  header = omega arith;
  small = omega arith;
  bytes = omega arith;
}

-- A transport that keeps what it is given, the last packet first.
abbrev keep : List ℕ → List (List ℕ) → ℕ × List (List ℕ)
keep p log = (0, p ∷ log)

two_pieces : chunks 8 4 pdu ≡ (3 ∷ 0 ∷ 4 ∷ 0 ∷ []) ∷ (9 ∷ 8 ∷ 7 ∷ []) ∷ []
two_pieces = refl

send_fragmented-packets_example :
    send_fragmented keep 0x40 4 pdu 7 []
    ≡ (some (ok tt), deliver keep (packets 0x40 0 (chunks 8 4 pdu)) [])
send_fragmented-packets_example =
    send_fragmented-packets keep 0x40 4 pdu [] (λ p u. refl) (omega arith) (omega arith)
      (omega arith) (omega arith)

send_received_example :
    (n : ℕ) × (after : Reassembler) × (send_fragmented receive 0x40 4 pdu 7 ([], idle)
      ≡ (some (ok tt), (outcomes n, after)))
    × ((reassembler_take after).0 ≡ pdu)
    × Holds (reassembler_take after).1 []
send_received_example =
    send_received 0x40 4 pdu idle [] (omega arith) (omega arith) (omega arith) pdu-IsPdu idle-Holds
