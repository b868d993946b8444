-- ===== src/L2cap/Transfer.antt =====
-- protocols/l2cap/l2cap.c and channel_manager.c: the loop that sends a PDU, over a transport whose other
-- side feeds its reassembler.
use aros_bluzing.Prelude.{
  ℕ, zero, suc, ◌^◌, ◌≤◌, ◌<◌, ◌≡◌, refl, sym, ap, ◌∙◌, List, [], ◌∷◌, ◌++◌, length, take, drop,
  replicate, length-take, length-drop, length-append, take-append-drop, arith, append-nil,
  append_assoc, All, Option, some,
}
use mathlib.Core.Path.{subst}
use aros_bluzing.Status.{ok, err, Result}
use aros_bluzing.Endian
use aros_bluzing.Buffer.Reader.{Reader, reader_init}
use aros_bluzing.Buffer.Reader.Refine.{unread, reader_init-Views_all}
use aros_bluzing.Hci.{AclHeader, parse_acl_header}
use aros_bluzing.Hci.Headers.{acl_header_lem}
use aros_bluzing.L2cap.{
  Reassembler, Progress, more, complete, error, reassembler_feed, reassembler_take,
}
use aros_bluzing.L2cap.Sending.{send_fragmented}
use aros_bluzing.L2cap.Assembly.{Holds, Steps}
use aros_bluzing.L2cap.Rebuild.{IsPdu, concat, progress, feed_rest_lem, fragments_rebuild}
use aros_bluzing.L2cap.Fragments.{chunks, packet, packets, deliver, send_fragmented-packets}

-- What the reassembler holds is taken out of it.
take_lem :
    (ra : Reassembler) (s : List ℕ)
    → Holds ra s
    → ((reassembler_take ra).0 ≡ s) × Holds (reassembler_take ra).1 []
unfolding reassembler_take
take_lem ra s v = (
  v.front,
  record {
    sized = v.sized;
    front = refl;
    held = refl;
    small = omega arith;
    want = refl;
    fits = omega arith;
    bytes = tt;
  },
)

concat-chunks : (n size : ℕ) (d : List ℕ) → 0 < size → length d < n → concat (chunks n size d) ≡ d
concat-chunks zero size d h l = absurd (omega arith)
concat-chunks (suc n) size [] h l = refl
concat-chunks (suc n) size (x ∷ d) h l =
    ap (λ t. take size (x ∷ d) ++ t)
      (concat-chunks n size (drop size (x ∷ d)) h (omega (arith, length-drop size (x ∷ d))))
    ∙ take-append-drop size (x ∷ d)

-- A transport whose other side reads the ACL header of each packet and feeds the payload to its
-- reassembler; it keeps the outcomes of the feeds, in order.
abbrev pub fed :
    List Progress → Reassembler → Result AclHeader × Reader → List Progress × Reassembler
fed log ra (ok h, r) =
    let step = reassembler_feed h.pb_flag (unread r) h.data_len ra in (log ++ step.0 ∷ [], step.1)
fed log ra (err e, r) = (log ++ error ∷ [], ra)

unfoldable pub receive : List ℕ → List Progress × Reassembler → ℕ × (List Progress × Reassembler)
receive bytes t = (0, fed t.0 t.1 (parse_acl_header (reader_init bytes (length bytes))))

receive-packet :
    (handle pb : ℕ) (c : List ℕ) (log : List Progress) (ra : Reassembler)
    → handle ≤ 0x0fff
    → pb ≤ 3
    → length c < 2 ^ 16
    → (receive (packet handle pb c) (log, ra)).1 ≡ (
      log ++ (reassembler_feed pb c (length c) ra).0 ∷ [],
      (reassembler_feed pb c (length c) ra).1,
    )
unfolding receive Endian.write_le16
receive-packet handle pb c log ra hh hp h =
    let bytes = packet handle pb c in
    let r = reader_init bytes (length bytes) in
    let (result, views) =
      (acl_header_lem handle pb 0 hh hp (omega arith) (length c) c h).1 r
        (reader_init-Views_all bytes refl (omega arith)) in
    let header : AclHeader = record {
      handle = handle;
      pb_flag = pb;
      bc_flag = 0;
      data_len = length c;
    } in
    ap (λ x. fed log ra (x, (parse_acl_header r).1)) {y = ok header} result
    ∙ ap
        (λ l.
          let step = reassembler_feed pb l (length c) ra in
          let q : List Progress × Reassembler = (log ++ step.0 ∷ [], step.1) in q)
        views.rest

-- A chunk that a packet can carry.
abbrev IsChunk : List ℕ → Type 0
IsChunk c = (0 < length c) × (length c < 2 ^ 16)

chunks-IsChunk : (n size : ℕ) (d : List ℕ) → 0 < size → size ≤ 512 → All IsChunk (chunks n size d)
chunks-IsChunk zero size d h k = tt
chunks-IsChunk (suc n) size [] h k = tt
chunks-IsChunk (suc n) size (x ∷ d) h k =
    let total = length-take size (x ∷ d) in
    ((omega (arith, total), omega (arith, total)), chunks-IsChunk n size (drop size (x ∷ d)) h k)

abbrev pub outcomes : ℕ → List Progress
outcomes n = replicate n more ++ complete ∷ []

progress-nonempty : (c t : List ℕ) → 0 < length c → progress (c ++ t) ≡ more
progress-nonempty [] t h = absurd (omega arith)
progress-nonempty (x ∷ c) t h = refl

-- The packets behind the first, when the reassembler holds `s`, with the outcome `p.0`.
deliver_rest :
    (handle : ℕ) (cs : List (List ℕ)) (s : List ℕ) (p : Progress × Reassembler)
    (log : List Progress)
    → handle ≤ 0x0fff
    → 0 < length s
    → All IsChunk cs
    → IsPdu (s ++ concat cs)
    → Steps p (progress (concat cs), s)
    → ((deliver receive (packets handle 1 cs) (log ++ p.0 ∷ [], p.1)).0
        ≡ log ++ outcomes (length cs))
      × Holds (deliver receive (packets handle 1 cs) (log ++ p.0 ∷ [], p.1)).1 (s ++ concat cs)
deliver_rest handle [] s p log hh h v w e =
    (ap (λ x. log ++ x ∷ []) e.0, subst (Holds p.1) (sym (append-nil s)) e.1)
deliver_rest handle (c ∷ cs) s p log hh h (ok_chunk, others) w e =
    let step = reassembler_feed 1 c (length c) p.1 in
    let pdu : IsPdu (s ++ (concat (c ∷ []) ++ concat cs)) =
      subst (λ l. IsPdu (s ++ (l ++ concat cs))) (sym (append-nil c)) w in
    let before : Steps p (progress (concat (c ∷ []) ++ concat cs), s) =
      subst (λ l. Steps p (progress (l ++ concat cs), s)) (sym (append-nil c)) e in
    let after : Steps step (progress (concat cs), s ++ c) =
      subst (λ l. Steps step (progress (concat cs), s ++ l)) (append-nil c)
        (feed_rest_lem (c ∷ []) s (concat cs) p h pdu before) in
    let first : p.0 ≡ more = e.0 ∙ progress-nonempty c (concat cs) ok_chunk.0 in
    let (logged, held) =
      deliver_rest handle cs (s ++ c) step (log ++ p.0 ∷ []) hh (omega (arith, length-append s c))
        others (subst IsPdu (sym (append_assoc s c (concat cs))) w) after in
    let packet_taken =
      receive-packet handle 1 c (log ++ p.0 ∷ []) p.1 hh (omega arith) ok_chunk.1 in
    (
      ap (λ t. (deliver receive (packets handle 1 cs) t).0) packet_taken
          ∙ logged
          ∙ append_assoc log (p.0 ∷ []) (outcomes (length cs))
          ∙ ap (λ x. log ++ x ∷ outcomes (length cs)) first,
      subst (λ t. Holds (deliver receive (packets handle 1 cs) t).1 (s ++ (c ++ concat cs)))
          (sym packet_taken)
          (subst
            (Holds
              (deliver receive (packets handle 1 cs) (log ++ p.0 ∷ [] ++ step.0 ∷ [], step.1)).1)
            (append_assoc s c (concat cs)) held),
    )

-- The first packet and those behind it.
deliver_first :
    (handle : ℕ) (first : List ℕ) (cs : List (List ℕ)) (ra : Reassembler) (s : List ℕ)
    → handle ≤ 0x0fff
    → All IsChunk (first ∷ cs)
    → IsPdu (first ++ concat cs)
    → Holds ra s
    → ((deliver receive (packets handle 0 (first ∷ cs)) ([], ra)).0 ≡ outcomes (length cs))
      × Holds (deliver receive (packets handle 0 (first ∷ cs)) ([], ra)).1 (first ++ concat cs)
deliver_first handle first cs ra s hh (ok_first, others) w held =
    let step = reassembler_feed 0 first (length first) ra in
    let pdu : IsPdu (first ++ (concat [] ++ concat cs)) = w in
    let begun : Steps step (progress (concat cs), first) =
      subst (λ l. Steps step (progress (concat cs), l)) (append-nil first)
        (fragments_rebuild 0 first (concat cs) [] ra s (omega arith) ok_first.0 pdu held) in
    let (logged, done) = deliver_rest handle cs first step [] hh ok_first.0 others w begun in
    let taken = receive-packet handle 0 first [] ra hh (omega arith) ok_first.1 in
    (
      ap (λ t. (deliver receive (packets handle 1 cs) t).0) taken ∙ logged,
      subst (λ t. Holds (deliver receive (packets handle 1 cs) t).1 (first ++ concat cs))
          (sym taken) done,
    )

-- A PDU of at most 1024 bytes goes through: the loop that sends it ends with success, and on the other
-- side, whatever the reassembler held, every packet but the last leaves it asking for more, the last
-- completes it, and then the take gives out the PDU and leaves the reassembler empty.
pub send_received :
    (handle size : ℕ) (pdu : List ℕ) (ra : Reassembler) (s : List ℕ)
    → handle ≤ 0x0fff
    → 0 < size
    → size ≤ 512
    → IsPdu pdu
    → Holds ra s
    → (n : ℕ) × (after : Reassembler) × (send_fragmented receive handle size pdu
          (length pdu)
          ([], ra)
        ≡ (some (ok tt), (outcomes n, after)))
      × ((reassembler_take after).0 ≡ pdu)
      × Holds (reassembler_take after).1 []
send_received handle size [] ra s hh h k v held = absurd (omega (arith, v.header))
send_received handle size (x ∷ d) ra s hh h k v held =
    let pdu = x ∷ d in
    let first = take size pdu in
    let cs = chunks (length pdu) size (drop size pdu) in
    let whole : first ++ concat cs ≡ pdu =
      concat-chunks (suc (length pdu)) size pdu h (omega arith) in
    let (logged, done) =
      deliver_first handle first cs ra s hh (chunks-IsChunk (suc (length pdu)) size pdu h k)
        (subst IsPdu (sym whole) v) held in
    let out = deliver receive (packets handle 0 (first ∷ cs)) ([], ra) in
    let (given, empty) = take_lem out.1 pdu (subst (Holds out.1) whole done) in
    (
      length cs,
      out.1,
      send_fragmented-packets receive handle size pdu ([], ra) (λ p u. unfold receive in refl) hh h
            k (omega (arith, v.small))
          ∙ ap
              (λ l.
                let t : List Progress × Reassembler = (l, out.1) in
                let q : Option (Result (Unit {0})) × (List Progress × Reassembler) =
                  (some (ok tt), t) in
                q)
              logged,
      given,
      empty,
    )
