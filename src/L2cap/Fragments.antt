-- ===== src/L2cap/Fragments.antt =====
-- protocols/l2cap/l2cap.c and channel_manager.c: the packets in which a PDU is sent.
use aros_bluzing.Prelude.{
  ℕ, zero, suc, ◌+◌, ◌*◌, ◌-◌, ◌%◌, ◌^◌, ◌≤◌, ◌<◌, ◌≡◌, refl, sym, ap, ◌∙◌, List, [], ◌∷◌, ◌++◌,
  length, take, drop, length-take, length-drop, length-replicate, replicate, drop-drop, leb, ◌==◌,
  true, false, Option, some, arith,
}
use aros_bluzing.Status.{ok, err, buffer_underflow, Result, Action, ◌>>◌}
use aros_bluzing.Endian
use aros_bluzing.Buffer.{add_size, sub_size}
use aros_bluzing.Buffer.Writer.{Writer, writer_init, write_bytes}
use aros_bluzing.Buffer.Writer.Emits.{
  IsValid, room, written, then-Emits, write_bytes-Emits, writer_init-IsValid,
}
use aros_bluzing.Hci.{encode_acl_header}
use aros_bluzing.Hci.Headers.{acl_header_lem}
use aros_bluzing.L2cap.{
  Fragmenter, fragmenter_init, fragmenter_next, chunk_len, next_pb_flag, advance,
}
use aros_bluzing.L2cap.Sending.{
  acl_writer, sent_bytes, after_send, send_loop, send_fragmented, acl_buffer_len,
}

abbrev pub acl_header_bytes : ℕ → ℕ → ℕ → List ℕ
acl_header_bytes handle pb len =
    Endian.write_le16 (handle + 4096 * pb + 16384 * 0) ++ Endian.write_le16 len

abbrev pub packet : ℕ → ℕ → List ℕ → List ℕ
packet handle pb chunk = acl_header_bytes handle pb (length chunk) ++ chunk

-- The chunks of a PDU.
abbrev pub chunks : ℕ → ℕ → List ℕ → List (List ℕ)
chunks zero size data_left = []
chunks (suc n) size [] = []
chunks (suc n) size (x ∷ d) = take size (x ∷ d) ∷ chunks n size (drop size (x ∷ d))

-- The chunks as packets: the first with the flag `pb`, the others as continuations.
abbrev pub packets : ℕ → ℕ → List (List ℕ) → List (List ℕ)
packets handle pb [] = []
packets handle pb (c ∷ cs) = packet handle pb c ∷ packets handle 1 cs

take_length-take : (n : ℕ) (d : List ℕ) → take (length (take n d)) d ≡ take n d
take_length-take zero d = refl
take_length-take (suc n) [] = refl
take_length-take (suc n) (x ∷ d) = ap (λ t. x ∷ t) (take_length-take n d)

drop_length-take : (n : ℕ) (d : List ℕ) → drop (length (take n d)) d ≡ drop n d
drop_length-take zero d = refl
drop_length-take (suc n) [] = refl
drop_length-take (suc n) (x ∷ d) = drop_length-take n d

-- A fragmenter that has more to send.
record Sends (fr : Fragmenter) : Type 0 where
  whole : fr.len ≡ length fr.bytes
  small : fr.len < 2 ^ 16
  size : 0 < fr.frag_size
  fits : fr.frag_size ≤ 512
  handle : fr.handle ≤ 0x0fff

chunk_len_lem :
    (fr : Fragmenter)
    → Sends fr
    → fr.pos ≤ fr.len
    → chunk_len fr ≡ length (take fr.frag_size (drop fr.pos fr.bytes))
chunk_len_lem fr s h =
    let total = length-take fr.frag_size (drop fr.pos fr.bytes) in
    let left = length-drop fr.pos fr.bytes in
    let remaining : sub_size fr.len fr.pos ≡ fr.len - fr.pos = omega (arith, s.small) in
    ground (arith, total, left, remaining, s.whole)

advance_ok :
    (fr : Fragmenter) (p : Result (Unit {0}) × Writer)
    → p.0 ≡ ok tt
    → advance fr p ≡ (ok tt, record fr { pos = add_size fr.pos (chunk_len fr) }, p.1)
advance_ok fr (ok a, w) e = refl
advance_ok fr (err x, w) e = absurd (cc)

acl_writer-IsValid : IsValid acl_writer × (written acl_writer ≡ [])
acl_writer-IsValid =
    writer_init-IsValid (replicate acl_buffer_len 0) acl_buffer_len
      (omega (arith, length-replicate {A = ℕ} acl_buffer_len 0)) (omega arith)

chunk_of : Fragmenter → List ℕ
chunk_of fr = take fr.frag_size (drop fr.pos fr.bytes)

next_pb_flag-le : (fr : Fragmenter) → next_pb_flag fr ≤ 3
next_pb_flag-le fr = ground arith

sent_written : (w : Writer) → sent_bytes w ≡ written w
unfolding written
sent_written w = refl

-- What the fragmenter does to the writer.
abbrev send_chunk : Fragmenter → ℕ → ℕ → Action Writer (Unit {0})
send_chunk fr chunk field = do
  encode_acl_header fr.handle (next_pb_flag fr) 0 field
  write_bytes (drop fr.pos fr.bytes) chunk

room_left :
    (fr : Fragmenter) (n pb : ℕ)
    → n ≤ length (drop fr.pos fr.bytes)
    → n ≤ 512
    → length (acl_header_bytes fr.handle pb n ++ take n (drop fr.pos fr.bytes)) ≤ room acl_writer
unfolding Endian.write_le16 writer_init
room_left fr n pb h s = omega (arith, length-take n (drop fr.pos fr.bytes))

fragmenter_next_lem :
    (fr : Fragmenter)
    → Sends fr
    → fr.pos < fr.len
    → (w : Writer) × (fragmenter_next fr acl_writer
        ≡ (ok tt, record fr { pos = add_size fr.pos (chunk_len fr) }, w))
      × (sent_bytes w ≡ packet fr.handle (next_pb_flag fr) (chunk_of fr))
unfolding fragmenter_next chunk_of
fragmenter_next_lem fr s h =
    let n = length (chunk_of fr) in
    let count = chunk_len_lem fr s (omega arith) in
    let short : n ≤ 512 = omega (arith, s.fits, length-take fr.frag_size (drop fr.pos fr.bytes)) in
    let whole : n ≤ length (drop fr.pos fr.bytes) =
      omega (arith, length-take fr.frag_size (drop fr.pos fr.bytes)) in
    let header =
      (acl_header_lem fr.handle (next_pb_flag fr) 0 (s.handle) (next_pb_flag-le fr) (omega arith) n
        [] (omega arith)).0 in
    let emits = then-Emits header (write_bytes-Emits (drop fr.pos fr.bytes) n whole) in
    let wrote = emits acl_writer (acl_writer-IsValid.0) in
    let (done, bytes, pos) = wrote.fits (room_left fr n (next_pb_flag fr) whole short) in
    let more_left : leb fr.len fr.pos ≡ false = ground arith in
    let run = send_chunk fr n n acl_writer in
    (
      run.1,
      rw more_left (
          ap (λ c. advance fr (send_chunk fr c (c % 2 ^ 16) acl_writer)) count
          ∙ ap (λ m. advance fr (send_chunk fr n m acl_writer)) {y = n} (omega arith)
          ∙ advance_ok fr run done),
      sent_written run.1
          ∙ bytes
          ∙ ap
              (λ t.
                t
                ++ (acl_header_bytes fr.handle (next_pb_flag fr) n
                    ++ take n (drop fr.pos fr.bytes)))
              (acl_writer-IsValid.1)
          ∙ ap (λ t. acl_header_bytes fr.handle (next_pb_flag fr) n ++ t)
              (take_length-take fr.frag_size (drop fr.pos fr.bytes)),
    )

fragmenter_next_end :
    (fr : Fragmenter) (w : Writer)
    → leb fr.len fr.pos ≡ true
    → fragmenter_next fr w ≡ (err buffer_underflow, fr, w)
unfolding fragmenter_next
fragmenter_next_end fr w h = rw h refl

chunk_of_lem :
    (fr : Fragmenter) (x : ℕ) (d : List ℕ)
    → x ∷ d ≡ drop fr.pos fr.bytes
    → chunk_of fr ≡ take fr.frag_size (x ∷ d)
unfolding chunk_of
chunk_of_lem fr x d e = ap (take fr.frag_size) (sym e)

-- The fragmenter after a chunk: what is left, and the flag of the next.
after_chunk :
    (fr : Fragmenter) (x : ℕ) (d : List ℕ)
    → Sends fr
    → fr.pos < fr.len
    → x ∷ d ≡ drop fr.pos fr.bytes
    → let fr' = record fr { pos = add_size fr.pos (chunk_len fr) } in
      Sends fr' × (drop fr.frag_size (x ∷ d) ≡ drop fr'.pos fr'.bytes) × (1 ≡ next_pb_flag fr')
after_chunk fr x d s h e =
    let n = length (take fr.frag_size (drop fr.pos fr.bytes)) in
    let count = chunk_len_lem fr s (omega arith) in
    let left = length-drop fr.pos fr.bytes in
    let taken = length-take fr.frag_size (drop fr.pos fr.bytes) in
    let next : add_size fr.pos (chunk_len fr) ≡ fr.pos + n =
      omega (arith, count, left, taken, s.whole, s.small) in
    let moved : (add_size fr.pos (chunk_len fr) == 0) ≡ false =
      ground (arith, next, taken, left, s.whole, s.size) in
    (
      record { whole = s.whole; small = s.small; size = s.size; fits = s.fits; handle = s.handle },
      ap (drop fr.frag_size) e
          ∙ sym (drop_length-take fr.frag_size (drop fr.pos fr.bytes))
          ∙ drop-drop n fr.pos fr.bytes
          ∙ ap (λ k. drop k fr.bytes) (sym next),
      rw moved refl,
    )

module _ {T : Type 0} (send_acl : List ℕ → T → ℕ × T) where
  -- The transport after the packets.
  abbrev pub deliver : List (List ℕ) → T → T
  deliver [] t = t
  deliver (p ∷ ps) t = deliver ps (send_acl p t).1

  module _ (accepts : (p : List ℕ) (t : T) → (send_acl p t).0 ≡ 0) where
    after_send_ok :
        (rest : T → Option (Result (Unit {0})) × T) (p : ℕ × T)
        → p.0 ≡ 0
        → after_send send_acl rest p ≡ rest p.1
    after_send_ok rest (rc, t) h =
        let zero_code : (rc == 0) ≡ true = ground arith in rw zero_code refl

    send_loop_lem :
        (fuel : ℕ) (fr : Fragmenter) (t : T) (d : List ℕ) (pb : ℕ)
        → Sends fr
        → d ≡ drop fr.pos fr.bytes
        → pb ≡ next_pb_flag fr
        → length d < fuel
        → send_loop send_acl fuel fr t
          ≡ (some (ok tt), deliver (packets fr.handle pb (chunks fuel fr.frag_size d)) t)
    unfolding send_loop
    send_loop_lem zero fr t d pb s e f h = absurd (omega arith)
    send_loop_lem (suc fuel) fr t [] pb s e f h =
        let none_left : leb fr.len fr.pos ≡ true =
          ground (arith, length-drop fr.pos fr.bytes, ap length e, s.whole) in
        rw (fragmenter_next_end fr acl_writer none_left) refl
    send_loop_lem (suc fuel) fr t (x ∷ d) pb s e f h =
        let begun : fr.pos < fr.len =
          omega (arith, length-drop fr.pos fr.bytes, ap length e, s.whole) in
        let (w, next, bytes) = fragmenter_next_lem fr s begun in
        let (moved, left, flag) = after_chunk fr x d s begun e in
        let same : packet fr.handle (next_pb_flag fr) (chunk_of fr)
            ≡ packet fr.handle pb (take fr.frag_size (x ∷ d)) =
          ap (λ k. packet fr.handle k (chunk_of fr)) (sym f)
          ∙ ap (packet fr.handle pb) (chunk_of_lem fr x d e) in
        rw
          (
            next,
            bytes,
            same,
            after_send_ok
                (send_loop send_acl fuel (record fr { pos = add_size fr.pos (chunk_len fr) }))
                (send_acl (packet fr.handle pb (take fr.frag_size (x ∷ d))) t)
                (accepts (packet fr.handle pb (take fr.frag_size (x ∷ d))) t),
          )
          (send_loop_lem fuel (record fr { pos = add_size fr.pos (chunk_len fr) }) _
            (drop fr.frag_size (x ∷ d)) 1 moved left flag
            (omega (arith, length-drop fr.frag_size (x ∷ d), s.size)))

-- A PDU goes out whole over a transport that accepts every packet: the loop ends, with success, after
-- it has sent the PDU cut into chunks of the size of a fragment, in order, the first as a start and
-- the others as continuations, each behind an ACL header with its handle, flag and length.
pub send_fragmented-packets :
    {T : Type 0} (send_acl : List ℕ → T → ℕ × T) (handle size : ℕ) (pdu : List ℕ) (t : T)
    → ((p : List ℕ) (u : T) → (send_acl p u).0 ≡ 0)
    → handle ≤ 0x0fff
    → 0 < size
    → size ≤ 512
    → length pdu < 2 ^ 16
    → send_fragmented send_acl handle size pdu (length pdu) t
      ≡ (some (ok tt), deliver send_acl (packets handle 0 (chunks (suc (length pdu)) size pdu)) t)
unfolding send_fragmented fragmenter_init
send_fragmented-packets send_acl handle size pdu t accepts hh hs hf hl =
    send_loop_lem send_acl accepts (suc (length pdu)) (fragmenter_init handle size pdu (length pdu))
      t pdu 0 (record { whole = refl; small = hl; size = hs; fits = hf; handle = hh }) refl refl
      (omega arith)
