-- ===== src/H4/Bounds.antt =====
-- core/transport/h4.c: the receiver between two rounds, and the loop over the bytes that it is fed.
use aros_bluzing.Prelude.{
  ℕ, zero, suc, ◌+◌, ◌-◌, ◌^◌, ◌≤◌, ◌<◌, ◌≡◌, refl, ◌∙◌, List, length, take, drop, length-take, ltb,
  ◌==◌, Bool, true, false, Bool-cases, inl, inr, Option, some, arith, le→ltb, ltb→lt, ltb→le,
}
use aros_bluzing.Status.{ok, err, Result}
use aros_bluzing.Endian.{at}
use aros_bluzing.Buffer.{add_size, sub_size}
use aros_bluzing.Buffer.Writer.{store}
use aros_bluzing.Buffer.Writer.Emits.{length-store, drop-store}
use aros_bluzing.H4.{
  PacketType, Rx, max_packet_size, reset_packet, begin_packet, payload_length, Round, goes_on,
  fails, chunk_len, copied, end_header, end_copy, begun, after, step_len, round_of, feed_loop,
  rx_feed,
}

-- What stands in memory behind the buffer.
unfoldable pub beyond : List ℕ → List ℕ
beyond packet = drop max_packet_size packet

beyond-store :
    (mem : List ℕ) (i : ℕ) (vs : List ℕ)
    → i + length vs ≤ max_packet_size
    → beyond (store mem i vs) ≡ beyond mem
unfolding beyond
beyond-store mem i vs h = drop-store max_packet_size mem i vs h

-- Between two rounds: a packet that has begun has bytes to come, and they fit the buffer. `packet` may
-- be more memory than the buffer; `behind` is what stands behind the buffer.
pub record IsValid (behind : List ℕ) (rx : Rx) : Type 0 where
  pub sized : max_packet_size ≤ length rx.packet
  pub kept : beyond rx.packet ≡ behind
  pub fits :
      rx.have_type ≡ true
      → (rx.length < rx.expected)
        × (rx.expected ≤ max_packet_size)
        × (1 ≤ rx.header_length)
        × (rx.header_length ≤ rx.expected)

-- Between the copy and the tests after it.
record IsCopied (behind : List ℕ) (rx : Rx) : Type 0 where
  sized : max_packet_size ≤ length rx.packet
  kept : beyond rx.packet ≡ behind
  filled : rx.length ≤ rx.expected
  fits : rx.expected ≤ max_packet_size
  header : (1 ≤ rx.header_length) × (rx.header_length ≤ rx.expected)

abbrev RoundIsValid : List ℕ → {S : Type 0} → Round S → Type 0
RoundIsValid behind (goes_on rx s) = IsValid behind rx
RoundIsValid behind (fails e rx s) = IsValid behind rx

reset_packet-IsValid :
    (behind : List ℕ) (rx : Rx)
    → max_packet_size ≤ length rx.packet
    → beyond rx.packet ≡ behind
    → IsValid behind (reset_packet rx)
unfolding reset_packet
reset_packet-IsValid behind rx h k = record { sized = h; kept = k; fits = λ e. absurd (cc) }

module _ (behind : List ℕ) {S : Type 0} (packet : PacketType → List ℕ → S → S) where
  begin_packet-IsValid :
      (rx : Rx) (s : S) (w : ℕ)
      → max_packet_size ≤ length rx.packet
      → beyond rx.packet ≡ behind
      → RoundIsValid behind (begun packet rx s (begin_packet rx w))
  unfolding begin_packet
  begin_packet-IsValid rx s w h k = elim (Bool-cases (w == 2)) [
    | inl a ↦ rw a (record { sized = h; kept = k; fits = λ e. omega arith })
    | inr a ↦ elim (Bool-cases (w == 3)) [
      | inl b ↦ rw (a, b) (record { sized = h; kept = k; fits = λ e. omega arith })
      | inr b ↦ elim (Bool-cases (w == 4)) [
        | inl c ↦ rw (a, b, c) (record { sized = h; kept = k; fits = λ e. omega arith })
        | inr c ↦ elim (Bool-cases (w == 5)) [
          | inl d ↦ rw (a, b, c, d) (record { sized = h; kept = k; fits = λ e. omega arith })
          | inr d ↦ rw (a, b, c, d) (reset_packet-IsValid behind rx h k)
        ]
      ]
    ]
  ]

  end_header-IsValid :
      (rx : Rx) (s : S)
      → IsCopied behind rx
      → rx.length ≡ rx.header_length
      → RoundIsValid behind (end_header packet rx s)
  unfolding end_header
  end_header-IsValid rx s v e =
      let payload = payload_length rx.type rx.packet in
      elim (Bool-cases (ltb (max_packet_size - rx.header_length) payload)) [
        | inl a ↦ rw a (reset_packet-IsValid behind rx v.sized v.kept)
        | inr a ↦ elim (Bool-cases (payload == 0)) [
          | inl b ↦ rw (a, b) (reset_packet-IsValid behind _ v.sized v.kept)
          | inr b ↦
              let total : add_size rx.header_length payload ≡ rx.header_length + payload =
                omega (arith, v.header, v.fits, ltb→le _ _ a) in
              let room = ltb→le _ _ a in
              let some_left : 1 ≤ payload = ground arith in
              rw (a, b)
                (record {
                  sized = v.sized;
                  kept = v.kept;
                  fits = λ t. (
                    omega (arith, e, v.header),
                    omega (arith, v.header, v.fits),
                    v.header.0,
                    omega arith,
                  );
                })
        ]
      ]

  end_copy-IsValid :
      (rx : Rx) (s : S) → IsCopied behind rx → RoundIsValid behind (end_copy packet rx s)
  unfolding end_copy
  end_copy-IsValid rx s v = elim (Bool-cases (rx.length == rx.expected)) [
    | inr a ↦ rw a (record {
      sized = v.sized;
      kept = v.kept;
      fits = λ t. (ground arith, v.fits, v.header.0, v.header.1);
    })
    | inl a ↦ elim (Bool-cases (rx.expected == rx.header_length)) [
      | inl b ↦ rw (a, b) (end_header-IsValid rx s v (ground arith))
      | inr b ↦ rw (a, b) (reset_packet-IsValid behind rx v.sized v.kept)
    ]
  ]

  copied-IsCopied :
      (rx : Rx) (bytes : List ℕ) (available : ℕ)
      → IsValid behind rx
      → rx.have_type ≡ true
      → available < 2 ^ 64
      → 1 ≤ available
      → IsCopied behind (copied rx bytes (chunk_len rx available))
        × (1 ≤ chunk_len rx available)
        × (chunk_len rx available ≤ available)
  copied-IsCopied rx bytes available v t h k =
      let (a, b, c, d) = v.fits t in
      let needed : sub_size rx.expected rx.length ≡ rx.expected - rx.length = omega arith in
      let bounds : (1 ≤ chunk_len rx available)
          × (chunk_len rx available ≤ available)
          × (chunk_len rx available ≤ rx.expected - rx.length) =
        ground arith in
      (
        record {
          sized = omega (
            arith,
            v.sized,
            length-store rx.packet rx.length (take (chunk_len rx available) bytes),
          );
          kept =
              beyond-store rx.packet rx.length (take (chunk_len rx available) bytes)
                (omega (arith, bounds, a, b, length-take (chunk_len rx available) bytes))
              ∙ v.kept;
          filled = omega (arith, bounds);
          fits = b;
          header = (c, d);
        },
        bounds.0,
        bounds.1,
      )

  round_of-IsValid :
      (b : Bool) (rx : Rx) (s : S) (bytes : List ℕ) (available : ℕ)
      → rx.have_type ≡ b
      → IsValid behind rx
      → available < 2 ^ 64
      → 1 ≤ available
      → RoundIsValid behind (round_of packet b rx bytes available s)
        × (1 ≤ step_len b rx available)
        × (step_len b rx available ≤ available)
  round_of-IsValid true rx s bytes available t v h k =
      let (c, d, e) = copied-IsCopied rx bytes available v t h k in (end_copy-IsValid _ s c, d, e)
  round_of-IsValid false rx s bytes available t v h k =
      (begin_packet-IsValid rx s (at bytes 0) v.sized v.kept, omega arith, k)

  -- A feed has an outcome, and leaves a valid receiver.
  abbrev pub Feeds : Option (Result (Unit {0}) × Rx × S) → Type 0
  Feeds o =
      (r : Result (Unit {0})) × (rx : Rx) × (s : S) × (o ≡ some (r, rx, s)) × IsValid behind rx

  after-Feeds :
      (loop : Rx → S → Option (Result (Unit {0}) × Rx × S)) (round : Round S)
      → RoundIsValid behind round
      → ((rx : Rx) (s : S) → IsValid behind rx → Feeds (loop rx s))
      → Feeds (after packet loop round)
  after-Feeds loop (goes_on rx s) v h = h rx s v
  after-Feeds loop (fails e rx s) v h = (err e, rx, s, refl, v)

  feed_loop-Feeds :
      (fuel : ℕ) (bytes : List ℕ) (len offset : ℕ) (rx : Rx) (s : S)
      → IsValid behind rx
      → len < 2 ^ 64
      → offset ≤ len
      → len ≤ offset + fuel
      → Feeds (feed_loop packet fuel bytes len offset rx s)
  unfolding feed_loop
  feed_loop-Feeds zero bytes len offset rx s v small h enough =
      rw (le→ltb offset len (omega arith)) (ok tt, rx, s, refl, v)
  feed_loop-Feeds (suc fuel) bytes len offset rx s v small h enough =
      elim (Bool-cases (ltb offset len)) [
        | inr e ↦ rw e (ok tt, rx, s, refl, v)
        | inl e ↦
            let left : sub_size len offset ≡ len - offset = omega arith in
            let more = ltb→lt _ _ e in
            let (round, taken, few) =
              round_of-IsValid rx.have_type rx s (drop offset bytes) (sub_size len offset) refl v
                (omega arith) (omega arith) in
            rw e (
              after-Feeds
                (feed_loop packet fuel bytes len
                  (add_size offset (step_len rx.have_type rx (sub_size len offset))))
                _ round
                (λ next s' v'.
                  feed_loop-Feeds fuel bytes len _ next s' v' small (omega (arith, left, few))
                    (omega (arith, left, taken, few))))
      ]

-- Any bytes may be fed to a valid receiver, in pieces of any size below 2^64: each feed comes to an
-- end, with success or an error, and leaves a valid receiver, in which what has come of a packet is
-- less than what is expected, and that fits the buffer. The memory behind the buffer keeps its bytes.
pub rx_feed-Feeds :
    (behind : List ℕ) {S : Type 0} (packet : PacketType → List ℕ → S → S) (bytes : List ℕ) (len : ℕ)
    (rx : Rx) (s : S)
    → IsValid behind rx
    → len < 2 ^ 64
    → Feeds behind packet (rx_feed packet bytes len rx s)
unfolding rx_feed
rx_feed-Feeds behind packet bytes len rx s v h =
    feed_loop-Feeds behind packet len bytes len 0 rx s v h (omega arith) (omega arith)
