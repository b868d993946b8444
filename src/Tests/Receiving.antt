-- ===== src/Tests/Receiving.antt =====
-- core/transport/h4.c at an event and the start of another.
use aros_bluzing.Prelude.{
  ℕ, List, [], ◌∷◌, ◌++◌, ap, sym, ◌∙◌, replicate, drop, drop-append, length-append,
  length-replicate, arith,
}
use aros_bluzing.H4.{PacketType, Rx, rx_init, rx_feed}
use aros_bluzing.H4.Bounds.{IsValid, beyond, Feeds, rx_feed-Feeds}

-- A receiver with two bytes of another variable behind its buffer.
abbrev receiver : Rx
receiver = record rx_init { packet = replicate 4100 0 ++ 7 ∷ 9 ∷ [] }

receiver-IsValid : IsValid (7 ∷ 9 ∷ []) receiver
unfolding beyond
receiver-IsValid = record {
  sized = omega (
    arith,
    length-append {A = ℕ} (replicate 4100 0) (7 ∷ 9 ∷ []),
    length-replicate {A = ℕ} 4100 0,
  );
  kept =
      ap (λ k. drop k (replicate 4100 0 ++ 7 ∷ 9 ∷ [])) (sym (length-replicate {A = ℕ} 4100 0))
      ∙ drop-append (replicate 4100 0) (7 ∷ 9 ∷ []);
  fits = λ e. absurd (cc);
}

-- The owner keeps the packets, the last one first.
abbrev keep : PacketType → List ℕ → List (PacketType × List ℕ) → List (PacketType × List ℕ)
keep type bytes log = (type, bytes) ∷ log

abbrev stream : List ℕ
stream = 4 ∷ 0x0e ∷ 1 ∷ 9 ∷ 4 ∷ 0x0f ∷ []

rx_feed-Feeds_example : Feeds (7 ∷ 9 ∷ []) keep (rx_feed keep stream 6 receiver [])
rx_feed-Feeds_example =
    rx_feed-Feeds (7 ∷ 9 ∷ []) keep stream 6 receiver [] receiver-IsValid (omega arith)
