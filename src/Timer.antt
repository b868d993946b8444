-- ===== src/Timer.antt =====
-- core/timer/timer.c: the list of pending timers, sorted by expiry.
-- A timer is known by a number, its address. `order` is the chain from `list->head` along `next`;
-- the other fields of the timers are functions of the address.
pub mod Order
pub mod Invariant
use aros_bluzing.Prelude.{
  ℕ, ◌-◌, ◌^◌, List, [], ◌∷◌, ltb, leb, ◌==◌, if◌then◌else◌, Bool, true, false, not, Option, none,
  some,
}

pub record Timers : Type 0 where
  pub order : List ℕ
  pub expiry : ℕ → ℕ
  pub pending : ℕ → Bool

-- `f` with a new value at `k`.
abbrev pub update : {A : Type 0} → (ℕ → A) → ℕ → A → ℕ → A
update f k v j = if j == k then v else f j

unfoldable pub list_init : Timers → Timers
list_init s = record s { order = [] }

unfoldable pub timer_init : ℕ → Timers → Timers
timer_init t s = record s { expiry = update s.expiry t 0; pending = update s.pending t false }

-- Takes the first occurrence of `t` out of the chain.
unfoldable pub unlink : ℕ → List ℕ → List ℕ
unlink t [] = []
unlink t (x ∷ xs) = if x == t then xs else x ∷ unlink t xs

unfoldable pub cancel : ℕ → Timers → Timers
cancel t s =
    if not (s.pending t)
    then s
    else record s { order = unlink t s.order; pending = update s.pending t false }

-- Puts `t` behind every timer that expires no later.
unfoldable pub link : (ℕ → ℕ) → ℕ → ℕ → List ℕ → List ℕ
link expiry t e [] = t ∷ []
link expiry t e (x ∷ xs) = if leb (expiry x) e then x ∷ link expiry t e xs else t ∷ x ∷ xs

unfoldable pub add : ℕ → ℕ → Timers → Timers
add t expiry_us s =
    let c = cancel t s in
    let expiry = update c.expiry t expiry_us in
    record {
      order = link expiry t expiry_us c.order;
      expiry = expiry;
      pending = update c.pending t true;
    }

abbrev pub pop_from : ℕ → Timers → List ℕ → Option ℕ × Timers
pop_from now_us s [] = (none, s)
pop_from now_us s (t ∷ rest) =
    if ltb now_us (s.expiry t)
    then (none, s)
    else (some t, record s { order = rest; pending = update s.pending t false })

unfoldable pub pop_expired : ℕ → Timers → Option ℕ × Timers
pop_expired now_us s = pop_from now_us s s.order

abbrev pub uint64_max : ℕ
uint64_max = 2 ^ 64 - 1

abbrev pub expiry_from : Timers → List ℕ → ℕ
expiry_from s [] = uint64_max
expiry_from s (t ∷ rest) = s.expiry t

unfoldable pub next_expiry : Timers → ℕ
next_expiry s = expiry_from s s.order
