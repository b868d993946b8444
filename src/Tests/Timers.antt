-- ===== src/Tests/Timers.antt =====
-- core/timer at a list with two timers.
use aros_bluzing.Prelude.{◌≡◌, refl, [], ◌∷◌, ◌==◌, if◌then◌else◌, true, false, some, arith}
use aros_bluzing.Timer.{Timers, cancel, add, pop_expired, next_expiry}
use aros_bluzing.Timer.Order.{member}
use aros_bluzing.Timer.Invariant.{
  IsValid, Earliest, operations-IsValid, pop_expired-Earliest, next_expiry-Soonest, Soonest,
}

-- Timer 1 expires at 10, timer 2 at 20.
abbrev two_timers : Timers
two_timers = record {
  order = 1 ∷ 2 ∷ [];
  expiry = λ t. if t == 1 then 10 else 20;
  pending = λ t. member t (1 ∷ 2 ∷ []);
}

two_timers-IsValid : IsValid two_timers
unfolding member
two_timers-IsValid = record {
  sorted = omega arith;
  distinct = (refl, (refl, tt));
  listed = λ t. refl;
}

two_timers_pop : (pop_expired 15 two_timers).0 ≡ some 1
unfolding pop_expired
two_timers_pop = refl

operations-IsValid_example :
    IsValid (cancel 2 two_timers)
    × IsValid (add 2 5 two_timers)
    × IsValid (pop_expired 15 two_timers).1
    × ((cancel 2 two_timers).pending 2 ≡ false)
    × ((add 2 5 two_timers).pending 2 ≡ true)
    × ((add 2 5 two_timers).expiry 2 ≡ 5)
operations-IsValid_example = operations-IsValid 2 5 15 two_timers-IsValid

pop_expired-Earliest_example : Earliest 15 two_timers (pop_expired 15 two_timers)
pop_expired-Earliest_example = pop_expired-Earliest 15 two_timers-IsValid

next_expiry-Soonest_example : Soonest two_timers (next_expiry two_timers)
next_expiry-Soonest_example = next_expiry-Soonest two_timers-IsValid
