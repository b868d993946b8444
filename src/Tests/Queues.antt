-- ===== src/Tests/Queues.antt =====
-- core/event/queue.c at a queue of two nodes.
use aros_bluzing.Prelude.{◌≡◌, refl, some, none, [], ◌∷◌, ◌==◌, if◌then◌else◌, false}
use aros_bluzing.Timer.Order.{member}
use aros_bluzing.Queue.{Queue, queue_init, is_empty, push, pop}
use aros_bluzing.Queue.Chain.{Holds, Pops, operations-Holds}

-- Node 5 before node 9.
abbrev two_nodes : Queue
two_nodes = record { next = λ k. if k == 5 then some 9 else none; head = some 5; tail = some 9 }

two_nodes-Holds : Holds two_nodes (5 ∷ 9 ∷ [])
unfolding member
two_nodes-Holds = record {
  linked = (refl, (refl, refl));
  tail = refl;
  distinct = (refl, (refl, tt));
}

outside : member 7 (5 ∷ 9 ∷ []) ≡ false
unfolding member
outside = refl

operations-Holds_example :
    Holds (queue_init two_nodes) []
    × (is_empty two_nodes ≡ false)
    × Holds (push 7 two_nodes) (5 ∷ 9 ∷ 7 ∷ [])
    × Pops (5 ∷ 9 ∷ []) two_nodes (pop two_nodes)
operations-Holds_example = operations-Holds two_nodes (5 ∷ 9 ∷ []) 7 outside two_nodes-Holds
