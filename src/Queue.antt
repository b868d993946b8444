-- ===== src/Queue.antt =====
-- core/event/queue.c: the intrusive queue. A node is known by a number, its address; `next` is the
-- field of every node, and a null pointer is `none`.
pub mod Chain
use aros_bluzing.Prelude.{ℕ, Option, none, some, ◌==◌, if◌then◌else◌, Bool, true, false}

pub record Queue : Type 0 where
  pub next : ℕ → Option ℕ
  pub head : Option ℕ
  pub tail : Option ℕ

-- `node->next = value`
abbrev pub set_next : (ℕ → Option ℕ) → ℕ → Option ℕ → ℕ → Option ℕ
set_next next node value k = if k == node then value else next k

abbrev pub is_null : Option ℕ → Bool
is_null none = true
is_null (some node) = false

unfoldable pub queue_init : Queue → Queue
queue_init q = record q { head = none; tail = none }

unfoldable pub is_empty : Queue → Bool
is_empty q = is_null q.head

-- Links `node` behind the tail, or as the head.
abbrev pub link_last : Option ℕ → ℕ → Queue → Queue
link_last none node q = record q { head = some node }
link_last (some last) node q = record q { next = set_next q.next last (some node) }

unfoldable pub push : ℕ → Queue → Queue
push node q =
    let cleared = record q { next = set_next q.next node none } in
    record (link_last q.tail node cleared) { tail = some node }

abbrev pub pop_head : Option ℕ → Queue → Option ℕ × Queue
pop_head none q = (none, q)
pop_head (some node) q = (
  some node,
  record {
    head = q.next node;
    tail = if is_null (q.next node) then none else q.tail;
    next = set_next q.next node none;
  },
)

unfoldable pub pop : Queue → Option ℕ × Queue
pop q = pop_head q.head q
