-- ===== src/CommandQueue/Preserve.antt =====
-- core/controller/command_queue.c: the operations and the invariant of the queue.
use aros_bluzing.Prelude.{
  ℕ, zero, suc, ◌≡◌, refl, sym, ap, List, [], ◌∷◌, length, Option, none, some, Bool, true, false,
  ◌==◌, ◌&&◌, not, Option-cases, inl, inr, arith,
}
use mathlib.Core.Path.{subst}
use mathlib.Core.Option
use aros_bluzing.Status.{ok, err, Result}
use aros_bluzing.Queue.{is_empty, is_null, pop}
use aros_bluzing.Queue.Chain.{pop-Holds, is_empty_lem}
use aros_bluzing.Buffer.Reader.{Reader, reader_init}
use aros_bluzing.Buffer.Writer.{Writer}
use aros_bluzing.Hci.{
  EventHeader, CommandComplete, CommandStatus, parse_event_header, parse_command_complete,
  parse_command_status,
}
use aros_bluzing.CommandQueue.{Completion, complete, timeout, send_error, Slot, Cmdq, Driver}
use aros_bluzing.CommandQueue.Run.{
  Pump, release, call_back, complete_slot, answer, on_command_complete, on_command_status,
  on_header, on_event_with, deliver, arm, after_send, transmit, launch, advance, must_wait, pump,
  on_event, timeout_callback, event_command_complete, event_command_status, is_at,
}
use aros_bluzing.CommandQueue.Invariant.{
  IsValid, IsTaken, at-outstanding, outstanding-IsTaken, pop-IsTaken, arm-IsValid,
}

-- `Inv` is what else is to hold, of the slots and of the state behind the callbacks.
module _ {C U T : Type 0} (Inv : (ℕ → Slot C) → U → Type 0) where
  abbrev pub SomeValid : Cmdq C U T → Type 0
  SomeValid q = (ns : List ℕ) × IsValid q ns × Inv q.pool q.user

  abbrev pub EachValid : Option (Cmdq C U T) → Type 0
  EachValid none = Unit
  EachValid (some q) = SomeValid q

  -- What the code around the queue may do: a completed command frees its slot and its callback runs,
  -- and a receiver sees an event, both with everything that holds kept.
  pub record Keeps (d : Driver C U T) : Type 0 where
    pub settle_keeps :
        (i : ℕ) (x : Completion) (q : Cmdq C U T) (ns : List ℕ)
        → IsTaken q ns i
        → Inv q.pool q.user
        → SomeValid (call_back d (q.pool i).on_complete x (release i q))
    pub receive_keeps :
        (bytes : List ℕ) (q : Cmdq C U T) → SomeValid q → SomeValid (d.receive bytes q)

module _ {C U T : Type 0} where
  -- The queue waits or there is a first command and none in flight.
  pub ready :
      (q : Cmdq C U T) (ns : List ℕ)
      → IsValid q ns
      → must_wait q ≡ false
      → (i : ℕ) × (rest : List ℕ) × (ns ≡ i ∷ rest) × (q.outstanding ≡ none)
  ready q [] v h =
      let e : is_empty q.pending ≡ true = is_empty_lem q.pending [] v.waiting in
      absurd (ground arith)
  ready q (i ∷ rest) v h = elim (Option-cases q.outstanding) [
    | inl e ↦ (i, rest, refl, e)
    | inr (j, e) ↦ let busy : is_null q.outstanding ≡ false = ap is_null e in absurd (ground arith)
  ]

-- A property of what a test chooses.
pub either-elim {ℓ} :
    {A : Type 0} (P : A → Type ℓ) (b : Bool) (x y : A)
    → (b ≡ true → P x)
    → (b ≡ false → P y)
    → P (elim b [ true ↦ x | false ↦ y ])
either-elim P true x y f g = f refl
either-elim P false x y f g = g refl

module _ {C U T : Type 0} (Inv : (ℕ → Slot C) → U → Type 0) (d : Driver C U T)
    (k : Keeps Inv d) where
  -- Whatever holds of a consistent queue, and of every pumped one, holds of what an event leaves.
  module _ (again : Pump C U T) (Outcome : Option (Cmdq C U T) → Type 0)
      (here : (q : Cmdq C U T) → SomeValid Inv q → Outcome (some q))
      (g : (now : ℕ) (q : Cmdq C U T) → SomeValid Inv q → Outcome (again now q)) where
    pub complete_slot-Outcome :
        (i : ℕ) (result : _) (status : ℕ) (ps : List ℕ) (len now : ℕ) (q : Cmdq C U T) {ns : List ℕ}
        → IsTaken q ns i
        → Inv q.pool q.user
        → Outcome (complete_slot d again i result status ps len now q)
    unfolding complete_slot
    complete_slot-Outcome i result status ps len now q v w = g now _ (k.settle_keeps i _ q _ v w)

    answer-Outcome :
        (o : Option ℕ) (opcode status : ℕ) (ps : List ℕ) (len now : ℕ) (q : Cmdq C U T)
        → q.outstanding ≡ o
        → SomeValid Inv q
        → Outcome (answer d again o opcode status ps len now q)
    answer-Outcome none opcode status ps len now q e v = g now q v
    answer-Outcome (some i) opcode status ps len now q e v =
        either-elim Outcome ((q.pool i).opcode == opcode) _ _
          (λ b.
            complete_slot-Outcome i complete status ps len now q (outstanding-IsTaken i q v.1 e)
              v.2)
          (λ b. g now q v)

    on_command_complete-Outcome :
        (now : ℕ) (p : Result CommandComplete × Reader) (q : Cmdq C U T)
        → SomeValid Inv q
        → Outcome (on_command_complete d again now p q)
    on_command_complete-Outcome now (err e, r) q v = here q v
    on_command_complete-Outcome now (ok cc, r) q v =
        answer-Outcome q.outstanding cc.command_opcode _ cc.return_params cc.return_params_len now
          (record q { command_credits = cc.num_hci_command_packets }) refl v

    on_command_status-Outcome :
        (now : ℕ) (p : Result CommandStatus × Reader) (q : Cmdq C U T)
        → SomeValid Inv q
        → Outcome (on_command_status d again now p q)
    on_command_status-Outcome now (err e, r) q v = here q v
    on_command_status-Outcome now (ok cs, r) q v =
        answer-Outcome q.outstanding cs.command_opcode cs.status [] 0 now
          (record q { command_credits = cs.num_hci_command_packets }) refl v

    on_header-Outcome :
        (now : ℕ) (p : Result EventHeader × Reader) (q : Cmdq C U T)
        → SomeValid Inv q
        → Outcome (on_header d again now p q)
    on_header-Outcome now (err e, r) q v = here q v
    on_header-Outcome now (ok hdr, r) q v =
        either-elim Outcome (hdr.event_code == event_command_complete) _ _
          (λ b. on_command_complete-Outcome now (parse_command_complete hdr.param_len r) q v)
          (λ b.
            either-elim Outcome (hdr.event_code == event_command_status) _ _
              (λ c. on_command_status-Outcome now (parse_command_status hdr.param_len r) q v)
              (λ c. here q v))

    pub on_event_with-Outcome :
        (bytes : List ℕ) (len now : ℕ) (q : Cmdq C U T)
        → SomeValid Inv q
        → Outcome (on_event_with d again bytes len now q)
    unfolding on_event_with
    on_event_with-Outcome bytes len now q v =
        on_header-Outcome now (parse_event_header (reader_init bytes len)) q v

  module _ (again : Pump C U T)
      (g : (now : ℕ) (q : Cmdq C U T) → SomeValid Inv q → EachValid Inv (again now q)) where
    received-EachValid :
        (bytes : List ℕ) (o : Option (Cmdq C U T))
        → EachValid Inv o
        → EachValid Inv (Option.map (d.receive bytes) o)
    received-EachValid bytes none v = tt
    received-EachValid bytes (some q) v = k.receive_keeps bytes q v

    deliver-EachValid :
        (es : List (List ℕ × ℕ)) (o : Option (Cmdq C U T))
        → EachValid Inv o
        → EachValid Inv (deliver d again es o)
    unfolding deliver
    deliver-EachValid [] o v = v
    deliver-EachValid (e ∷ es) none v = tt
    deliver-EachValid (e ∷ es) (some q) v = deliver-EachValid es _ (
        received-EachValid e.0 _
          (on_event_with-Outcome again (EachValid Inv) (λ r w. w) g e.0 (length e.0) e.1 q v))

    after_send-EachValid :
        (now i : ℕ) (accepted : Bool) (o : Option (Cmdq C U T))
        → EachValid Inv o
        → EachValid Inv (after_send d again now i accepted o)
    after_send-EachValid now i accepted none v = tt
    after_send-EachValid now i accepted (some q) v =
        either-elim (EachValid Inv) (not accepted && is_at q.outstanding i) _ _
          (λ b.
            let here = at-outstanding q.outstanding i (ground arith) in
            complete_slot-Outcome again (EachValid Inv) (λ r w. w) g i send_error 0xff [] 0 now _
              (outstanding-IsTaken i q v.1 here) v.2)
          (λ b. v)

    transmit-EachValid :
        (now i : ℕ) (p : Result (Unit {0}) × Writer) (q : Cmdq C U T) {ns : List ℕ}
        → IsTaken q ns i
        → Inv q.pool q.user
        → EachValid Inv (transmit d again now i p q)
    unfolding arm
    transmit-EachValid now i (err e, w) q v inv =
        complete_slot-Outcome again (EachValid Inv) (λ r w. w) g i send_error 0xff [] 0 now q v inv
    transmit-EachValid now i (ok u, w) q v inv =
        let sent = d.send_command q.transport _ in
        after_send-EachValid now i sent.accepted _
          (deliver-EachValid sent.events _ (_, arm-IsValid i now q v, inv))

    pub timeout_callback-EachValid :
        (i : ℕ) (q : Cmdq C U T) {ns : List ℕ}
        → IsTaken q ns i
        → Inv q.pool q.user
        → EachValid Inv (timeout_callback d again i q)
    unfolding timeout_callback
    timeout_callback-EachValid i q v inv =
        complete_slot-Outcome again (EachValid Inv) (λ r w. w) g i timeout 0xff [] 0 q.last_tick_us
          _ v inv

    pub launch-EachValid :
        (now i : ℕ) (q : Cmdq C U T) (ns : List ℕ)
        → IsValid q (i ∷ ns)
        → q.outstanding ≡ none
        → Inv q.pool q.user
        → EachValid Inv (launch d again now (pop q.pending) q)
    launch-EachValid now i q ns v e inv =
        subst (λ o. EachValid Inv (launch d again now (o, (pop q.pending).1) q))
          (sym (pop-Holds q.pending i ns v.waiting).0)
          (transmit-EachValid now i _ _ (pop-IsTaken i q v e) inv)

  pub pump-EachValid :
      (n now : ℕ) (q : Cmdq C U T) → SomeValid Inv q → EachValid Inv (pump d n now q)
  unfolding pump
  pump-EachValid zero now q v = tt
  pump-EachValid (suc n) now q (ns, v, inv) =
      either-elim (EachValid Inv) (must_wait q) _ _ (λ b. (ns, v, inv))
        (λ b.
          let (i, rest, e, idle) = ready q ns v b in
          launch-EachValid (pump d n) (pump-EachValid n) now i (advance now q) rest
            (subst (IsValid q) e v) idle inv)

  pub on_event-EachValid :
      (n : ℕ) (bytes : List ℕ) (len now : ℕ) (q : Cmdq C U T)
      → SomeValid Inv q
      → EachValid Inv (on_event d n bytes len now q)
  unfolding on_event
  on_event-EachValid n =
      on_event_with-Outcome (pump d n) (EachValid Inv) (λ r w. w) (pump-EachValid n)
