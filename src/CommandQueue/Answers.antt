-- ===== src/CommandQueue/Answers.antt =====
-- core/controller/command_queue.c: the answers of the controller.
use aros_bluzing.Prelude.{
  ℕ, ◌≡◌, refl, sym, ap, ◌∙◌, ◌+◌, ◌*◌, ◌<◌, List, [], ◌∷◌, append-nil, length, Option, none, some,
  Bool, true, false, ◌==◌, arith,
}
use mathlib.Core.Path.{subst}
use aros_bluzing.Endian.{IsByte}
use aros_bluzing.Buffer.{size_mod}
use aros_bluzing.Buffer.Reader.{reader_init}
use aros_bluzing.Buffer.Reader.Refine.{Views, reader_init-Views_all}
use aros_bluzing.Hci.{parse_event_header, parse_command_complete, parse_command_status}
use aros_bluzing.Hci.Headers.{
  parse_event_header-Reads, parse_command_complete-Reads, parse_command_status-Reads,
}
use aros_bluzing.CommandQueue.{complete, Cmdq, Driver}
use aros_bluzing.CommandQueue.Run.{
  release, call_back, complete_slot, answer, on_command_complete, on_command_status, on_header,
  on_event_with, pump, on_event, first_status, event_command_complete, event_command_status,
}

abbrev pub complete_event : ℕ → ℕ → ℕ → List ℕ → List ℕ
complete_event credits lo hi params =
    event_command_complete ∷ (length params + 3) ∷ credits ∷ lo ∷ hi ∷ params

abbrev pub status_event : ℕ → ℕ → ℕ → ℕ → List ℕ
status_event status credits lo hi = event_command_status ∷ 4 ∷ status ∷ credits ∷ lo ∷ hi ∷ []

module _ {C U T : Type 0} (d : Driver C U T) where
  -- The command in slot `i` is completed by the answer of the controller: its slot is free, its
  -- timer off, and its callback is called once.
  abbrev pub answered : ℕ → ℕ → List ℕ → Cmdq C U T → Cmdq C U T
  answered i status params q =
      call_back d (q.pool i).on_complete
        (record {
          result = complete;
          opcode = (q.pool i).opcode;
          status = status;
          return_params = params;
          return_params_len = length params;
        })
        (release i q)

  -- What becomes of the queue for an answer to `opcode`, before it is pumped.
  abbrev pub after_answer : Option ℕ → ℕ → ℕ → List ℕ → Cmdq C U T → Cmdq C U T
  after_answer none opcode status params q = q
  after_answer (some i) opcode status params q = elim ((q.pool i).opcode == opcode) [
    | true ↦ answered i status params q
    | false ↦ q
  ]

  by_test :
      (again : ℕ → Cmdq C U T → Option (Cmdq C U T)) (i : ℕ) (b : Bool) (status : ℕ)
      (params : List ℕ) (now : ℕ) (q : Cmdq C U T)
      → (elim b [
        | true ↦ complete_slot d again i complete status params (length params) now q
        | false ↦ again now q
      ])
        ≡ again now (elim b [ true ↦ answered i status params q | false ↦ q ])
  unfolding complete_slot
  by_test again i true status params now q = refl
  by_test again i false status params now q = refl

  answer_lem :
      (again : ℕ → Cmdq C U T → Option (Cmdq C U T)) (o : Option ℕ) (opcode status : ℕ)
      (params : List ℕ) (now : ℕ) (q : Cmdq C U T)
      → answer d again o opcode status params (length params) now q
        ≡ again now (after_answer o opcode status params q)
  unfolding complete_slot
  answer_lem again none opcode status params now q = refl
  answer_lem again (some i) opcode status params now q =
      by_test again i ((q.pool i).opcode == opcode) status params now q

  on_complete_event :
      (n credits lo hi : ℕ) (params : List ℕ) (now : ℕ) (q : Cmdq C U T)
      → IsByte lo
      → IsByte hi
      → length params + 5 < size_mod
      → on_event d n (complete_event credits lo hi params) (length params + 5) now q
        ≡ pump d n now (
            after_answer q.outstanding
              (lo + 256 * hi)
              (first_status params (length params))
              params
              (record q { command_credits = credits }))
  unfolding on_event on_event_with
  on_complete_event n credits lo hi params now q hl hh small =
      let bytes = complete_event credits lo hi params in
      let start = reader_init bytes (length params + 5) in
      let views = reader_init-Views_all bytes {len = length params + 5} (omega arith) small in
      let (hdr, rest) =
        parse_event_header-Reads event_command_complete (length params + 3)
          (credits ∷ lo ∷ hi ∷ params) (omega arith) start views in
      let r = (parse_event_header start).1 in
      let (cc, _) =
        parse_command_complete-Reads credits lo hi params [] hl hh r
          (subst (λ l. Views r (credits ∷ lo ∷ hi ∷ l)) (sym (append-nil params)) rest) in
      ap (λ p. on_header d (pump d n) now (p, r) q) hdr
      ∙ ap
          (λ p.
            on_command_complete d (pump d n) now
              (p, (parse_command_complete (length params + 3) r).1) q)
          cc
      ∙ answer_lem (pump d n) q.outstanding (lo + 256 * hi) (first_status params (length params))
          params now (record q { command_credits = credits })

  on_status_event :
      (n status credits lo hi now : ℕ) (q : Cmdq C U T)
      → IsByte lo
      → IsByte hi
      → on_event d n (status_event status credits lo hi) 6 now q
        ≡ pump d n now (
            after_answer q.outstanding
              (lo + 256 * hi)
              status
              []
              (record q { command_credits = credits }))
  unfolding on_event on_event_with
  on_status_event n status credits lo hi now q hl hh =
      let start = reader_init (status_event status credits lo hi) 6 in
      let views =
        reader_init-Views_all (status_event status credits lo hi) {len = 6} refl (omega arith) in
      let (hdr, rest) =
        parse_event_header-Reads event_command_status 4 (status ∷ credits ∷ lo ∷ hi ∷ [])
          (omega arith) start views in
      let r = (parse_event_header start).1 in
      let (cs, _) = parse_command_status-Reads status credits lo hi [] hl hh r rest in
      ap (λ p. on_header d (pump d n) now (p, r) q) hdr
      ∙ ap (λ p. on_command_status d (pump d n) now (p, (parse_command_status 4 r).1) q) cs
      ∙ answer_lem (pump d n) q.outstanding (lo + 256 * hi) status [] now
          (record q { command_credits = credits })

  -- A Command Complete or a Command Status event, as it is on the wire, sets the credits. If it is
  -- for the opcode of the command in flight, that command is completed, whatever the status, with
  -- the status and the return parameters of the event, and if not, nothing is completed. Either way
  -- the queue is then pumped.
  pub on_event_answers :
      (n status credits lo hi now : ℕ) (params : List ℕ) (q : Cmdq C U T)
      → IsByte lo
      → IsByte hi
      → length params + 5 < size_mod
      → (on_event d n (complete_event credits lo hi params) (length params + 5) now q
          ≡ pump d n now (
              after_answer q.outstanding
                (lo + 256 * hi)
                (first_status params (length params))
                params
                (record q { command_credits = credits })))
        × (on_event d n (status_event status credits lo hi) 6 now q
            ≡ pump d n now (
                after_answer q.outstanding
                  (lo + 256 * hi)
                  status
                  []
                  (record q { command_credits = credits })))
  on_event_answers n status credits lo hi now params q hl hh small = (
    on_complete_event n credits lo hi params now q hl hh small,
    on_status_event n status credits lo hi now q hl hh,
  )
