-- ===== src/Controller/Success.antt =====
-- core/controller/controller.c: the answers to the commands that bring the controller up.
use aros_bluzing.Prelude.{
  ℕ, suc, ◌≡◌, refl, ap, ap₂, ◌∙◌, ◌+◌, ◌*◌, ◌<◌, List, [], ◌∷◌, length, true, false, Option, none,
  some, ◌==◌, if◌then◌else◌, inr, arith,
}
use mathlib.Core.Option
use aros_bluzing.Endian.{IsByte}
use aros_bluzing.Buffer.{size_mod}
use aros_bluzing.Status.{is_ok}
use aros_bluzing.Queue.{is_empty, is_null}
use aros_bluzing.Queue.Chain.{is_empty_lem}
use aros_bluzing.CommandQueue.{
  Sent, Completion, complete, free_from, filled, enqueue, submit, max_pending,
}
use aros_bluzing.CommandQueue.Run.{
  release, call_back, pump, first_status, must_wait, is_at, event_command_complete,
}
use aros_bluzing.CommandQueue.Run
use aros_bluzing.CommandQueue.Invariant.{IsValid, cleared, outstanding-IsTaken, release-IsValid}
use aros_bluzing.CommandQueue.Submit.{free_from_first, enqueue-IsValid}
use aros_bluzing.CommandQueue.Exchange.{pump-on_air, command_bytes}
use aros_bluzing.CommandQueue.Answers.{answered, after_answer, complete_event, on_event_answers}
use aros_bluzing.Controller
use aros_bluzing.Controller.Discovery.{discover, on_params, on_event_header}
use aros_bluzing.Hci.{parse_event_header}
use aros_bluzing.Hci.Headers.{parse_event_header-Reads}
use aros_bluzing.Buffer.Reader.{reader_init, peek}
use aros_bluzing.Buffer.Reader.Refine.{reader_init-Views_all}
use aros_bluzing.Timer.Order.{member}
use aros_bluzing.Controller.State.{error, ControllerState, Callback, Host, Controller, set_state}
use aros_bluzing.Controller.Callbacks.{next_command, call}
use aros_bluzing.Controller.{driver}
use aros_bluzing.Controller.Stages.{NoneUsed}

-- The command with this opcode has completed.
abbrev pub finished : ℕ → ℕ → List ℕ → Completion
finished opcode status params = record {
  result = complete;
  opcode = opcode;
  status = status;
  return_params = params;
  return_params_len = length params;
}

-- The transport takes every command, and answers later.
abbrev pub TakesAll : {T : Type 0} → (T → List ℕ → Sent T) → Type 0
TakesAll send_command =
    (t : _) (bytes : List ℕ)
    → ((send_command t bytes).accepted ≡ true) × ((send_command t bytes).events ≡ [])

nothing_on :
    (len : ℕ) (params : Option (List ℕ)) (host : Host)
    → on_params event_command_complete len params host ≡ host
nothing_on len none host = refl
nothing_on len (some params) host = refl

module _ {T : Type 0} where
  -- The command of slot 0 is in flight, alone.
  pub record Waits (callback : Callback) (opcode : ℕ) (ctrl : Controller T) : Type 0 where
    pub valid : IsValid ctrl []
    pub flying : ctrl.outstanding ≡ some 0
    pub callback_is : (ctrl.pool 0).on_complete ≡ some callback
    pub opcode_is : (ctrl.pool 0).opcode ≡ opcode

  -- No command is queued, and one may be sent.
  pub record Rests (ctrl : Controller T) : Type 0 where
    pub valid : IsValid ctrl []
    pub none_used : NoneUsed ctrl.pool
    pub idle : ctrl.outstanding ≡ none
    pub credit : (ctrl.command_credits == 0) ≡ false

  module _ (send_command : T → List ℕ → Sent T) (takes : TakesAll send_command) where
    pub sent_next :
        (n now : ℕ) (opcode : ℕ) (callback : Callback) (ctrl : Controller T)
        → Rests ctrl
        → (after : Controller T) × (pump
              (driver send_command)
              (suc n)
              now
              (enqueue (some 0) (filled opcode [] 0 0 (some callback)) ctrl).1
            ≡ some after)
          × Waits callback opcode after
          × (after.user ≡ ctrl.user)
    unfolding Run.arm
    sent_next n now opcode callback ctrl r =
        let slot = filled opcode [] 0 0 (some callback) (ctrl.pool 0) in
        let queued = (enqueue (some 0) (filled opcode [] 0 0 (some callback)) ctrl).1 in
        let (_, v) = enqueue-IsValid 0 slot ctrl [] (omega arith) refl (r.none_used 0) r.valid in
        let not_empty : is_empty queued.pending ≡ false =
          is_empty_lem queued.pending (0 ∷ []) v.waiting in
        let nothing : is_null ctrl.outstanding ≡ true = ap is_null r.idle in
        let goes : must_wait queued ≡ false = ground arith in
        let (t, silent) = takes ctrl.transport (command_bytes slot) in
        let (e, w, f, _, _) =
          pump-on_air (driver send_command) n now 0 queued [] v goes (omega arith, omega arith) t
            silent in
        (_, e, record { valid = w; flying = f; callback_is = refl; opcode_is = refl }, refl)

    -- An answer to the command in flight, with status 0.
    answer_call :
        (n credits lo hi now : ℕ) (params : List ℕ) (callback : Callback) (ctrl : Controller T)
        → Waits callback (lo + 256 * hi) ctrl
        → IsByte lo
        → IsByte hi
        → length params + 6 < size_mod
        → Run.on_event
            (driver send_command)
            n
            (complete_event credits lo hi (0 ∷ params))
            (length (0 ∷ params) + 5)
            now
            ctrl
          ≡ pump (driver send_command) n now (
              call callback
                (finished (lo + 256 * hi) 0 (0 ∷ params))
                (release 0 (record ctrl { command_credits = credits })))
    answer_call n credits lo hi now params callback ctrl w hl hh small =
        let d = driver send_command in
        let q = record ctrl { command_credits = credits } in
        let ps = 0 ∷ params in
        let status = first_status ps (length ps) in
        let same : ((ctrl.pool 0).opcode == lo + 256 * hi) ≡ true =
          let e = w.opcode_is in ground arith in
        let zero_status : status ≡ 0 = ground arith in
        let x = λ (op st : ℕ). finished op st ps in
        (on_event_answers d n 0 credits lo hi now ps ctrl hl hh (omega arith)).0
        ∙ ap (λ o. pump d n now (after_answer d o (lo + 256 * hi) status ps q)) w.flying
        ∙ ap (λ b. pump d n now (elim b [ true ↦ answered d 0 status ps q | false ↦ q ])) same
        ∙ ap (λ c. pump d n now (call_back d c (x (ctrl.pool 0).opcode status) (release 0 q)))
            w.callback_is
        ∙ ap₂ (λ op st. pump d n now (call callback (x op st) (release 0 q))) w.opcode_is
            zero_status

    -- After it completed, the queue is empty again.
    pub released-Rests :
        (callback : Callback) (opcode credits : ℕ) (ctrl : Controller T)
        → (credits == 0) ≡ false
        → Waits callback opcode ctrl
        → Rests (release 0 (record ctrl { command_credits = credits }))
    unfolding release
    released-Rests callback opcode credits ctrl h w =
        let q = record ctrl { command_credits = credits } in
        let v = release-IsValid 0 q (outstanding-IsTaken 0 q w.valid w.flying) in
        let idle = cleared 0 ctrl.outstanding (inr w.flying) in
        record {
          valid = v;
          none_used = λ j. v.used j ∙ unfold member in ap (λ o. is_at o j) idle;
          idle = idle;
          credit = h;
        }

    pub next_sent :
        (n now opcode : ℕ) (s : ControllerState) (callback : Callback) (ctrl : Controller T)
        → Rests ctrl
        → (after : Controller T) × (pump
              (driver send_command)
              (suc n)
              now
              (next_command s opcode callback ctrl)
            ≡ some after)
          × Waits callback opcode after
          × (after.user ≡ (set_state s ctrl).user)
    unfolding submit
    next_sent n now opcode s callback ctrl r =
        let here = set_state s ctrl in
        let found : free_from ctrl.pool max_pending 0 ≡ some 0 =
          free_from_first ctrl.pool (r.none_used 0) in
        let fill = filled opcode [] 0 0 (some callback) in
        let (after, e, w, u) =
          sent_next n now opcode callback here (record {
            valid = r.valid;
            none_used = r.none_used;
            idle = r.idle;
            credit = r.credit;
          }) in
        (
          after,
          ap
                (λ o.
                  let (st, queued) = enqueue o fill here in
                  pump (driver send_command) (suc n) now
                    (if is_ok st then queued else set_state error queued))
                found
              ∙ e,
          w,
          u,
        )

    -- Discovery has nothing to do with a Command Complete event.
    discover_complete :
        (credits lo hi : ℕ) (params : List ℕ) (host : Host)
        → length params + 5 < size_mod
        → discover (complete_event credits lo hi params) (length params + 5) host ≡ host
    unfolding discover
    discover_complete credits lo hi params host small =
        let bytes = complete_event credits lo hi params in
        let start = reader_init bytes (length params + 5) in
        let views = reader_init-Views_all bytes {len = length params + 5} (omega arith) small in
        let (hdr, _) =
          parse_event_header-Reads event_command_complete (length params + 3)
            (credits ∷ lo ∷ hi ∷ params) (omega arith) start views in
        ap (λ p. on_event_header (p, (parse_event_header start).1) host) hdr
        ∙ nothing_on (length params + 3) (peek (parse_event_header start).1 (length params + 3))
            host

    -- One answered step: the callback runs, and what it submits is sent.
    pub answered_step :
        (n credits lo hi now : ℕ) (params : List ℕ) (callback : Callback)
        (ctrl after : Controller T)
        → Waits callback (lo + 256 * hi) ctrl
        → IsByte lo
        → IsByte hi
        → length params + 6 < size_mod
        → pump (driver send_command) n now (
            call callback
              (finished (lo + 256 * hi) 0 (0 ∷ params))
              (release 0 (record ctrl { command_credits = credits })))
          ≡ some after
        → Controller.on_event send_command n
            (complete_event credits lo hi (0 ∷ params))
            (length (0 ∷ params) + 5)
            now
            ctrl
          ≡ some after
    unfolding Controller.on_event
    answered_step n credits lo hi now params callback ctrl after w hl hh small e =
        let ps = 0 ∷ params in
        let see =
          λ (c : Controller T). discover (complete_event credits lo hi ps) (length ps + 5) c.user in
        ap (Option.map {A = Controller T} (λ c. record c { user = see c }))
          (answer_call n credits lo hi now params callback ctrl w hl hh small ∙ e)
        ∙ ap (λ u. some (record after { user = u }))
            (discover_complete credits lo hi ps after.user (omega arith))
