-- ===== src/Controller/Operations.antt =====
-- core/controller/controller.c: every operation of the controller against the diagram of its states.
use aros_bluzing.Prelude.{
  ℕ, ◌≡◌, refl, sym, List, [], ◌∷◌, ◌++◌, length, Bool, true, false, Option, none, some, not,
  if◌then◌else◌, Option-cases, inl, inr, arith,
}
use mathlib.Core.Path.{subst}
use mathlib.Core.Option
use aros_bluzing.Status.{ok, err, invalid_argument, Status, bind}
use aros_bluzing.CommandQueue.{Sent, free_from, filled, enqueue, submit, cmdq_init, max_pending}
use aros_bluzing.CommandQueue.Run
use aros_bluzing.Timer.{update, list_init}
use aros_bluzing.CommandQueue.Start.{IsBlank, cmdq_init-IsValid, cmdq_init-used}
use aros_bluzing.CommandQueue.Preserve.{Keeps, pump-EachValid, on_event-EachValid}
use aros_bluzing.CommandQueue.Timeouts.{tick-EachValid}
use aros_bluzing.CommandQueue.Submit.{
  free_from_first, FirstFree, free_from-FirstFree, enqueue-IsValid,
}
use aros_bluzing.Controller.State.{
  ControllerState, uninitialized, resetting, reading_version, reading_features, reading_buffer_size,
  ready, error, reset_complete, ignore_completion, Controller, is_ready, is_uninitialized,
}
use aros_bluzing.Controller.Discovery.{discover}
use aros_bluzing.Controller.{
  controller_init, driver, pump_then, reset_sent, start, on_event, tick, submit_built,
  start_classic_inquiry, start_le_scan, stop_le_scan, opcode_reset,
}
use aros_bluzing.Controller.Stages.{
  here, ◌⟶*◌, later, start_reset, NoneUsed, Stage, Staged, filled-OneUsed, filled-AllIgnored,
}
use aros_bluzing.Controller.BringUp.{Good, settle_in}
use aros_bluzing.Controller.Untouched.{discover-state}

module _ {T : Type 0} (send_command : T → List ℕ → Sent T) (origin : ControllerState) where
  discover-Good :
      (bytes : List ℕ) (len : ℕ) (ctrl : Controller T)
      → Good origin ctrl
      → Good origin (record ctrl { user = discover bytes len ctrl.user })
  discover-Good bytes len ctrl (ns, v, (stage, r)) =
      let e = sym (discover-state bytes len ctrl.user) in
      (ns, v, (subst (λ s. Stage s ctrl.pool) e stage, subst (λ s. origin ⟶* s) e r))

  pub driver-Keeps : Keeps (Staged origin) (driver send_command)
  driver-Keeps = record {
    settle_keeps =
        λ i x q ns v s. settle_in origin send_command i x q ns v q.user.state refl (s.0) (s.1);
    receive_keeps = λ bytes q v. discover-Good bytes (length bytes) q v;
  }

  abbrev pub EachGood : Option (Controller T) → Type 0
  EachGood none = Unit
  EachGood (some ctrl) = Good origin ctrl

  abbrev pub EachGoodWith : Option (Status × Controller T) → Type 0
  EachGoodWith none = Unit
  EachGoodWith (some (st, ctrl)) = Good origin ctrl

  with_status :
      (o : Option (Controller T))
      → EachGood o
      → EachGoodWith (Option.map (λ after. (ok tt, after)) o)
  with_status none g = tt
  with_status (some ctrl) g = g

  pump_then-Good :
      (n now : ℕ) (p : Status × Controller T)
      → Good origin p.1
      → EachGoodWith (pump_then send_command n now p)
  pump_then-Good n now (err e, ctrl) g = g
  pump_then-Good n now (ok u, ctrl) g =
      with_status (Run.pump (driver send_command) n now ctrl)
        (pump-EachValid (Staged origin) (driver send_command) driver-Keeps n now ctrl g)

  -- A command of the discovery may be submitted when the controller is ready.
  submit-Good :
      (opcode : ℕ) (params : List ℕ) (len : ℕ) (ctrl : Controller T)
      → ctrl.user.state ≡ ready
      → Good origin ctrl
      → Good origin (submit opcode params len 0 (some ignore_completion) ctrl).1
        × ((submit opcode params len 0 (some ignore_completion) ctrl).1.user.state ≡ ready)
  unfolding submit
  submit-Good opcode params len ctrl e (ns, v, (stage, r)) =
      let all = subst (λ s. Stage s ctrl.pool) e stage in
      let found = free_from-FirstFree ctrl.pool max_pending 0 in
      elim (Option-cases (free_from ctrl.pool max_pending 0)) [
        | inl f ↦ rw f ((ns, v, (stage, r)), e)
        | inr (i, f) ↦
            let (a, b, free, before) = subst (FirstFree ctrl.pool max_pending 0) f found in
            let slot = filled opcode params len 0 (some ignore_completion) (ctrl.pool i) in
            let filled_all = filled-AllIgnored ctrl.pool i slot refl all in
            rw f (
              (
                ns ++ (i ∷ []),
                (enqueue-IsValid i slot ctrl ns (omega arith) refl free v).1,
                (subst (λ s. Stage s (update ctrl.pool i slot)) (sym e) filled_all, r),
              ),
              e,
            )
      ]

  pump_built-Good :
      (n now opcode : ℕ) (params : List ℕ × ℕ) (p : Status × Controller T)
      → p.1.user.state ≡ ready
      → Good origin p.1
      → EachGoodWith
          (pump_then send_command n now (bind p (λ _. submit_built send_command opcode params)))
  pump_built-Good n now opcode params (err e, ctrl) r g = g
  pump_built-Good n now opcode (params, len) (ok u, ctrl) r g =
      pump_then-Good n now (submit opcode params len 0 (some ignore_completion) ctrl)
        (submit-Good opcode params len ctrl r g).0

is_ready-eq : (s : ControllerState) → is_ready s ≡ true → s ≡ ready
is_ready-eq ready e = refl
is_ready-eq uninitialized e = absurd (cc)
is_ready-eq resetting e = absurd (cc)
is_ready-eq reading_version e = absurd (cc)
is_ready-eq reading_features e = absurd (cc)
is_ready-eq reading_buffer_size e = absurd (cc)
is_ready-eq error e = absurd (cc)

is_uninitialized-eq : (s : ControllerState) → is_uninitialized s ≡ true → s ≡ uninitialized
is_uninitialized-eq uninitialized e = refl
is_uninitialized-eq ready e = absurd (cc)
is_uninitialized-eq resetting e = absurd (cc)
is_uninitialized-eq reading_version e = absurd (cc)
is_uninitialized-eq reading_features e = absurd (cc)
is_uninitialized-eq reading_buffer_size e = absurd (cc)
is_uninitialized-eq error e = absurd (cc)

module _ {T : Type 0} (send_command : T → List ℕ → Sent T) (origin : ControllerState) where
  -- An operation that is refused unless a test holds.
  guarded :
      (b : Bool) (ctrl : Controller T) (o : Option (Status × Controller T))
      → Good origin ctrl
      → (b ≡ true → EachGoodWith send_command origin o)
      → EachGoodWith send_command origin (if not b then some (err invalid_argument, ctrl) else o)
  guarded true ctrl o g f = f refl
  guarded false ctrl o g f = g

  inquiry-Good :
      (n len now : ℕ) (ctrl : Controller T)
      → Good origin ctrl
      → EachGoodWith send_command origin (start_classic_inquiry send_command n len now ctrl)
  unfolding start_classic_inquiry
  inquiry-Good n len now ctrl g = guarded (is_ready ctrl.user.state) ctrl _ g λ e.
      let (after, still) =
        submit-Good send_command origin _ (2 ∷ []) 1 ctrl (is_ready-eq ctrl.user.state e) g in
      pump_built-Good send_command origin n now _ _ _ still after

  start_le_scan-Good :
      (n now : ℕ) (ctrl : Controller T)
      → Good origin ctrl
      → EachGoodWith send_command origin (start_le_scan send_command n now ctrl)
  unfolding start_le_scan
  start_le_scan-Good n now ctrl g = guarded (is_ready ctrl.user.state) ctrl _ g λ e.
      let (after, still) =
        submit-Good send_command origin _ _ _ ctrl (is_ready-eq ctrl.user.state e) g in
      pump_built-Good send_command origin n now _ _ _ still after

  stop_le_scan-Good :
      (n now : ℕ) (ctrl : Controller T)
      → Good origin ctrl
      → EachGoodWith send_command origin (stop_le_scan send_command n now ctrl)
  unfolding stop_le_scan
  stop_le_scan-Good n now ctrl g = guarded (is_ready ctrl.user.state) ctrl _ g λ e.
      pump_then-Good send_command origin n now _
        (submit-Good send_command origin _ _ _ ctrl (is_ready-eq ctrl.user.state e) g).0

  start-Good :
      (n now : ℕ) (ctrl : Controller T)
      → Good origin ctrl
      → EachGoodWith send_command origin (start send_command n now ctrl)
  unfolding start submit
  start-Good n now ctrl (ns, v, (stage, r)) =
      guarded (is_uninitialized ctrl.user.state) ctrl _ (ns, v, (stage, r))
        λ e.
          let here = is_uninitialized-eq ctrl.user.state e in
          let none_used : NoneUsed ctrl.pool = subst (λ s. Stage s ctrl.pool) here stage in
          let found : free_from ctrl.pool max_pending 0 ≡ some 0 =
            free_from_first ctrl.pool (none_used 0) in
          let fill = filled opcode_reset [] 0 0 (some reset_complete) in
          let slot = fill (ctrl.pool 0) in
          subst
            (λ o.
              EachGoodWith send_command origin
                (pump_then send_command n now (reset_sent send_command (enqueue o fill ctrl))))
            (sym found)
            (pump_then-Good send_command origin n now
              (reset_sent send_command (enqueue (some 0) fill ctrl))
              (
                ns ++ (0 ∷ []),
                (enqueue-IsValid 0 slot ctrl ns (omega arith) refl (none_used 0) v).1,
                (
                  filled-OneUsed reset_complete ctrl.pool 0 slot refl refl none_used,
                  later (subst (λ s. origin ⟶* s) here r) start_reset,
                ),
              ))

  after_event :
      (bytes : List ℕ) (len : ℕ) (o : Option (Controller T))
      → EachGood send_command origin o
      → EachGood send_command origin (
          Option.map {A = Controller T}
            (λ after. record after { user = discover bytes len after.user })
            o)
  after_event bytes len none g = tt
  after_event bytes len (some ctrl) g = discover-Good send_command origin bytes len ctrl g

  on_event-Good :
      (n : ℕ) (bytes : List ℕ) (len now : ℕ) (ctrl : Controller T)
      → Good origin ctrl
      → EachGood send_command origin (on_event send_command n bytes len now ctrl)
  unfolding on_event
  on_event-Good n bytes len now ctrl g =
      after_event bytes len (Run.on_event (driver send_command) n bytes len now ctrl) (
        on_event-EachValid (Staged origin) (driver send_command) (driver-Keeps send_command origin)
          n bytes len now ctrl g)

  -- In every run of the controller, over whatever transport, the state only moves along the diagram;
  -- while it is brought up the queue holds exactly one command, the one that the state waits for, no
  -- command is left once it gave up, and when it is ready all commands are those of the discovery.
  -- Starting, events, ticks and every discovery call keep this.
  pub operations-Good :
      (n now len inquiry_length : ℕ) (bytes : List ℕ) (ctrl : Controller T)
      → Good origin ctrl
      → EachGoodWith send_command origin (start send_command n now ctrl)
        × EachGood send_command origin (on_event send_command n bytes len now ctrl)
        × EachGood send_command origin (tick send_command n now ctrl)
        × EachGoodWith send_command origin
            (start_classic_inquiry send_command n inquiry_length now ctrl)
        × EachGoodWith send_command origin (start_le_scan send_command n now ctrl)
        × EachGoodWith send_command origin (stop_le_scan send_command n now ctrl)
  unfolding tick
  operations-Good n now len inquiry_length bytes ctrl g = (
    start-Good n now ctrl g,
    on_event-Good n bytes len now ctrl g,
    tick-EachValid (Staged origin) (driver send_command) (driver-Keeps send_command origin) n now
        ctrl g,
    inquiry-Good n inquiry_length now ctrl g,
    start_le_scan-Good n now ctrl g,
    stop_le_scan-Good n now ctrl g,
  )

-- An initialized controller has not started and queues nothing.
pub controller_init-Good :
    {T : Type 0} (transport : T) (ctrl : Controller T)
    → IsBlank (record ctrl { timers = list_init ctrl.timers })
    → Good uninitialized (controller_init transport ctrl)
unfolding controller_init cmdq_init
controller_init-Good transport ctrl b =
    let q = record ctrl {
      transport = transport;
      timers = list_init ctrl.timers;
      user = (controller_init transport ctrl).user;
    } in
    let blank : IsBlank q = record {
      no_slot = b.no_slot;
      no_timer = b.no_timer;
      empty_list = b.empty_list;
    } in
    ([], cmdq_init-IsValid q blank, (cmdq_init-used q blank, here))
