-- ===== src/Controller/Returning.antt =====
-- core/controller/controller.c: events and ticks over a transport that does not call back.
use aros_bluzing.Prelude.{ℕ, ◌≡◌, ◌≢◌, refl, ap, ◌<◌, List, [], Bool, true, false, ◌==◌, ◌&&◌, some}
use mathlib.Core.Option
use aros_bluzing.CommandQueue.{
  CmdqResult, complete, timeout, send_error, Completion, Sent, max_pending,
}
use aros_bluzing.CommandQueue.Invariant.{IsValid}
use aros_bluzing.CommandQueue.Load.{Quiet}
use aros_bluzing.CommandQueue.Termination.{calls-ReturnsIn}
use aros_bluzing.Controller.State.{
  ControllerState, Callback, reset_complete, version_complete, features_complete,
  buffer_size_complete, ignore_completion, Controller as Bluetooth, set_state, error,
}
use aros_bluzing.Controller.Callbacks.{
  is_complete, succeeded, call, on_reset_complete, on_version_complete, on_features_complete,
  on_buffer_size_complete,
}
use aros_bluzing.Controller.{driver, on_event, tick}
use aros_bluzing.Controller.Discovery.{discover}
use aros_bluzing.Controller.Stages.{Staged}
use aros_bluzing.Controller.BringUp.{Good}
use aros_bluzing.Controller.Operations.{driver-Keeps}

not_succeeded : (x : Completion) → x.result ≢ complete → succeeded x ≡ false
not_succeeded x h = by_result x.result refl h (x.status == 0)
  where
    by_result :
        (r : CmdqResult)
        → x.result ≡ r
        → x.result ≢ complete
        → (b : Bool) → (is_complete x.result && b) ≡ false
    by_result complete e h b = absurd (h e)
    by_result timeout e h b = ap (λ r. is_complete r && b) e
    by_result send_error e h b = ap (λ r. is_complete r && b) e

module _ {T : Type 0} where
  -- A callback that is told of a failure changes the state at most.
  abbrev Patient : Bluetooth T → List ℕ → Bluetooth T → Type 0
  Patient q ns after = IsValid after ns × (after.outstanding ≡ q.outstanding)

  elim-Patient :
      (q change : Bluetooth T) (ns : List ℕ) (b : Bool)
      → b ≡ false
      → IsValid q ns
      → Patient q ns (elim b [ false ↦ set_state error q | true ↦ change ])
  elim-Patient q change ns true e v = absurd (cc)
  elim-Patient q change ns false e v = (v, refl)

  call-Patient :
      (c : Callback) (x : Completion) (q : Bluetooth T) (ns : List ℕ)
      → x.result ≢ complete
      → IsValid q ns
      → Patient q ns (call c x q)
  unfolding on_reset_complete on_version_complete on_features_complete on_buffer_size_complete
  call-Patient reset_complete x q ns h v = elim-Patient q _ ns (succeeded x) (not_succeeded x h) v
  call-Patient version_complete x q ns h v = elim-Patient q _ ns (succeeded x) (not_succeeded x h) v
  call-Patient features_complete x q ns h v =
      elim-Patient q _ ns (succeeded x) (not_succeeded x h) v
  call-Patient buffer_size_complete x q ns h v =
      elim-Patient q _ ns (succeeded x) (not_succeeded x h) v
  call-Patient ignore_completion x q ns h v = (v, refl)

  module _ (send_command : T → List ℕ → Sent T)
      (silent : (t : T) (bytes : List ℕ) → (send_command t bytes).events ≡ []) where
    driver-Quiet : Quiet (driver send_command)
    driver-Quiet = record { silent = silent; patient = call-Patient }

    -- Over a transport that does not call back while it sends, every event and every tick is processed
    -- within five levels of nesting, and the call returns.
    pub events_return :
        (n now len : ℕ) (bytes : List ℕ) (origin : ControllerState) (ctrl : Bluetooth T)
        → max_pending < n
        → Good origin ctrl
        → ((after : Bluetooth T) × (on_event send_command n bytes len now ctrl ≡ some after))
          × ((after : Bluetooth T) × (tick send_command n now ctrl ≡ some after))
    unfolding on_event tick
    events_return n now len bytes origin ctrl h g =
        let (_, e, t) =
          calls-ReturnsIn (Staged origin) (driver send_command) (driver-Keeps send_command origin)
            driver-Quiet n now bytes len ctrl h g in
        let seen = λ (c : Bluetooth T). record c { user = discover bytes len c.user } in
        ((seen e.queue, ap (Option.map {A = Bluetooth T} seen) e.returned), (t.queue, t.returned))
