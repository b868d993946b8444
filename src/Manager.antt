-- ===== src/Manager.antt =====
-- core/manager/manager.c: opening the transport, starting the controller, and handing events on.
pub mod Lifecycle
use aros_bluzing.Prelude.{
  ℕ, List, [], ◌∷◌, Bool, true, false, Option, none, some, ◌==◌, not, ◌&&◌, ◌||◌, if◌then◌else◌,
  replicate,
}
use mathlib.Core.Option
use aros_bluzing.Status.{ok, err, invalid_argument, io, Status}
use aros_bluzing.CommandQueue.{Slot, Sent}
use aros_bluzing.Device.{zeroed, registry_max}
use aros_bluzing.Controller
use aros_bluzing.Controller.{controller_init}
use aros_bluzing.Controller.State.{
  ControllerState, uninitialized, error, Callback, zero_info, Controller as Bluetooth,
}

-- What a call of `start_receive` comes to: whether it returns 0, and the packets, each with its type
-- and its length, that it gives to the callback before it returns.
pub record Receiving (T : Type 0) : Type 0 where
  pub accepted : Bool
  pub packets : List (ℕ × List ℕ × ℕ)
  pub transport : T

-- The operations of the transport; a Boolean is whether the call returns 0. `open` is not given the
-- callback.
pub record TransportOps (T : Type 0) : Type 0 where
  pub open_transport : T → Bool × T
  pub start_receive : T → Receiving T
  pub stop_receive : T → T
  pub close : T → T
  pub send_command : T → List ℕ → Sent T

pub data ManagerState : Type 0 where
  stopped starting running failed : ManagerState

-- `attached` is that the transport and its operations are not null. The transport is that of the
-- controller.
pub record Manager (T : Type 0) : Type 0 where
  pub attached : Bool
  pub controller : Bluetooth T
  pub state : ManagerState

abbrev pub is_stopped : ManagerState → Bool
is_stopped stopped = true
is_stopped _ = false

abbrev pub is_running : ManagerState → Bool
is_running running = true
is_running _ = false

abbrev pub is_failed : ManagerState → Bool
is_failed failed = true
is_failed _ = false

abbrev pub is_error : ControllerState → Bool
is_error error = true
is_error _ = false

-- `BT_HCI_PACKET_EVENT`
abbrev pub packet_event : ℕ
packet_event = 1

abbrev pub zeroed_slot : Slot Callback
zeroed_slot = record {
  in_use = false;
  opcode = 0;
  params = replicate 255 0;
  params_len = 0;
  timeout_us = 0;
  on_complete = none;
}

module _ {T : Type 0} where
  -- The memory of a controller after `memset`, over the transport.
  abbrev pub zeroed_controller : T → Bluetooth T
  zeroed_controller transport = record {
    pool = λ i. zeroed_slot;
    pending = record { next = λ i. none; head = none; tail = none };
    outstanding = none;
    command_credits = 0;
    last_tick_us = 0;
    timers = record { order = []; expiry = λ i. 0; pending = λ i. false };
    user = record {
      state = uninitialized;
      info = zero_info;
      devices = record { count = 0; devices = replicate registry_max zeroed };
      inquiry_traced = 0;
      hooked = false;
      printed = [];
    };
    transport = transport;
  }

  unfoldable pub manager_init : Bool → T → Manager T → Manager T
  manager_init attached transport manager = record {
    attached = attached;
    controller =
        if attached
        then controller_init transport (zeroed_controller transport)
        else zeroed_controller transport;
    state = stopped;
  }

  abbrev pub with_transport : T → Bluetooth T → Bluetooth T
  with_transport transport ctrl = record ctrl { transport = transport }

module _ {T : Type 0} (ops : TransportOps T) where
  -- The state that a controller gives the manager that started it, and the result.
  abbrev pub settle : Bool → Bluetooth T → Manager T → Status × Manager T
  settle true ctrl manager = (err io, record manager { controller = ctrl; state = failed })
  settle false ctrl manager = (ok tt, record manager { controller = ctrl; state = running })

  abbrev pub controller_started :
      Option (Status × Bluetooth T) → Manager T → Option (Status × Manager T)
  controller_started none manager = none
  controller_started (some (err e, ctrl)) manager = some (
    err e,
    record manager {
      controller = with_transport (ops.close (ops.stop_receive ctrl.transport)) ctrl;
      state = failed;
    },
  )
  controller_started (some (ok _, ctrl)) manager =
      some (settle (is_error ctrl.user.state) ctrl manager)

  unfoldable pub manager_receive : ℕ → ℕ → List ℕ → ℕ → Manager T → Option (Manager T)
  manager_receive n type bytes len manager =
      if is_stopped manager.state || is_failed manager.state
      then some manager
      else if type == packet_event
      then Option.map {A = Bluetooth T} (λ ctrl. record manager { controller = ctrl })
          (Controller.on_event ops.send_command n bytes len manager.controller.last_tick_us
            manager.controller)
      else some manager

  -- The packets that come during a call, one after the other.
  unfoldable pub deliver : ℕ → List (ℕ × List ℕ × ℕ) → Manager T → Option (Manager T)
  deliver n [] manager = some manager
  deliver n ((type, bytes, len) ∷ packets) manager =
      Option.bind (manager_receive n type bytes len manager) (deliver n packets)

  -- After `start_receive`.
  abbrev pub receiving : ℕ → ℕ → Bool → Option (Manager T) → Option (Status × Manager T)
  receiving n now_us accepted none = none
  receiving n now_us false (some manager) = some (
    err io,
    record manager {
      controller = with_transport (ops.close manager.controller.transport) manager.controller;
      state = failed;
    },
  )
  receiving n now_us true (some manager) =
      controller_started (Controller.start ops.send_command n now_us manager.controller) manager

  abbrev pub opened : ℕ → ℕ → Bool × T → Manager T → Option (Status × Manager T)
  opened n now_us (false, transport) manager = some (
    err io,
    record manager { controller = with_transport transport manager.controller; state = failed },
  )
  opened n now_us (true, transport) manager =
      let call = ops.start_receive transport in
      receiving n now_us call.accepted (
        deliver n call.packets
          (record manager { controller = with_transport call.transport manager.controller }))

  unfoldable pub manager_start : ℕ → ℕ → Manager T → Option (Status × Manager T)
  manager_start n now_us manager =
      if not manager.attached || not (is_stopped manager.state)
      then some (err invalid_argument, manager)
      else opened n now_us (ops.open_transport manager.controller.transport)
          (record manager { state = starting })

  abbrev pub ticked : Manager T → Bluetooth T → Manager T
  ticked manager ctrl = record manager {
    controller = ctrl;
    state = if is_error ctrl.user.state then failed else manager.state;
  }

  unfoldable pub manager_tick : ℕ → ℕ → Manager T → Option (Manager T)
  manager_tick n now_us manager =
      if not (is_running manager.state)
      then some manager
      else Option.map (ticked manager)
          (Controller.tick ops.send_command n now_us manager.controller)

  unfoldable pub manager_stop : Manager T → Manager T
  manager_stop manager =
      if not manager.attached || is_stopped manager.state then manager else record manager {
        controller =
            controller_init (ops.close (ops.stop_receive manager.controller.transport))
              manager.controller;
        state = stopped;
      }
