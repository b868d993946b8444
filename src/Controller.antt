-- ===== src/Controller.antt =====
-- core/controller/controller.c: bringing the controller up, and discovery. The controller owns the
-- command queue, so its state is that of a queue whose callbacks are the controller's own.
pub mod Discovery
pub mod State
pub mod Callbacks
pub mod Stages
pub mod BringUp
pub mod Untouched
pub mod Operations
pub mod Returning
pub mod Success
pub mod Liveness
use aros_bluzing.Prelude.{
  ℕ, List, [], ◌∷◌, Bool, true, false, Option, none, some, ◌==◌, not, ◌&&◌, if◌then◌else◌,
  replicate, take, length, ◌%◌,
}
use mathlib.Core.Option
use aros_bluzing.Status.{ok, err, invalid_argument, Result, Status, Action, is_ok, ◌>>◌}
use aros_bluzing.Buffer.Writer.{Writer, writer_init, writer_len, write_u8, write_le16, write_le24}
use aros_bluzing.Hci.Info.{
  parse_local_version, parse_local_features, parse_buffer_size, LocalVersion, LocalFeatures,
  BufferSize,
}
use aros_bluzing.CommandQueue.{
  Completion, CmdqResult, complete, timeout, send_error, Cmdq, Sent, Driver, submit, cmdq_init,
}
use aros_bluzing.CommandQueue.Run
use aros_bluzing.Device.{registry_init}
use aros_bluzing.Timer.{list_init}
use aros_bluzing.Controller.State.{
  ControllerState, uninitialized, resetting, reading_version, reading_features, reading_buffer_size,
  ready, error, is_uninitialized, is_ready, Callback, reset_complete, version_complete,
  features_complete, buffer_size_complete, ignore_completion, Host, Controller, zero_info,
  set_state,
}
use aros_bluzing.Controller.Callbacks.{call}
use aros_bluzing.Controller.Discovery.{discover}

abbrev pub opcode_reset : ℕ
opcode_reset = 0x0c03

abbrev pub opcode_write_inquiry_mode : ℕ
opcode_write_inquiry_mode = 0x0c45

abbrev pub opcode_inquiry : ℕ
opcode_inquiry = 0x0401

abbrev pub opcode_le_set_scan_parameters : ℕ
opcode_le_set_scan_parameters = 0x200b

abbrev pub opcode_le_set_scan_enable : ℕ
opcode_le_set_scan_enable = 0x200c

module _ {T : Type 0} where
  unfoldable pub controller_init : T → Controller T → Controller T
  controller_init transport ctrl = cmdq_init (record ctrl {
    transport = transport;
    timers = list_init ctrl.timers;
    user = record ctrl.user {
      state = uninitialized;
      info = zero_info;
      devices = registry_init ctrl.user.devices;
    };
  })

-- `send_command` of the transport, the callbacks of the controller, and its receiver of events.
abbrev pub driver : {T : Type 0} → (T → List ℕ → Sent T) → Driver Callback Host T
driver send_command = record {
  send_command = send_command;
  call = call;
  receive = λ bytes ctrl. record ctrl { user = discover bytes (length bytes) ctrl.user };
}

module _ {T : Type 0} (send_command : T → List ℕ → Sent T) where
  abbrev pub pump_then : ℕ → ℕ → Status × Controller T → Option (Status × Controller T)
  pump_then n now_us (err e, ctrl) = some (err e, ctrl)
  pump_then n now_us (ok _, ctrl) =
      Option.map (λ after. (ok tt, after)) (Run.pump (driver send_command) n now_us ctrl)

  abbrev pub reset_sent : Status × Controller T → Status × Controller T
  reset_sent (err e, ctrl) = (err e, ctrl)
  reset_sent (ok _, ctrl) = (ok tt, set_state resetting ctrl)

  unfoldable pub start : ℕ → ℕ → Controller T → Option (Status × Controller T)
  start n now_us ctrl =
      if not (is_uninitialized ctrl.user.state)
      then some (err invalid_argument, ctrl)
      else pump_then n now_us (reset_sent (submit opcode_reset [] 0 0 (some reset_complete) ctrl))

  unfoldable pub on_event : ℕ → List ℕ → ℕ → ℕ → Controller T → Option (Controller T)
  on_event n bytes len now_us ctrl =
      Option.map {A = Controller T} (λ after. record after { user = discover bytes len after.user })
        (Run.on_event (driver send_command) n bytes len now_us ctrl)

  unfoldable pub tick : ℕ → ℕ → Controller T → Option (Controller T)
  tick = Run.tick (driver send_command)

  -- Parameters built in a buffer of `cap` bytes.
  abbrev pub built : ℕ → Action Writer (Unit {0}) → List ℕ × ℕ
  built cap write =
      let w = (write (writer_init (replicate cap 0) cap)).1 in
      (take (writer_len w) w.bytes, writer_len w % 256)

  abbrev pub submit_built : ℕ → List ℕ × ℕ → Action (Controller T) (Unit {0})
  submit_built opcode (params, len) = submit opcode params len 0 (some ignore_completion)

  abbrev pub inquiry_params : ℕ → Action Writer (Unit {0})
  inquiry_params inquiry_length = do write_le24 0x9e8b33; write_u8 inquiry_length; write_u8 0

  unfoldable pub start_classic_inquiry : ℕ → ℕ → ℕ → Controller T → Option (Status × Controller T)
  start_classic_inquiry n inquiry_length now_us ctrl =
      if not (is_ready ctrl.user.state)
      then some (err invalid_argument, ctrl)
      else pump_then n now_us (
          (submit opcode_write_inquiry_mode (2 ∷ []) 1 0 (some ignore_completion)
              >> submit_built opcode_inquiry (built 5 (inquiry_params inquiry_length)))
            ctrl)

  abbrev pub scan_params : Action Writer (Unit {0})
  scan_params = do write_u8 0x00; write_le16 0x0010; write_le16 0x0010; write_u8 0x00; write_u8 0x00

  -- Scanning on or off, and whether duplicates are filtered.
  abbrev pub scan_enable : ℕ → ℕ → Action Writer (Unit {0})
  scan_enable enable filter = do write_u8 enable; write_u8 filter

  unfoldable pub start_le_scan : ℕ → ℕ → Controller T → Option (Status × Controller T)
  start_le_scan n now_us ctrl =
      if not (is_ready ctrl.user.state)
      then some (err invalid_argument, ctrl)
      else pump_then n now_us (
          (submit_built opcode_le_set_scan_parameters (built 7 scan_params)
              >> submit_built opcode_le_set_scan_enable (built 2 (scan_enable 1 1)))
            ctrl)

  unfoldable pub stop_le_scan : ℕ → ℕ → Controller T → Option (Status × Controller T)
  stop_le_scan n now_us ctrl =
      if not (is_ready ctrl.user.state)
      then some (err invalid_argument, ctrl)
      else pump_then n now_us
          (submit_built opcode_le_set_scan_enable (built 2 (scan_enable 0 0)) ctrl)
