-- ===== src/Controller/Callbacks.antt =====
-- core/controller/controller.c: the callbacks of the commands that bring the controller up.
use aros_bluzing.Prelude.{ℕ, [], Bool, true, false, some, ◌==◌, ◌&&◌, if◌then◌else◌}
use aros_bluzing.Status.{ok, err, Result, is_ok}
use aros_bluzing.Hci.Info.{
  parse_local_version, parse_local_features, parse_buffer_size, LocalVersion, LocalFeatures,
  BufferSize,
}
use aros_bluzing.CommandQueue.{Completion, CmdqResult, complete, timeout, send_error, submit}
use aros_bluzing.Controller.State.{
  ControllerState, reading_version, reading_features, reading_buffer_size, ready, error, Callback,
  reset_complete, version_complete, features_complete, buffer_size_complete, ignore_completion,
  Controller, set_state,
}

abbrev pub opcode_read_version : ℕ
opcode_read_version = 0x1001

abbrev pub opcode_read_features : ℕ
opcode_read_features = 0x1003

abbrev pub opcode_read_buffer_size : ℕ
opcode_read_buffer_size = 0x1005

abbrev pub is_complete : CmdqResult → Bool
is_complete complete = true
is_complete timeout = false
is_complete send_error = false

-- `step_ok` without its change of the state.
abbrev pub succeeded : Completion → Bool
succeeded completion = is_complete completion.result && (completion.status == 0)

module _ {T : Type 0} where
  -- Submits the next command, or gives up.
  abbrev pub next_command : ControllerState → ℕ → Callback → Controller T → Controller T
  next_command state opcode callback ctrl =
      let (st, after) = submit opcode [] 0 0 (some callback) (set_state state ctrl) in
      if is_ok st then after else set_state error after

  unfoldable pub on_reset_complete : Completion → Controller T → Controller T
  on_reset_complete completion ctrl = elim (succeeded completion) [
    | false ↦ set_state error ctrl
    | true ↦ next_command reading_version opcode_read_version version_complete ctrl
  ]

  abbrev pub store_version : LocalVersion → Controller T → Controller T
  store_version version ctrl = record ctrl {
    user = record ctrl.user { info = record ctrl.user.info { version = version } };
  }

  abbrev pub version_read : Result LocalVersion → Controller T → Controller T
  version_read (err e) ctrl = set_state error ctrl
  version_read (ok version) ctrl =
      next_command reading_features opcode_read_features features_complete
        (store_version version ctrl)

  unfoldable pub on_version_complete : Completion → Controller T → Controller T
  on_version_complete completion ctrl = elim (succeeded completion) [
    | false ↦ set_state error ctrl
    | true ↦
        version_read (parse_local_version completion.return_params completion.return_params_len)
          ctrl
  ]

  abbrev pub store_features : LocalFeatures → Controller T → Controller T
  store_features features ctrl = record ctrl {
    user = record ctrl.user { info = record ctrl.user.info { features = features } };
  }

  abbrev pub features_read : Result LocalFeatures → Controller T → Controller T
  features_read (err e) ctrl = set_state error ctrl
  features_read (ok features) ctrl =
      next_command reading_buffer_size opcode_read_buffer_size buffer_size_complete
        (store_features features ctrl)

  unfoldable pub on_features_complete : Completion → Controller T → Controller T
  on_features_complete completion ctrl = elim (succeeded completion) [
    | false ↦ set_state error ctrl
    | true ↦
        features_read (parse_local_features completion.return_params completion.return_params_len)
          ctrl
  ]

  abbrev pub store_buffer_size : BufferSize → Controller T → Controller T
  store_buffer_size buffer_size ctrl = record ctrl {
    user = record ctrl.user { info = record ctrl.user.info { buffer_size = buffer_size } };
  }

  abbrev pub buffer_size_read : Result BufferSize → Controller T → Controller T
  buffer_size_read (err e) ctrl = set_state error ctrl
  buffer_size_read (ok buffer_size) ctrl = set_state ready (store_buffer_size buffer_size ctrl)

  unfoldable pub on_buffer_size_complete : Completion → Controller T → Controller T
  on_buffer_size_complete completion ctrl = elim (succeeded completion) [
    | false ↦ set_state error ctrl
    | true ↦
        buffer_size_read (parse_buffer_size completion.return_params completion.return_params_len)
          ctrl
  ]

  -- The function that a pointer to a callback stands for.
  abbrev pub call : Callback → Completion → Controller T → Controller T
  call reset_complete = on_reset_complete
  call version_complete = on_version_complete
  call features_complete = on_features_complete
  call buffer_size_complete = on_buffer_size_complete
  call ignore_completion = λ completion ctrl. ctrl
