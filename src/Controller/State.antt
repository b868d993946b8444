-- ===== src/Controller/State.antt =====
-- core/controller/controller.c: what the controller keeps besides its command queue.
use aros_bluzing.Prelude.{ℕ, List, Bool, true, false, replicate}
use aros_bluzing.Hci.Info.{LocalVersion, LocalFeatures, BufferSize}
use aros_bluzing.Device.{Registry}
use aros_bluzing.CommandQueue.{Cmdq}

pub data ControllerState : Type 0 where
  uninitialized resetting reading_version reading_features reading_buffer_size ready error :
      ControllerState

abbrev pub is_uninitialized : ControllerState → Bool
is_uninitialized uninitialized = true
is_uninitialized _ = false

abbrev pub is_ready : ControllerState → Bool
is_ready ready = true
is_ready _ = false

-- The functions of the controller that commands call back.
pub data Callback : Type 0 where
  reset_complete version_complete features_complete buffer_size_complete ignore_completion :
      Callback

pub record ControllerInfo : Type 0 where
  pub version : LocalVersion
  pub features : LocalFeatures
  pub buffer_size : BufferSize

abbrev pub zero_info : ControllerInfo
zero_info = record {
  version = record {
    status = 0;
    hci_version = 0;
    hci_revision = 0;
    lmp_pal_version = 0;
    manufacturer_name = 0;
    lmp_pal_subversion = 0;
  };
  features = record { status = 0; features = replicate 8 0 };
  buffer_size = record {
    status = 0;
    acl_data_packet_length = 0;
    sco_data_packet_length = 0;
    total_num_acl_data_packets = 0;
    total_num_sco_data_packets = 0;
  };
}

-- `hooked` is whether `bt_hci_raw_hook` is set, and `printed` what it was given, the last first.
pub record Host : Type 0 where
  pub state : ControllerState
  pub info : ControllerInfo
  pub devices : Registry
  pub inquiry_traced : ℕ
  pub hooked : Bool
  pub printed : List (List ℕ)

abbrev pub Controller : Type 0 → Type 0
Controller T = Cmdq Callback Host T

abbrev pub set_state : {T : Type 0} → ControllerState → Controller T → Controller T
set_state state ctrl = record ctrl { user = record ctrl.user { state = state } }
