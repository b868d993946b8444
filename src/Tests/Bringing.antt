-- ===== src/Tests/Bringing.antt =====
-- core/controller/controller.c on concrete inputs.
use aros_bluzing.Prelude.{
  ℕ, ◌≡◌, refl, ◌*◌, List, [], ◌∷◌, replicate, false, true, none, some, arith,
}
use aros_bluzing.Status.{ok}
use aros_bluzing.Timer.{list_init}
use aros_bluzing.Endian
use aros_bluzing.Buffer.Reader.{
  read_u8, read_le16, read_bytes, reader_init, reader_check, remaining,
}
use aros_bluzing.Controller.Success.{TakesAll}
use aros_bluzing.Hci.Info.{
  parse_local_version, parse_local_features, parse_buffer_size, LocalVersion, LocalFeatures,
  BufferSize,
}
use aros_bluzing.CommandQueue.{Slot, Sent}
use aros_bluzing.CommandQueue.Start.{IsBlank}
use aros_bluzing.Controller
use aros_bluzing.Controller.State.{
  uninitialized, ready, Callback, zero_info, Controller as Bluetooth,
}
use aros_bluzing.Controller.{
  controller_init, start, tick, start_classic_inquiry, start_le_scan, stop_le_scan,
}
use aros_bluzing.Controller.Returning.{events_return}
use aros_bluzing.Manager.{
  TransportOps, Manager, stopped, manager_init, manager_start, manager_receive, manager_tick,
  manager_stop,
}
use aros_bluzing.Manager.Lifecycle.{IsSound, EachSound, Started, init-IsSound, operations-IsSound}
use aros_bluzing.Controller.BringUp.{Good}
use aros_bluzing.Controller.Operations.{
  EachGood, EachGoodWith, operations-Good, controller_init-Good,
}
use aros_bluzing.Controller.Liveness.{Answered, ready_after_answers}

abbrev Wire : Type 0
Wire = List (List ℕ)

abbrev log_command : Wire → List ℕ → Sent Wire
log_command sent bytes = record { accepted = true; events = []; transport = bytes ∷ sent }

abbrev unused : Slot Callback
unused = record {
  in_use = false;
  opcode = 0;
  params = replicate 255 0;
  params_len = 0;
  timeout_us = 0;
  on_complete = none;
}

abbrev unset : Bluetooth Wire
unset = record {
  pool = λ i. unused;
  pending = record { next = λ i. none; head = none; tail = none };
  outstanding = none;
  command_credits = 0;
  last_tick_us = 0;
  timers = record { order = []; expiry = λ i. 0; pending = λ i. false };
  user = record {
    state = uninitialized;
    info = zero_info;
    devices = record { count = 0; devices = [] };
    inquiry_traced = 0;
    hooked = false;
    printed = [];
  };
  transport = [];
}

blank : IsBlank (record unset { timers = list_init unset.timers })
unfolding list_init
blank = record { no_slot = λ i h. refl; no_timer = λ i h. refl; empty_list = refl }

abbrev fresh : Bluetooth Wire
fresh = controller_init [] unset

fresh-Good : Good uninitialized fresh
fresh-Good = controller_init-Good [] unset blank

operations-Good_example :
    EachGoodWith log_command uninitialized (start log_command 5 10 fresh)
    × EachGood log_command uninitialized
        (Controller.on_event log_command 5 (0x0e ∷ 4 ∷ 1 ∷ 3 ∷ 12 ∷ 0 ∷ []) 6 10 fresh)
    × EachGood log_command uninitialized (tick log_command 5 10 fresh)
    × EachGoodWith log_command uninitialized (start_classic_inquiry log_command 5 8 10 fresh)
    × EachGoodWith log_command uninitialized (start_le_scan log_command 5 10 fresh)
    × EachGoodWith log_command uninitialized (stop_le_scan log_command 5 10 fresh)
operations-Good_example =
    operations-Good log_command uninitialized 5 10 6 8 (0x0e ∷ 4 ∷ 1 ∷ 3 ∷ 12 ∷ 0 ∷ []) fresh
      fresh-Good

abbrev version_bytes : List ℕ
version_bytes = 6 ∷ 1 ∷ 0 ∷ 6 ∷ 15 ∷ 0 ∷ 2 ∷ 0 ∷ []

abbrev version : LocalVersion
version = record {
  status = 0;
  hci_version = 6;
  hci_revision = 1;
  lmp_pal_version = 6;
  manufacturer_name = 15;
  lmp_pal_subversion = 2;
}

abbrev features_bytes : List ℕ
features_bytes = 1 ∷ 2 ∷ 3 ∷ 4 ∷ 5 ∷ 6 ∷ 7 ∷ 8 ∷ []

abbrev features : LocalFeatures
features = record { status = 0; features = features_bytes }

abbrev size_bytes : List ℕ
size_bytes = 0 ∷ 4 ∷ 64 ∷ 8 ∷ 0 ∷ 4 ∷ 0 ∷ []

abbrev size : BufferSize
size = record {
  status = 0;
  acl_data_packet_length = 1024;
  sco_data_packet_length = 64;
  total_num_acl_data_packets = 8;
  total_num_sco_data_packets = 4;
}

takes : TakesAll log_command
takes sent bytes = (refl, refl)

version_parses : parse_local_version (0 ∷ version_bytes) 9 ≡ ok version
unfolding parse_local_version read_u8 read_le16 reader_init reader_check remaining Endian.read_le16
version_parses = refl

features_parses : parse_local_features (0 ∷ features_bytes) 9 ≡ ok features
unfolding parse_local_features read_u8 read_bytes reader_init reader_check remaining
features_parses = refl

size_parses : parse_buffer_size (0 ∷ size_bytes) 8 ≡ ok size
unfolding parse_buffer_size read_u8 read_le16 reader_init reader_check remaining Endian.read_le16
size_parses = refl

ready_after_answers_example :
    (a b c d e : Bluetooth Wire) × (start log_command 2 0 fresh ≡ some (ok tt, a))
    × Answered log_command takes 1 1 0x03 0x0c 100 [] a b
    × Answered log_command takes 1 1 0x01 0x10 200 version_bytes b c
    × Answered log_command takes 1 1 0x03 0x10 300 features_bytes c d
    × Answered log_command takes 1 1 0x05 0x10 400 size_bytes d e
    × (e.user.state ≡ ready)
    × (e.user.info ≡ record { version = version; features = features; buffer_size = size })
ready_after_answers_example =
    ready_after_answers log_command takes 1 1 (λ i. 100 * i) [] unset version_bytes features_bytes
      size_bytes version features size refl blank (omega arith) (omega arith) (omega arith)
      version_parses features_parses size_parses

events_return_example :
    ((after : Bluetooth Wire) × (Controller.on_event log_command 5
          (0x0e ∷ 4 ∷ 1 ∷ 3 ∷ 12 ∷ 0 ∷ [])
          6
          10
          fresh
        ≡ some after))
    × ((after : Bluetooth Wire) × (tick log_command 5 10 fresh ≡ some after))
events_return_example =
    events_return log_command (λ t bytes. refl) 5 10 6 (0x0e ∷ 4 ∷ 1 ∷ 3 ∷ 12 ∷ 0 ∷ [])
      uninitialized fresh (omega arith) fresh-Good

-- A transport that opens and receives, and logs the commands.
abbrev log_ops : TransportOps Wire
log_ops = record {
  open_transport = λ sent. (true, sent);
  start_receive = λ sent. record {
    accepted = true;
    packets = (1, 0x0e ∷ 4 ∷ 1 ∷ 3 ∷ 12 ∷ 0 ∷ [], 6) ∷ [];
    transport = sent;
  };
  stop_receive = λ sent. sent;
  close = λ sent. [];
  send_command = log_command;
}

abbrev manager : Manager Wire
manager = manager_init true [] (record { attached = false; controller = unset; state = stopped })

operations-IsSound_example :
    IsSound (manager_init true [] manager)
    × Started manager (manager_start log_ops 5 10 manager)
    × EachSound (manager_receive log_ops 5 1 (0x0e ∷ 4 ∷ 1 ∷ 3 ∷ 12 ∷ 0 ∷ []) 6 manager)
    × EachSound (manager_tick log_ops 5 10 manager)
    × IsSound (manager_stop log_ops manager)
operations-IsSound_example =
    operations-IsSound log_ops 5 10 1 6 (0x0e ∷ 4 ∷ 1 ∷ 3 ∷ 12 ∷ 0 ∷ []) true [] manager
      (init-IsSound true [] (record { attached = false; controller = unset; state = stopped }))
