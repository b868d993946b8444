-- ===== src/Lib.antt =====
-- A Bluetooth host stack in C: wire formats, a buffer layer, timers, a queue, the registry of
-- devices, the queue of commands, the controller, the L2CAP layer, the commands and the negotiation
-- of a pairing, the reports of input devices, and the packets of the Attribute Protocol. Paths are
-- from the repository's root.
--
-- How the parts stand together. A packet arrives from the transport as bytes. protocols/hci/hci.c
-- parses it with the cursors of core/buffer/buffer.c, which read numbers by core/buffer/endian.c.
-- ACL payloads go through the reassembler of protocols/l2cap/l2cap.c, and a whole PDU of the signaling
-- channel to the parsers of protocols/l2cap/signaling.c. Those of other channels are packets of
-- protocols/att/att.c and protocols/smp/smp.c, and the values of HID over GATT are input reports, which
-- core/hid/report_parser.c decodes by the report descriptor. Inquiry results and advertising reports
-- end in core/device/device_registry.c. What is sent goes the other way: encoders write to a cursor, and the
-- fragmenter cuts a PDU into ACL packets. core/timer/timer.c keeps the pending timers.
--
-- core/manager/manager.c opens the transport and starts core/controller/controller.c, which brings the
-- controller up by four commands. They go through core/controller/command_queue.c: a pool of four
-- slots, a queue of the commands that wait, one command in flight with its timer, and the credits that
-- the controller gives. Events come back to the controller, which hands them to the queue, whose
-- callbacks move the controller's state, and then looks for discovered devices.
--
-- Which file models what:
--   Status        include/bluetooth/status.h: `bt_status_t` as a result, and actions on a state that
--                 may fail; Status/Sim relates two of them
--   Endian        core/buffer/endian.c; Endian/Values gives the numbers and the bytes
--   Buffer        core/buffer/buffer.c; Buffer/Reader and Buffer/Writer are the cursors, Refine and
--                 Parse describe reading by the bytes that are left, Emits describes writing by the
--                 bytes that are appended
--   Hci           protocols/hci/hci.c: commands, event and ACL headers; Hci/Info, Hci/Inquiry and
--                 Hci/Advertising the parameters; Headers, Columns and Reports the proofs
--   Timer         core/timer/timer.c; Order and Invariant the proofs
--   L2cap         protocols/l2cap/l2cap.c; L2cap/Sending the loop of
--                 protocols/l2cap/channel_manager.c that sends a PDU; Assembly describes the
--                 reassembler, Reassembly, Rebuild, Fragments and Transfer are the proofs;
--                 L2cap/Signaling protocols/l2cap/signaling.c, Commands, Scan and Options its proofs
--   H4            core/transport/h4.c, the receiver that cuts a stream into packets; H4/Bounds the
--                 proofs
--   Queue         core/event/queue.c, the intrusive queue; Queue/Chain the proofs
--   CommandQueue  core/controller/command_queue.c, the slots and the submission; CommandQueue/Run
--                 sending, answers and timeouts; Invariant, Preserve, Timeouts, Load, Termination,
--                 Submit, Start, Exchange and Answers the proofs
--   Controller    core/controller/controller.c; Controller/State its data, Controller/Callbacks the
--                 callbacks of the initialization, Controller/Discovery the discovery events; Stages
--                 the diagram of the states, BringUp, Operations, Returning, Success and Liveness the
--                 proofs
--   Manager       core/manager/manager.c; Manager/Lifecycle the proofs
--   Smp           core/security/smp_pairing.c, what two devices agree on before they pair;
--                 Smp/Association and Smp/Negotiation the proofs; Smp/Packets
--                 protocols/smp/smp.c, Payloads, RoundTrip, Keys and Messages its proofs
--   Att           protocols/att/att.c, the requests and the responses of the Attribute Protocol;
--                 Att/Entries the proofs on the iterator over the groups
--   HidReport     core/hid/report_parser.c, the parse of report descriptors; HidReport/Decode the
--                 decoding of input reports; Bounds, Parsing, Items, Within and Slices the proofs
--   Device        core/device/device_registry.c and core/addr/addr.c; Device/Names the entries, names
--                 and labels, Device/Advertised the payloads; Search, Sightings, Copying and Fields the
--                 proofs
--   Prelude       shared names and lemmas; Tests runs at concrete inputs
--
-- Correspondence. A definition has the name of the function it models, without the prefix `bt_` and
-- the component's prefix: `bt_l2cap_reassembler_feed` is `reassembler_feed`. A structure is a record
-- with the same fields. A function that returns `bt_status_t` and writes through pointers is an
-- `Action`: from the state to a result and the new state, where what was written before an error
-- stays. A pointer into a buffer is the list of the bytes from it on. A pointer to an entry of an
-- array is its index. A buffer that is written is the memory from its start on, which may be longer
-- than the buffer. A flag that only tells whether a pointer is null is an option.
--
-- Numbers. All numbers are natural numbers; where C wraps around, the remainder is written out:
-- `add_size` and `sub_size` for a `size_t` of 64 bits, `% 2 ^ w` for the others. A signed byte is held
-- as its byte.
--
-- Loops. Loops over a list or a count are structural recursion. The scan of configuration options and
-- the parse of an advertising payload run on fuel, the number of bytes that are left: each round
-- consumes a byte at least, and the theorems on them are about the fuel that the functions give. The
-- parse of a report descriptor has a round for each byte, the sending loop one round more than the PDU
-- has bytes, and the H4 receiver one for each byte that it is fed; without fuel they have no outcome.
-- The transport's `send_acl` is a parameter.
-- Sending a command may call back into the queue before it returns, and a callback may submit the next
-- command, so the functions of the queue, the controller and the manager run on fuel, the depth of
-- these calls; without fuel they have no outcome. `send_command`, the callbacks and the receiver of
-- events are parameters of the queue. The controller's callbacks are its own functions. Over a transport
-- that does not call back while it sends five levels are enough for the functions of the queue, since it
-- has four slots. What the transport delivers while a call of it runs is part of that call's outcome.
--
-- Not modelled: the procedures of SMP, ATT and GATT, SDP, the events made of HID reports, the bond
-- store, and the channel manager but for its sending loop; the ports, which call the operating system.
-- Out parameters that a parser has written before it fails are not kept. Copies from overlapping memory
-- do not occur.
pub mod Prelude
pub mod Status
pub mod Endian
pub mod Buffer
pub mod Hci
pub mod Timer
pub mod Queue
pub mod Device
pub mod L2cap
pub mod Att
pub mod Smp
pub mod H4
pub mod CommandQueue
pub mod Controller
pub mod Manager
pub mod HidReport
pub mod Tests
