-- ===== src/Controller/Liveness.antt =====
-- core/controller/controller.c: from the start to ready, when every command is answered.
use aros_bluzing.Prelude.{
  ℕ, suc, ◌≡◌, refl, ap, ◌∙◌, ◌+◌, ◌*◌, ◌<◌, List, [], ◌∷◌, length, true, false, some, ◌==◌, arith,
}
use mathlib.Core.Option
use aros_bluzing.Status.{ok}
use aros_bluzing.Endian.{IsByte}
use aros_bluzing.Buffer.{size_mod}
use aros_bluzing.Queue.{is_empty}
use aros_bluzing.Queue.Chain.{is_empty_lem}
use aros_bluzing.Timer.{list_init}
use aros_bluzing.Hci.Info.{
  LocalVersion, LocalFeatures, BufferSize, parse_local_version, parse_local_features,
  parse_buffer_size,
}
use aros_bluzing.CommandQueue.{Sent, submit, free_from, filled, enqueue, max_pending, cmdq_init}
use aros_bluzing.CommandQueue.Run.{release, pump, must_wait, advance}
use aros_bluzing.CommandQueue.Start.{IsBlank, cmdq_init-IsValid, cmdq_init-used}
use aros_bluzing.CommandQueue.Answers.{complete_event}
use aros_bluzing.CommandQueue.Preserve.{either-elim}
use aros_bluzing.CommandQueue.Submit.{free_from_first}
use aros_bluzing.Controller
use aros_bluzing.Controller.State.{
  ControllerState, resetting, reading_version, reading_features, reading_buffer_size, ready,
  ControllerInfo, Callback, reset_complete, version_complete, features_complete,
  buffer_size_complete, set_state, Controller as Bluetooth,
}
use aros_bluzing.Controller.Callbacks.{
  next_command, call, on_reset_complete, version_read, on_version_complete, store_version,
  features_read, on_features_complete, store_features, buffer_size_read, on_buffer_size_complete,
  store_buffer_size, opcode_read_version, opcode_read_features, opcode_read_buffer_size,
}
use aros_bluzing.Controller.{driver, controller_init, start, reset_sent, pump_then, opcode_reset}
use aros_bluzing.Controller.Success.{
  TakesAll, Waits, Rests, finished, released-Rests, next_sent, sent_next, answered_step,
}

module _ {T : Type 0} (send_command : T → List ℕ → Sent T) (takes : TakesAll send_command) where
  -- After `before` completed, `after` waits for the next command, in the next state.
  abbrev pub Answered : ℕ → ℕ → ℕ → ℕ → ℕ → List ℕ → Bluetooth T → Bluetooth T → Type 0
  Answered n credits lo hi now params before after =
      Controller.on_event send_command (suc n) (complete_event credits lo hi (0 ∷ params))
        (length (0 ∷ params) + 5) now before
      ≡ some after

  module _ (n credits now : ℕ) (h : (credits == 0) ≡ false) (before : Bluetooth T) where
    abbrev settled : Bluetooth T
    settled = release 0 (record before { command_credits = credits })

    next-Answered :
        (lo hi opcode : ℕ) (params : List ℕ) (callback callback' : Callback) (s : ControllerState)
        (change : Bluetooth T)
        → Waits callback (lo + 256 * hi) before
        → Rests change
        → IsByte lo
        → IsByte hi
        → length params + 6 < size_mod
        → call callback (finished (lo + 256 * hi) 0 (0 ∷ params)) settled
          ≡ next_command s opcode callback' change
        → (after : Bluetooth T) × Answered n credits lo hi now params before after
          × Waits callback' opcode after
          × (after.user ≡ (set_state s change).user)
    next-Answered lo hi opcode params callback callback' s change w r hl hh small e =
        let (after, sent, waits, user) =
          next_sent send_command takes n now opcode s callback' change r in
        (
          after,
          answered_step send_command takes (suc n) credits lo hi now params callback before after w
              hl hh small (ap (pump (driver send_command) (suc n) now) e ∙ sent),
          waits,
          user,
        )

    reset-Answered :
        Waits reset_complete opcode_reset before
        → (after : Bluetooth T) × Answered n credits 0x03 0x0c now [] before after
          × Waits version_complete opcode_read_version after
          × (after.user ≡ (set_state reading_version before).user)
    unfolding on_reset_complete release
    reset-Answered w =
        next-Answered 0x03 0x0c opcode_read_version [] reset_complete version_complete
          reading_version settled w
          (released-Rests send_command takes reset_complete opcode_reset credits before h w)
          (omega arith) (omega arith) (omega arith) refl

    version-Answered :
        (params : List ℕ) (version : LocalVersion)
        → length params + 6 < size_mod
        → parse_local_version (0 ∷ params) (length (0 ∷ params)) ≡ ok version
        → Waits version_complete opcode_read_version before
        → (after : Bluetooth T) × Answered n credits 0x01 0x10 now params before after
          × Waits features_complete opcode_read_features after
          × (after.user ≡ (set_state reading_features (store_version version before)).user)
    unfolding on_version_complete release
    version-Answered params version small p w =
        let r =
          released-Rests send_command takes version_complete opcode_read_version credits before h
            w in
        next-Answered 0x01 0x10 opcode_read_features params version_complete features_complete
          reading_features (store_version version settled) w
          (record { valid = r.valid; none_used = r.none_used; idle = r.idle; credit = r.credit })
          (omega arith) (omega arith) small (ap (λ x. version_read x settled) p)

    features-Answered :
        (params : List ℕ) (features : LocalFeatures)
        → length params + 6 < size_mod
        → parse_local_features (0 ∷ params) (length (0 ∷ params)) ≡ ok features
        → Waits features_complete opcode_read_features before
        → (after : Bluetooth T) × Answered n credits 0x03 0x10 now params before after
          × Waits buffer_size_complete opcode_read_buffer_size after
          × (after.user ≡ (set_state reading_buffer_size (store_features features before)).user)
    unfolding on_features_complete release
    features-Answered params features small p w =
        let r =
          released-Rests send_command takes features_complete opcode_read_features credits before h
            w in
        next-Answered 0x03 0x10 opcode_read_buffer_size params features_complete
          buffer_size_complete reading_buffer_size (store_features features settled) w
          (record { valid = r.valid; none_used = r.none_used; idle = r.idle; credit = r.credit })
          (omega arith) (omega arith) small (ap (λ x. features_read x settled) p)

    -- A queue with no command waits.
    pump-Rests :
        (ctrl : Bluetooth T)
        → Rests ctrl
        → pump (driver send_command) (suc n) now ctrl ≡ some (advance now ctrl)
    unfolding pump
    pump-Rests ctrl r =
        let empty : is_empty ctrl.pending ≡ true = is_empty_lem ctrl.pending [] r.valid.waiting in
        either-elim (λ o. o ≡ some (advance now ctrl)) (must_wait ctrl) _ _ (λ _. refl)
          (λ b. absurd (ground (arith, empty)))

    buffer_size-Answered :
        (params : List ℕ) (size : BufferSize)
        → length params + 6 < size_mod
        → parse_buffer_size (0 ∷ params) (length (0 ∷ params)) ≡ ok size
        → Waits buffer_size_complete opcode_read_buffer_size before
        → (after : Bluetooth T) × Answered n credits 0x05 0x10 now params before after
          × (after.user ≡ (set_state ready (store_buffer_size size before)).user)
    unfolding on_buffer_size_complete release
    buffer_size-Answered params size small p w =
        let r =
          released-Rests send_command takes buffer_size_complete opcode_read_buffer_size credits
            before h w in
        let last = set_state ready (store_buffer_size size settled) in
        (
          advance now last,
          answered_step send_command takes (suc n) credits 0x05 0x10 now params buffer_size_complete
              before (advance now last) w (omega arith) (omega arith) small
              (ap (λ x. pump (driver send_command) (suc n) now (buffer_size_read x settled)) p
                ∙ pump-Rests last (record {
                  valid = r.valid;
                  none_used = r.none_used;
                  idle = r.idle;
                  credit = r.credit;
                })),
          refl,
        )

  started :
      (n now : ℕ) (transport : T) (ctrl : Bluetooth T)
      → IsBlank (record ctrl { timers = list_init ctrl.timers })
      → (after : Bluetooth T) × (start send_command (suc n) now (controller_init transport ctrl)
          ≡ some (ok tt, after))
        × Waits reset_complete opcode_reset after
        × (after.user ≡ (set_state resetting (controller_init transport ctrl)).user)
  unfolding start submit controller_init cmdq_init
  started n now transport ctrl b =
      let blank = record ctrl {
        transport = transport;
        timers = list_init ctrl.timers;
        user = (controller_init transport ctrl).user;
      } in
      let fresh = controller_init transport ctrl in
      let is_blank : IsBlank blank = record {
        no_slot = b.no_slot;
        no_timer = b.no_timer;
        empty_list = b.empty_list;
      } in
      let rests : Rests (set_state resetting fresh) = record {
        valid = cmdq_init-IsValid blank is_blank;
        none_used = cmdq_init-used blank is_blank;
        idle = refl;
        credit = ground arith;
      } in
      let found : free_from fresh.pool max_pending 0 ≡ some 0 =
        free_from_first fresh.pool (rests.none_used 0) in
      let fill = filled opcode_reset [] 0 0 (some reset_complete) in
      let (after, e, w, u) =
        sent_next send_command takes n now opcode_reset reset_complete (set_state resetting fresh)
          rests in
      (
        after,
        ap
              (λ o.
                pump_then send_command (suc n) now (reset_sent send_command (enqueue o fill fresh)))
              found
            ∙ ap (Option.map (λ x. (ok tt, x))) e,
        w,
        u,
      )

  -- Over a transport that takes the commands, a controller that answers each of the four commands
  -- with success and with parameters that parse is ready after the fourth answer, and then holds
  -- exactly the version, features and buffer sizes that were reported. Four events are enough, and
  -- each is processed within two levels of nesting; the answers may come at any times and give any
  -- credits but none.
  pub ready_after_answers :
      (n credits : ℕ) (now : ℕ → ℕ) (transport : T) (ctrl : Bluetooth T) (vs fs bs : List ℕ)
      (version : LocalVersion) (features : LocalFeatures) (size : BufferSize)
      → (credits == 0) ≡ false
      → IsBlank (record ctrl { timers = list_init ctrl.timers })
      → length vs + 6 < size_mod
      → length fs + 6 < size_mod
      → length bs + 6 < size_mod
      → parse_local_version (0 ∷ vs) (length (0 ∷ vs)) ≡ ok version
      → parse_local_features (0 ∷ fs) (length (0 ∷ fs)) ≡ ok features
      → parse_buffer_size (0 ∷ bs) (length (0 ∷ bs)) ≡ ok size
      → (a b c d e : Bluetooth T) × (start send_command
            (suc n)
            (now 0)
            (controller_init transport ctrl)
          ≡ some (ok tt, a))
        × Answered n credits 0x03 0x0c (now 1) [] a b
        × Answered n credits 0x01 0x10 (now 2) vs b c
        × Answered n credits 0x03 0x10 (now 3) fs c d
        × Answered n credits 0x05 0x10 (now 4) bs d e
        × (e.user.state ≡ ready)
        × (e.user.info ≡ record { version = version; features = features; buffer_size = size })
  ready_after_answers n credits now transport ctrl vs fs bs version features size h blank lv lf lb
        pv pf pb =
      let (a, ea, wa, ua) = started n (now 0) transport ctrl blank in
      let (b, eb, wb, ub) = reset-Answered n credits (now 1) h a wa in
      let (c, ec, wc, uc) = version-Answered n credits (now 2) h b vs version lv pv wb in
      let (d, ed, wd, ud) = features-Answered n credits (now 3) h c fs features lf pf wc in
      let (e, ee, ue) = buffer_size-Answered n credits (now 4) h d bs size lb pb wd in
      let ic = ap (λ u. u.info) uc in
      let id =
        ap (λ u. u.info) ud ∙ ap (λ (i : ControllerInfo). record i { features = features }) ic in
      (
        a,
        b,
        c,
        d,
        e,
        ea,
        eb,
        ec,
        ed,
        ee,
        ap (λ u. u.state) ue,
        ap (λ u. u.info) ue ∙ ap (λ (i : ControllerInfo). record i { buffer_size = size }) id,
      )
