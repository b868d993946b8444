-- ===== src/Manager/Lifecycle.antt =====
-- core/manager/manager.c: what holds of the manager between two calls.
use aros_bluzing.Prelude.{
  ℕ, ◌≡◌, refl, sym, ap, ◌∙◌, ◌≤◌, ◌⊎◌, inl, inr, List, [], Bool, true, false, Option, none, some,
  ◌∷◌, ◌==◌, not, ◌&&◌, ◌||◌, if◌then◌else◌, Bool-cases, Option-cases, arith,
}
use mathlib.Core.Option
use aros_bluzing.Status.{ok, err, invalid_argument, Status}
use aros_bluzing.Timer.{list_init}
use aros_bluzing.Timer.Order.{member}
use aros_bluzing.CommandQueue.{max_pending, cmdq_init}
use aros_bluzing.CommandQueue.Run.{is_at}
use aros_bluzing.CommandQueue.Invariant.{in_flight}
use aros_bluzing.CommandQueue.Start.{IsBlank}
use aros_bluzing.Controller
use aros_bluzing.Controller.{controller_init}
use aros_bluzing.Controller.State.{uninitialized, Controller as Bluetooth}
use aros_bluzing.Controller.Stages.{here}
use aros_bluzing.Controller.BringUp.{Good}
use aros_bluzing.Controller.Operations.{
  EachGood, EachGoodWith, operations-Good, controller_init-Good,
}
use aros_bluzing.Manager.{
  TransportOps, Manager, ManagerState, stopped, starting, running, failed, is_stopped, is_running,
  is_failed, is_error, packet_event, zeroed_controller, manager_init, with_transport, settle,
  controller_started, deliver, receiving, opened, manager_start, manager_receive, ticked,
  manager_tick, manager_stop,
}

-- Between two calls the manager is not in the midst of a start, its controller is on the diagram, and
-- a stopped manager has a controller that has not been started.
pub record IsSound {T : Type 0} (m : Manager T) : Type 0 where
  pub on_diagram : Good uninitialized m.controller
  pub fresh : m.state ≡ stopped → m.controller.user.state ≡ uninitialized

module _ {T : Type 0} where
  abbrev pub EachSound : Option (Manager T) → Type 0
  EachSound none = Unit
  EachSound (some m) = IsSound m

  abbrev pub can_start : Manager T → Bool
  can_start m = m.attached && is_stopped m.state

  -- A manager without a transport or that is not stopped is left as it is, with an invalid argument;
  -- any other start leaves it running, with a controller that has not given up, or failed.
  abbrev pub Started : Manager T → Option (Status × Manager T) → Type 0
  Started before none = can_start before ≡ true
  Started before (some (ok _, m)) =
      (can_start before ≡ true)
      × IsSound m
      × (m.state ≡ running)
      × (is_error m.controller.user.state ≡ false)
  Started before (some (err e, m)) =
      IsSound m
      × ((can_start before ≡ false) × (m ≡ before) × (e ≡ invalid_argument)
          ⊎ (can_start before ≡ true) × (m.state ≡ failed))

  each_next :
      (o : Option (Manager T)) (f : Manager T → Option (Manager T))
      → EachSound o
      → ((m : Manager T) → IsSound m → EachSound (f m))
      → EachSound (Option.bind o f)
  unfolding Option.bind
  each_next none f s k = tt
  each_next (some m) f s k = k m s

  -- A controller whose queue is consistent can be initialized again.
  init-IsBlank :
      (ctrl : Bluetooth T)
      → Good uninitialized ctrl
      → IsBlank (record ctrl { timers = list_init ctrl.timers })
  unfolding list_init
  init-IsBlank ctrl (ns, v, s) =
      let outside : (i : ℕ) → max_pending ≤ i → (ctrl.pool i).in_use ≡ false = λ i h.
        elim (Bool-cases (ctrl.pool i).in_use) [
          | inl u ↦ absurd (omega (arith, v.range i u))
          | inr u ↦ u
        ] in
      record {
        no_slot = outside;
        no_timer = λ i h. elim (Option-cases ctrl.outstanding) [
          | inl e ↦
              sym (v.timers_valid.listed i)
              ∙ ap (member i) (v.armed ∙ ap in_flight e)
              ∙ (unfold member in refl)
          | inr (j, e) ↦
              let busy : (ctrl.pool j).in_use ≡ true =
                v.used j ∙ ap (λ o. member j ns || is_at o j) e ∙ ground arith in
              let other : (j == i) ≡ false = ground (arith, v.range j busy) in
              sym (v.timers_valid.listed i)
              ∙ ap (member i) (v.armed ∙ ap in_flight e)
              ∙ (unfold member in rw other refl)
        ];
        empty_list = refl;
      }

  pub init-IsSound :
      (attached : Bool) (transport : T) (m : Manager T)
      → IsSound (manager_init attached transport m)
  unfolding manager_init list_init
  init-IsSound true transport m = record {
    on_diagram = controller_init-Good transport (zeroed_controller transport) (record {
      no_slot = λ i h. refl;
      no_timer = λ i h. refl;
      empty_list = unfold list_init in refl;
    });
    fresh = λ _. unfold controller_init cmdq_init in refl;
  }
  init-IsSound false transport m = record {
    on_diagram = (
      [],
      record {
        waiting = record { linked = refl; tail = refl; distinct = tt };
        timers_valid = record { sorted = tt; distinct = tt; listed = λ t. unfold member in refl };
        armed = refl;
        used = λ i. unfold member in refl;
        apart = λ i e. absurd (cc);
        range = λ i e. absurd (cc);
      },
      (λ i. refl, here),
    );
    fresh = λ _. refl;
  }

  stop-IsSound : (ops : TransportOps T) (m : Manager T) → IsSound m → IsSound (manager_stop ops m)
  unfolding manager_stop
  stop-IsSound ops m s = elim (Bool-cases (not m.attached || is_stopped m.state)) [
    | inl e ↦ rw e s
    | inr e ↦ rw e (record {
      on_diagram = controller_init-Good _ m.controller (init-IsBlank m.controller s.on_diagram);
      fresh = λ _. unfold controller_init cmdq_init in refl;
    })
  ]

  module _ (ops : TransportOps T) where
    gave_up : (m : Manager T) → Good uninitialized m.controller → m.state ≡ failed → IsSound m
    gave_up m g e = record { on_diagram = g; fresh = λ f. absurd (cc (e, f)) }

    event_taken :
        (m : Manager T) (o : Option (Bluetooth T))
        → is_stopped m.state ≡ false
        → EachGood ops.send_command uninitialized o
        → EachSound (Option.map {A = Bluetooth T} (λ ctrl. record m { controller = ctrl }) o)
    event_taken m none e g = tt
    event_taken m (some ctrl) e g = record {
      on_diagram = g;
      fresh = λ f. absurd (cc (e, ap is_stopped f));
    }

    receive-IsSound :
        (n type : ℕ) (bytes : List ℕ) (len : ℕ) (m : Manager T)
        → IsSound m
        → EachSound (manager_receive ops n type bytes len m)
    unfolding manager_receive
    receive-IsSound n type bytes len m s =
        elim (Bool-cases (is_stopped m.state || is_failed m.state)) [
          | inl e ↦ rw e s
          | inr e ↦ elim (Bool-cases (type == packet_event)) [
            | inl f ↦
                let going : is_stopped m.state ≡ false = ground arith in
                let (_, g, _, _, _, _) =
                  operations-Good ops.send_command uninitialized n m.controller.last_tick_us len 0
                    bytes m.controller s.on_diagram in
                rw (e, f) (event_taken m _ going g)
            | inr f ↦ rw (e, f) s
          ]
        ]

    deliver-IsSound :
        (n : ℕ) (packets : List (ℕ × List ℕ × ℕ)) (m : Manager T)
        → IsSound m
        → EachSound (deliver ops n packets m)
    unfolding deliver
    deliver-IsSound n [] m s = s
    deliver-IsSound n ((type, bytes, len) ∷ packets) m s =
        each_next (manager_receive ops n type bytes len m) (deliver ops n packets)
          (receive-IsSound n type bytes len m s) (λ k v. deliver-IsSound n packets k v)

    settle-Started :
        (before m : Manager T) (ctrl : Bluetooth T) (b : Bool)
        → can_start before ≡ true
        → is_error ctrl.user.state ≡ b
        → Good uninitialized ctrl
        → Started before (some (settle ops b ctrl m))
    settle-Started before m ctrl true h e g = (gave_up _ g refl, inr (h, refl))
    settle-Started before m ctrl false h e g =
        (h, record { on_diagram = g; fresh = λ f. absurd (cc) }, refl, e)

    controller_started-Started :
        (before m : Manager T) (o : Option (Status × Bluetooth T))
        → can_start before ≡ true
        → EachGoodWith ops.send_command uninitialized o
        → Started before (controller_started ops o m)
    controller_started-Started before m none h g = h
    controller_started-Started before m (some (err e, ctrl)) h g = (gave_up _ g refl, inr (h, refl))
    controller_started-Started before m (some (ok u, ctrl)) h g =
        settle-Started before m ctrl (is_error ctrl.user.state) h refl g

    start-Good :
        (n now : ℕ) (ctrl : Bluetooth T)
        → Good uninitialized ctrl
        → EachGoodWith ops.send_command uninitialized (Controller.start ops.send_command n now ctrl)
    start-Good n now ctrl g = (operations-Good ops.send_command uninitialized n now 0 0 [] ctrl g).0

    receiving-Started :
        (before : Manager T) (n now : ℕ) (accepted : Bool) (o : Option (Manager T))
        → can_start before ≡ true
        → EachSound o
        → Started before (receiving ops n now accepted o)
    receiving-Started before n now accepted none h s = h
    receiving-Started before n now true (some m) h s =
        controller_started-Started before m _ h (start-Good n now m.controller s.on_diagram)
    receiving-Started before n now false (some m) h s = (gave_up _ s.on_diagram refl, inr (h, refl))

    opened-Started :
        (before m : Manager T) (n now : ℕ) (p : Bool × T)
        → can_start before ≡ true
        → m.state ≡ starting
        → Good uninitialized m.controller
        → Started before (opened ops n now p m)
    opened-Started before m n now (true, transport) h e g =
        let call = ops.start_receive transport in
        receiving-Started before n now call.accepted _ h (
          deliver-IsSound n call.packets
            (record m { controller = with_transport call.transport m.controller })
            (record { on_diagram = g; fresh = λ f. absurd (cc (e, f)) }))
    opened-Started before m n now (false, transport) h e g = (gave_up _ g refl, inr (h, refl))

    start-Started : (n now : ℕ) (m : Manager T) → IsSound m → Started m (manager_start ops n now m)
    unfolding manager_start
    start-Started n now m s = elim (Bool-cases (not m.attached || not (is_stopped m.state))) [
      | inl e ↦ rw e (s, inl (ground arith, refl, refl))
      | inr e ↦ rw e (
          opened-Started m (record m { state = starting }) n now
            (ops.open_transport m.controller.transport) (ground arith) refl s.on_diagram)
    ]

    tick_taken :
        (m : Manager T) (o : Option (Bluetooth T))
        → m.state ≡ running
        → EachGood ops.send_command uninitialized o
        → EachSound (Option.map (ticked ops m) o)
    tick_taken m none e g = tt
    tick_taken m (some ctrl) e g = elim (Bool-cases (is_error ctrl.user.state)) [
      | inl f ↦ gave_up (ticked ops m ctrl) g (rw f refl)
      | inr f ↦ record {
        on_diagram = g;
        fresh = λ h. absurd (cc (e, h, ap (λ b. if b then failed else m.state) f));
      }
    ]

    is_running-eq : (s : ManagerState) → is_running s ≡ true → s ≡ running
    is_running-eq running e = refl
    is_running-eq stopped e = absurd (cc)
    is_running-eq starting e = absurd (cc)
    is_running-eq failed e = absurd (cc)

    tick-IsSound : (n now : ℕ) (m : Manager T) → IsSound m → EachSound (manager_tick ops n now m)
    unfolding manager_tick
    tick-IsSound n now m s = elim (Bool-cases (is_running m.state)) [
      | inr e ↦ rw e s
      | inl e ↦
          let (_, _, g, _, _, _) =
            operations-Good ops.send_command uninitialized n now 0 0 [] m.controller s.on_diagram in
          rw e (tick_taken m _ (is_running-eq m.state e) g)
    ]

    -- An initialized manager is sound, and every call that returns leaves it sound, whatever packets the
    -- transport delivers while receiving starts and whatever events while it sends. A start of a manager
    -- without a transport, or that is not stopped, is refused as an invalid argument and changes nothing;
    -- any other start leaves the manager failed, with an error, or running, with a controller that has
    -- not given up. A stopped manager has a controller that can be started again.
    pub operations-IsSound :
        (n now type len : ℕ) (bytes : List ℕ) (attached : Bool) (transport : T) (m : Manager T)
        → IsSound m
        → IsSound (manager_init attached transport m)
          × Started m (manager_start ops n now m)
          × EachSound (manager_receive ops n type bytes len m)
          × EachSound (manager_tick ops n now m)
          × IsSound (manager_stop ops m)
    operations-IsSound n now type len bytes attached transport m s = (
      init-IsSound attached transport m,
      start-Started n now m s,
      receive-IsSound n type bytes len m s,
      tick-IsSound n now m s,
      stop-IsSound ops m s,
    )
