-- ===== src/Controller/BringUp.antt =====
-- core/controller/controller.c: the callbacks, the diagram of the states, and the commands in the queue.
use aros_bluzing.Prelude.{
  ℕ, ◌≡◌, refl, sym, ap, ◌∙◌, List, [], ◌∷◌, ◌++◌, true, some, if◌then◌else◌, arith,
}
use mathlib.Core.Path.{subst}
use aros_bluzing.Status.{ok, err, Result, is_ok}
use aros_bluzing.Hci.Info.{LocalVersion, LocalFeatures, BufferSize}
use aros_bluzing.CommandQueue.{Completion, Sent, free_from, filled, enqueue, submit, max_pending}
use aros_bluzing.CommandQueue.Run.{release, call_back}
use aros_bluzing.CommandQueue.Invariant.{IsValid, IsTaken, release-IsValid}
use aros_bluzing.CommandQueue.Preserve.{SomeValid, either-elim}
use aros_bluzing.CommandQueue.Submit.{free_from_first, enqueue-IsValid}
use aros_bluzing.Controller.State.{
  ControllerState, uninitialized, resetting, reading_version, reading_features, reading_buffer_size,
  ready, error, Callback, reset_complete, version_complete, features_complete, buffer_size_complete,
  Controller, set_state,
}
use aros_bluzing.Controller.Callbacks.{
  succeeded, next_command, store_version, store_features, on_reset_complete, version_read,
  on_version_complete, features_read, on_features_complete, buffer_size_read,
  on_buffer_size_complete,
}
use aros_bluzing.Controller.{driver}
use aros_bluzing.Controller.Stages.{
  IsBringUp, in_reset, in_version, in_features, in_buffer_size, reset_done, version_done,
  features_done, buffer_size_done, give_up, ◌⟶*◌, later, NoneUsed, OneUsed, Stage, Staged,
  freed-NoneUsed, freed-AllIgnored, filled-OneUsed,
}

module _ {T : Type 0} (origin : ControllerState) where
  abbrev pub Good : Controller T → Type 0
  Good = SomeValid (Staged origin)

  gives_up :
      (s : ControllerState) (ctrl : Controller T) (ns : List ℕ)
      → IsBringUp s
      → IsValid ctrl ns
      → NoneUsed ctrl.pool
      → origin ⟶* s
      → Good (set_state error ctrl)
  gives_up s ctrl ns b v n r = (ns, v, (n, later r (give_up b)))

  next_command-Good :
      (s : ControllerState) (opcode : ℕ) (callback : Callback) (ctrl : Controller T) (ns : List ℕ)
      → ((pool : _) → OneUsed callback pool → Stage s pool)
      → IsValid ctrl ns
      → NoneUsed ctrl.pool
      → origin ⟶* s
      → Good (next_command s opcode callback ctrl)
  unfolding submit
  next_command-Good s opcode callback ctrl ns stage v n r =
      let fill = filled opcode [] 0 0 (some callback) in
      let found : free_from ctrl.pool max_pending 0 ≡ some 0 = free_from_first ctrl.pool (n 0) in
      let slot = fill (ctrl.pool 0) in
      subst
        (λ o.
          let (st, after) = enqueue o fill (set_state s ctrl) in
          Good (if is_ok st then after else set_state error after))
        (sym found)
        (
          ns ++ (0 ∷ []),
          (enqueue-IsValid 0 slot (set_state s ctrl) ns (omega arith) refl (n 0) v).1,
          (stage _ (filled-OneUsed callback ctrl.pool 0 slot refl refl n), r),
        )

  reset-Good :
      (x : Completion) (ctrl : Controller T) (ns : List ℕ)
      → IsValid ctrl ns
      → NoneUsed ctrl.pool
      → origin ⟶* resetting
      → Good (on_reset_complete x ctrl)
  unfolding on_reset_complete
  reset-Good x ctrl ns v n r =
      either-elim Good (succeeded x) _ _
        (λ _.
          next_command-Good reading_version _ version_complete ctrl ns (λ p h. h) v n
            (later r reset_done))
        (λ _. gives_up resetting ctrl ns in_reset v n r)

  version_read-Good :
      (p : Result LocalVersion) (ctrl : Controller T) (ns : List ℕ)
      → IsValid ctrl ns
      → NoneUsed ctrl.pool
      → origin ⟶* reading_version
      → Good (version_read p ctrl)
  version_read-Good (err e) ctrl ns v n r = gives_up reading_version ctrl ns in_version v n r
  version_read-Good (ok version) ctrl ns v n r =
      next_command-Good reading_features _ features_complete (store_version version ctrl) ns
        (λ p h. h) v n (later r version_done)

  version-Good :
      (x : Completion) (ctrl : Controller T) (ns : List ℕ)
      → IsValid ctrl ns
      → NoneUsed ctrl.pool
      → origin ⟶* reading_version
      → Good (on_version_complete x ctrl)
  unfolding on_version_complete
  version-Good x ctrl ns v n r =
      either-elim Good (succeeded x) _ _ (λ _. version_read-Good _ ctrl ns v n r)
        (λ _. gives_up reading_version ctrl ns in_version v n r)

  features_read-Good :
      (p : Result LocalFeatures) (ctrl : Controller T) (ns : List ℕ)
      → IsValid ctrl ns
      → NoneUsed ctrl.pool
      → origin ⟶* reading_features
      → Good (features_read p ctrl)
  features_read-Good (err e) ctrl ns v n r = gives_up reading_features ctrl ns in_features v n r
  features_read-Good (ok features) ctrl ns v n r =
      next_command-Good reading_buffer_size _ buffer_size_complete (store_features features ctrl) ns
        (λ p h. h) v n (later r features_done)

  features-Good :
      (x : Completion) (ctrl : Controller T) (ns : List ℕ)
      → IsValid ctrl ns
      → NoneUsed ctrl.pool
      → origin ⟶* reading_features
      → Good (on_features_complete x ctrl)
  unfolding on_features_complete
  features-Good x ctrl ns v n r =
      either-elim Good (succeeded x) _ _ (λ _. features_read-Good _ ctrl ns v n r)
        (λ _. gives_up reading_features ctrl ns in_features v n r)

  buffer_size_read-Good :
      (p : Result BufferSize) (ctrl : Controller T) (ns : List ℕ)
      → IsValid ctrl ns
      → NoneUsed ctrl.pool
      → origin ⟶* reading_buffer_size
      → Good (buffer_size_read p ctrl)
  buffer_size_read-Good (err e) ctrl ns v n r =
      gives_up reading_buffer_size ctrl ns in_buffer_size v n r
  buffer_size_read-Good (ok size) ctrl ns v n r =
      (ns, v, (λ i u. absurd (cc (u, n i)), later r buffer_size_done))

  buffer_size-Good :
      (x : Completion) (ctrl : Controller T) (ns : List ℕ)
      → IsValid ctrl ns
      → NoneUsed ctrl.pool
      → origin ⟶* reading_buffer_size
      → Good (on_buffer_size_complete x ctrl)
  unfolding on_buffer_size_complete
  buffer_size-Good x ctrl ns v n r =
      either-elim Good (succeeded x) _ _ (λ _. buffer_size_read-Good _ ctrl ns v n r)
        (λ _. gives_up reading_buffer_size ctrl ns in_buffer_size v n r)

  module _ (send_command : T → List ℕ → Sent T) (i : ℕ) (x : Completion) (q : Controller T)
      (ns : List ℕ) (v : IsTaken q ns i) where
    in_use_now : (q.pool i).in_use ≡ true
    in_use_now = v.used i ∙ ground arith

    -- In a state that waits for one command, it is that one which completes.
    settle_one :
        (callback : Callback)
        → OneUsed callback q.pool
        → ((ctrl : Controller T)
            → IsValid ctrl ns
            → NoneUsed ctrl.pool
            → Good (call_back (driver send_command) (some callback) x ctrl))
        → Good (call_back (driver send_command) (q.pool i).on_complete x (release i q))
    settle_one callback one f =
        let is : (q.pool i).on_complete ≡ some callback =
          ap (λ j. (q.pool j).on_complete) (one.alone i in_use_now) ∙ one.callback_is in
        subst (λ c. Good (call_back (driver send_command) c x (release i q))) (sym is)
          (f (release i q) (release-IsValid i q v)
            (unfold release in freed-NoneUsed q.pool i one in_use_now))

    pub settle_in :
        (s : ControllerState)
        → q.user.state ≡ s
        → Stage s q.pool
        → origin ⟶* s
        → Good (call_back (driver send_command) (q.pool i).on_complete x (release i q))
    unfolding release
    settle_in uninitialized e n r = absurd (cc (n i, in_use_now))
    settle_in resetting e one r =
        settle_one reset_complete one (λ ctrl w n. reset-Good x ctrl ns w n r)
    settle_in reading_version e one r =
        settle_one version_complete one (λ ctrl w n. version-Good x ctrl ns w n r)
    settle_in reading_features e one r =
        settle_one features_complete one (λ ctrl w n. features-Good x ctrl ns w n r)
    settle_in reading_buffer_size e one r =
        settle_one buffer_size_complete one (λ ctrl w n. buffer_size-Good x ctrl ns w n r)
    settle_in ready e all r =
        subst (λ c. Good (call_back (driver send_command) c x (release i q)))
          (sym (all i in_use_now))
          (
            ns,
            release-IsValid i q v,
            (
              subst (λ s. Stage s (release i q).pool) (sym e) (freed-AllIgnored q.pool i all),
              subst (λ s. origin ⟶* s) (sym e) r,
            ),
          )
    settle_in error e n r = absurd (cc (n i, in_use_now))
