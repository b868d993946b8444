-- ===== src/Controller/Stages.antt =====
-- core/controller/controller.c: the diagram of the states of the controller, and which commands may
-- be in the queue in each.
use aros_bluzing.Prelude.{
  ℕ, ◌≡◌, refl, sym, ap, ◌∙◌, true, false, some, ◌==◌, if◌then◌else◌, Bool-cases, inl, inr, arith,
  ==_iff,
}
use aros_bluzing.Timer.{update}
use aros_bluzing.CommandQueue.{Slot}
use aros_bluzing.Controller.State.{
  ControllerState, uninitialized, resetting, reading_version, reading_features, reading_buffer_size,
  ready, error, Callback, reset_complete, version_complete, features_complete, buffer_size_complete,
  ignore_completion, Host,
}

-- The states in which a command of the initialization runs.
pub data IsBringUp : ControllerState → Type 0 where
  in_reset : IsBringUp resetting
  in_version : IsBringUp reading_version
  in_features : IsBringUp reading_features
  in_buffer_size : IsBringUp reading_buffer_size

infix 40 ◌⟶◌ ◌⟶*◌
pub data ◌⟶◌ : ControllerState → ControllerState → Type 0 where
  start_reset : uninitialized ⟶ resetting
  reset_done : resetting ⟶ reading_version
  version_done : reading_version ⟶ reading_features
  features_done : reading_features ⟶ reading_buffer_size
  buffer_size_done : reading_buffer_size ⟶ ready
  give_up : {s : ControllerState} → IsBringUp s → s ⟶ error

pub data ◌⟶*◌ : ControllerState → ControllerState → Type 0 where
  here : {s : ControllerState} → s ⟶* s
  later : {s t u : ControllerState} → s ⟶* t → t ⟶ u → s ⟶* u

abbrev pub Pool : Type 0
Pool = ℕ → Slot Callback

-- No command waits or is in flight.
abbrev pub NoneUsed : Pool → Type 0
NoneUsed pool = (i : ℕ) → (pool i).in_use ≡ false

-- There is one command, and it calls `callback` back.
pub record OneUsed (callback : Callback) (pool : Pool) : Type 0 where
  pub slot : ℕ
  pub used : (pool slot).in_use ≡ true
  pub callback_is : (pool slot).on_complete ≡ some callback
  pub alone : (j : ℕ) → (pool j).in_use ≡ true → j ≡ slot

-- All commands are those of the discovery.
abbrev pub AllIgnored : Pool → Type 0
AllIgnored pool = (i : ℕ) → (pool i).in_use ≡ true → (pool i).on_complete ≡ some ignore_completion

abbrev pub Stage : ControllerState → Pool → Type 0
Stage uninitialized = NoneUsed
Stage resetting = OneUsed reset_complete
Stage reading_version = OneUsed version_complete
Stage reading_features = OneUsed features_complete
Stage reading_buffer_size = OneUsed buffer_size_complete
Stage ready = AllIgnored
Stage error = NoneUsed

-- The queue holds the commands of the state, which is on a way from `origin`.
abbrev pub Staged : ControllerState → Pool → Host → Type 0
Staged origin pool host = Stage host.state pool × (origin ⟶* host.state)

abbrev pub freed : Slot Callback → Slot Callback
freed slot = record slot { in_use = false }

-- Freeing the only slot in use leaves none.
pub freed-NoneUsed :
    {callback : Callback} (pool : Pool) (i : ℕ)
    → OneUsed callback pool
    → (pool i).in_use ≡ true
    → NoneUsed (update pool i (freed (pool i)))
freed-NoneUsed pool i one used j = elim (Bool-cases (j == i)) [
  | inl e ↦ rw e refl
  | inr e ↦ elim (Bool-cases (pool j).in_use) [
    | inl u ↦ absurd (ground (arith, one.alone j u, one.alone i used))
    | inr u ↦ rw e u
  ]
]

pub freed-AllIgnored :
    (pool : Pool) (i : ℕ) → AllIgnored pool → AllIgnored (update pool i (freed (pool i)))
freed-AllIgnored pool i all j u = elim (Bool-cases (j == i)) [
  | inl e ↦ absurd (cc (u, ap (λ b. (if b then freed (pool i) else pool j).in_use) e))
  | inr e ↦
      let same = ap (λ b. if b then freed (pool i) else pool j) e in
      ap (λ s. s.on_complete) same ∙ all j (sym (ap (λ s. s.in_use) same) ∙ u)
]

-- Filling a slot when none is in use leaves that one.
pub filled-OneUsed :
    (callback : Callback) (pool : Pool) (i : ℕ) (slot : Slot Callback)
    → slot.in_use ≡ true
    → slot.on_complete ≡ some callback
    → NoneUsed pool
    → OneUsed callback (update pool i slot)
filled-OneUsed callback pool i slot u c none_used =
    let itself : (i == i) ≡ true = ground arith in
    record {
      slot = i;
      used = rw itself u;
      callback_is = rw itself c;
      alone = λ j v. elim (Bool-cases (j == i)) [
        | inl e ↦ (==_iff j i).0 e
        | inr e ↦ absurd (cc (v, none_used j, ap (λ b. (if b then slot else pool j).in_use) e))
      ];
    }

pub filled-AllIgnored :
    (pool : Pool) (i : ℕ) (slot : Slot Callback)
    → slot.on_complete ≡ some ignore_completion
    → AllIgnored pool
    → AllIgnored (update pool i slot)
filled-AllIgnored pool i slot c all j u = elim (Bool-cases (j == i)) [
  | inl e ↦ rw e c
  | inr e ↦
      let same = ap (λ b. if b then slot else pool j) e in
      ap (λ s. s.on_complete) same ∙ all j (sym (ap (λ s. s.in_use) same) ∙ u)
]
