-- ===== src/Controller/Untouched.antt =====
-- core/controller/controller.c: discovery and the state of the controller.
use aros_bluzing.Prelude.{
  ℕ, ◌≡◌, refl, List, Option, none, some, ◌==◌, ltb, ◌&&◌, Bool-cases, inl, inr,
}
use aros_bluzing.Status.{ok, err, Result}
use aros_bluzing.Buffer.Reader.{Reader, reader_init, peek}
use aros_bluzing.Hci.{EventHeader, parse_event_header}
use aros_bluzing.CommandQueue.Preserve.{either-elim}
use aros_bluzing.Controller.State.{Host}
use aros_bluzing.Controller.Discovery.{
  discover, on_event_header, on_params, trace, event_inquiry_result, event_extended_inquiry_result,
  event_le_meta,
}

-- Discovery leaves the state of the controller.
trace-state : (params : List ℕ) (host : Host) → (trace params host).state ≡ host.state
trace-state params host = elim (Bool-cases (ltb host.inquiry_traced 2 && host.hooked)) [
  | inl e ↦ rw e refl
  | inr e ↦ rw e refl
]

on_params-state :
    (code len : ℕ) (params : Option (List ℕ)) (host : Host)
    → (on_params code len params host).state ≡ host.state
on_params-state code len none host = refl
on_params-state code len (some params) host =
    either-elim (λ (h : Host). h.state ≡ host.state) (code == event_inquiry_result) _ _
      (λ _. trace-state params host)
      (λ _.
        either-elim (λ (h : Host). h.state ≡ host.state) (code == event_extended_inquiry_result) _ _
          (λ _. refl)
          (λ _.
            either-elim (λ (h : Host). h.state ≡ host.state) (code == event_le_meta) _ _ (λ _. refl)
              (λ _. refl)))

on_event_header-state :
    (p : Result EventHeader × Reader) (host : Host) → (on_event_header p host).state ≡ host.state
on_event_header-state (err e, r) host = refl
on_event_header-state (ok hdr, r) host =
    on_params-state hdr.event_code hdr.param_len (peek r hdr.param_len) host

pub discover-state :
    (bytes : List ℕ) (len : ℕ) (host : Host) → (discover bytes len host).state ≡ host.state
unfolding discover
discover-state bytes len host =
    on_event_header-state (parse_event_header (reader_init bytes len)) host
