-- ===== src/Policy/Events.antt =====
-- Event handlers of src/relinker/policy.py whose failures are isolated.
use relinker.Prelude.{◌≡◌, refl, Bool, true, false, not, ◌&&◌, List, [], ◌∷◌, Bool-cases, inl, inr}
use relinker.Python.{Python, Outcome, return, raise, is_exception}
use relinker.Effects.{World, Action, pure, branch, ◌>>=◌, ◌>>◌}
use relinker.Records.{RetryEvent, EventName, same_event, isolate, is_some}
use relinker.Policy.{
  EventHandlerRegistration, RetryPolicy, isolate_failure, emit_to, named_event, emit,
}

module _ ⦃py : Python⦄ where
  -- Every registration for the event isolates the failures of its handler.
  abbrev pub AreIsolated : EventName → List EventHandlerRegistration → Type 0
  AreIsolated name [] = Unit
  AreIsolated name (r ∷ rs) =
      (same_event r.name name ≡ true → r.failure_mode ≡ isolate) × AreIsolated name rs

  -- Nothing that an `except Exception` would catch propagates.
  abbrev pub IsContained : Outcome (Unit {0}) × World → Type 0
  IsContained (return _, w) = Unit
  IsContained (raise e, w) = is_exception e ≡ false

  isolated_call :
      (o : Outcome (Unit {0})) (w : World) → IsContained (isolate_failure isolate (o, w))
  unfolding isolate_failure
  isolated_call (return _) w = tt
  isolated_call (raise e) w = elim (Bool-cases (is_exception e)) [
    | inl h ↦ rw h tt
    | inr h ↦ rw h h
  ]

  isolated_handler :
      (r : EventHandlerRegistration) (event : RetryEvent) (b : Bool) (w : World)
      → (b ≡ true → r.failure_mode ≡ isolate)
      → IsContained (branch b (λ w. isolate_failure r.failure_mode (r.handler event w)) (pure tt) w)
  unfolding branch pure
  isolated_handler r event true w h =
      rw (h refl) (isolated_call (r.handler event w).0 (r.handler event w).1)
  isolated_handler r event false w h = tt

  next-IsContained :
      (o : Outcome (Unit {0})) (w : World) (m : Action (Unit {0}))
      → IsContained (o, w)
      → ((w' : World) → IsContained (m w'))
      → IsContained (((λ _. (o, w)) >> m) w)
  unfolding ◌>>=◌
  next-IsContained (return _) w m h k = k w
  next-IsContained (raise e) w m h k = h

  emit_to-IsContained :
      (rs : List EventHandlerRegistration) (event : RetryEvent) (w : World)
      → AreIsolated event.name rs
      → IsContained (emit_to rs event w)
  unfolding emit_to pure ◌>>=◌
  emit_to-IsContained [] event w h = tt
  emit_to-IsContained (r ∷ rs) event w h =
      let b = same_event r.name event.name in
      let m = branch b (λ w. isolate_failure r.failure_mode (r.handler event w)) (pure tt) in
      next-IsContained (m w).0 (m w).1 (emit_to rs event) (isolated_handler r event b w h.0)
        (λ w'. emit_to-IsContained rs event w' h.1)

  named_event-name :
      (p : RetryPolicy) (event : RetryEvent) → (named_event p event).name ≡ event.name
  unfolding named_event
  named_event-name p event = elim (Bool-cases (is_some p.name && not (is_some event.policy_name))) [
    | inl h ↦ rw h refl
    | inr h ↦ rw h refl
  ]

  -- A policy whose handlers for an event are isolated lets no Exception of theirs out when it
  -- emits the event.
  pub emit-IsContained :
      (p : RetryPolicy) (event : RetryEvent) (w : World)
      → AreIsolated event.name p.event_handlers
      → IsContained (emit p event w)
  unfolding emit
  emit-IsContained p event w h =
      emit_to-IsContained p.event_handlers (named_event p event) w (rw (named_event-name p event) h)
