-- ===== src/Path/Manager/Events.antt =====
-- The events that a path manager keeps: the last ones, as many as its bound allows.
use mathlib.Core.List.{append-nil, append_assoc}
use rustgo.Prelude.{
  ℕ, suc, zero, ◌-◌, ◌≤◌, ◌≡◌, ◌∙◌, sym, ap, refl, true, false, List, [], ◌∷◌, ◌++◌, length, drop,
  ◌==◌, inl, inr, Bool-cases, leb, drop-append_left, length-append, length-drop, arith,
}
use rustgo.Path.State.{PathEvent}
use rustgo.Path.Manager.{push_recorded, max_recorded_events, pop_front}

-- The last events of a list, at most as many as the bound.
abbrev pub last_events : List PathEvent → List PathEvent
last_events events = drop (length events - max_recorded_events) events

abbrev pub push_all : List PathEvent → List PathEvent → List PathEvent
push_all events [] = events
push_all events (event ∷ later) = push_all (push_recorded events event) later

pop_front-drop : (n : ℕ) (events : List PathEvent) → pop_front (drop n events) ≡ drop (suc n) events
pop_front-drop zero [] = refl
pop_front-drop zero (e ∷ es) = refl
pop_front-drop (suc n) [] = refl
pop_front-drop (suc n) (e ∷ es) = pop_front-drop n es

pub length-push_recorded :
    (events : List PathEvent) (event : PathEvent)
    → length events ≤ max_recorded_events
    → length (push_recorded events event) ≤ max_recorded_events
unfolding push_recorded
length-push_recorded [] event le = ground arith
length-push_recorded (e ∷ es) event le =
    elim (Bool-cases (length (e ∷ es) == max_recorded_events)) [
      | inl full ↦ rw (full, length-append es (event ∷ [])) (ground arith)
      | inr free ↦ rw (free, length-append (e ∷ es) (event ∷ [])) (ground arith)
    ]

push-last_events :
    (events : List PathEvent) (event : PathEvent)
    → push_recorded (last_events events) event ≡ last_events (events ++ event ∷ [])
unfolding push_recorded
push-last_events events event = elim (Bool-cases (leb max_recorded_events (length events))) [
  | inl high ↦
      let n = length events - max_recorded_events in
      let full : (length (drop n events) == max_recorded_events) ≡ true =
        rw (length-drop n events) (ground arith) in
      let next : length (events ++ event ∷ []) - max_recorded_events ≡ suc n =
        rw (length-append events (event ∷ [])) (ground arith) in
      rw
        (
          full,
          next,
          pop_front-drop n events,
          drop-append_left (suc n) events (event ∷ []) (ground arith),
        )
        refl
  | inr low ↦
      let none_left : length events - max_recorded_events ≡ 0 = ground arith in
      let free : (length events == max_recorded_events) ≡ false = ground arith in
      let next : length (events ++ event ∷ []) - max_recorded_events ≡ 0 =
        rw (length-append events (event ∷ [])) (ground arith) in
      rw (none_left, free, next) refl
]

push_all-last_events :
    (earlier later : List PathEvent)
    → push_all (last_events earlier) later ≡ last_events (earlier ++ later)
push_all-last_events earlier [] = ap last_events (sym (append-nil earlier))
push_all-last_events earlier (event ∷ later) =
    ap (λ es. push_all es later) (push-last_events earlier event)
    ∙ push_all-last_events (earlier ++ event ∷ []) later
    ∙ ap last_events (append_assoc earlier (event ∷ []) later)

-- The events that are kept of any sequence are its last ones, in their order, as many as the bound
-- allows.
push_all-recent : (events : List PathEvent) → push_all [] events ≡ last_events events
push_all-recent events = push_all-last_events [] events
