-- ===== src/Server/Udp/Flows/Turnover.antt =====
-- Sweeps of a `FlowTable`, one after another: enough of them visit every flow.
use mathlib.Core.List.{append_assoc}
use rustgo.Prelude.{
  ℕ, zero, suc, ◌*◌, ◌≤◌, false, List, [], ◌∷◌, ◌++◌, length, length-drop, take, drop,
  drop-append_left, take-append_left, leb, ◌≡◌, inl, inr, Bool-cases, arith,
}
use rustgo.Server.Udp.Flows.{FlowTable, sweep_expired}
use rustgo.Server.Udp.Flows.Queue.{Queue, Refines}
use rustgo.Server.Udp.Flows.Sweep.{idle, busy, sweep_expired-Refines}

-- The sweeps at the times of a list, each of at most `maximum` flows.
unfoldable pub sweeps : (idle_timeout maximum : ℕ) → FlowTable → (times : List ℕ) → FlowTable
unfolding sweep_expired
sweeps idle_timeout maximum t [] = t
sweeps idle_timeout maximum t (now ∷ times) =
    sweeps idle_timeout maximum (sweep_expired t now idle_timeout maximum).1 times

unfoldable pub queue_sweeps : (idle_timeout maximum : ℕ) → Queue → (times : List ℕ) → Queue
unfolding busy
queue_sweeps idle_timeout maximum q [] = q
queue_sweeps idle_timeout maximum q (now ∷ times) =
    queue_sweeps idle_timeout maximum (drop maximum q ++ busy now idle_timeout (take maximum q))
      times

pub sweeps-Refines :
    (idle_timeout maximum : ℕ) (t : FlowTable) (q : Queue) (times : List ℕ)
    → Refines t q
    → Refines (sweeps idle_timeout maximum t times) (queue_sweeps idle_timeout maximum q times)
unfolding sweeps queue_sweeps
sweeps-Refines idle_timeout maximum t q [] r = r
sweeps-Refines idle_timeout maximum t q (now ∷ times) r =
    sweeps-Refines idle_timeout maximum (sweep_expired t now idle_timeout maximum).1
      (drop maximum q ++ busy now idle_timeout (take maximum q)) times
      (sweep_expired-Refines t q now idle_timeout maximum r).1

-- No flow of the queue was idle for the timeout at the time.
unfoldable pub AllBusy : (now idle_timeout : ℕ) → Queue → Type 0
AllBusy now idle_timeout [] = Unit
AllBusy now idle_timeout (f ∷ q) = (idle now idle_timeout f ≡ false) × AllBusy now idle_timeout q

AllBusy-append :
    (now idle_timeout : ℕ) (q r : Queue)
    → AllBusy now idle_timeout q
    → AllBusy now idle_timeout r
    → AllBusy now idle_timeout (q ++ r)
unfolding AllBusy
AllBusy-append now idle_timeout [] r a b = b
AllBusy-append now idle_timeout (f ∷ q) r a b = (a.0, AllBusy-append now idle_timeout q r a.1 b)

AllBusy-drop :
    (now idle_timeout n : ℕ) (q : Queue)
    → AllBusy now idle_timeout q
    → AllBusy now idle_timeout (drop n q)
unfolding AllBusy
AllBusy-drop now idle_timeout zero q a = a
AllBusy-drop now idle_timeout (suc n) [] a = tt
AllBusy-drop now idle_timeout (suc n) (f ∷ q) a = AllBusy-drop now idle_timeout n q a.1

-- A flow that a later sweep leaves was not idle before.
AllBusy-busy :
    (start now idle_timeout : ℕ) (q : Queue)
    → start ≤ now
    → AllBusy start idle_timeout (busy now idle_timeout q)
unfolding AllBusy busy
AllBusy-busy start now idle_timeout [] h = tt
AllBusy-busy start now idle_timeout (f ∷ q) h = elim (Bool-cases (idle now idle_timeout f)) [
  | inl old ↦ rw old (AllBusy-busy start now idle_timeout q h)
  | inr fresh ↦ rw fresh (ground arith, AllBusy-busy start now idle_timeout q h)
]

-- Every time of the list is at `start` or later.
unfoldable pub AllFrom : (start : ℕ) → List ℕ → Type 0
AllFrom start [] = Unit
AllFrom start (now ∷ times) = (start ≤ now) × AllFrom start times

AllBusy-drop_past :
    (now idle_timeout n : ℕ) (u v : Queue)
    → length u ≤ n
    → AllBusy now idle_timeout v
    → AllBusy now idle_timeout (drop n (u ++ v))
AllBusy-drop_past now idle_timeout n [] v h a = AllBusy-drop now idle_timeout n v a
AllBusy-drop_past now idle_timeout zero (f ∷ u) v h a = absurd (omega arith)
AllBusy-drop_past now idle_timeout (suc n) (f ∷ u) v h a =
    AllBusy-drop_past now idle_timeout n u v (omega arith) a

-- A sweep of `maximum` flows takes that many off those that are still to be visited.
pub queue_sweeps-AllBusy :
    (start idle_timeout maximum : ℕ) (times : List ℕ) (u v : Queue)
    → AllFrom start times
    → length u ≤ length times * maximum
    → AllBusy start idle_timeout v
    → AllBusy start idle_timeout (queue_sweeps idle_timeout maximum (u ++ v) times)
unfolding queue_sweeps AllFrom
queue_sweeps-AllBusy start idle_timeout maximum [] [] v from h a = a
queue_sweeps-AllBusy start idle_timeout maximum [] (f ∷ u) v from h a = absurd (omega arith)
queue_sweeps-AllBusy start idle_timeout maximum (now ∷ times) u v from h a =
    let m = maximum in
    elim (Bool-cases (leb m (length u))) [
      | inl fits ↦
          let enough : m ≤ length u = ground arith in
          let left : length (drop m u) ≤ length times * m = omega (arith, length-drop m u, h) in
          rw
            (
              drop-append_left m u v enough,
              take-append_left m u v enough,
              append_assoc (drop m u) v (busy now idle_timeout (take m u)),
            )
            (queue_sweeps-AllBusy start idle_timeout m times (drop m u)
              (v ++ busy now idle_timeout (take m u)) from.1 left
              (AllBusy-append start idle_timeout v _ a
                (AllBusy-busy start now idle_timeout (take m u) from.0)))
      | inr short ↦
          queue_sweeps-AllBusy start idle_timeout m times []
            (drop m (u ++ v) ++ busy now idle_timeout (take m (u ++ v))) from.1 (omega arith)
            (AllBusy-append start idle_timeout (drop m (u ++ v)) _
              (AllBusy-drop_past start idle_timeout m u v (ground arith) a)
              (AllBusy-busy start now idle_timeout (take m (u ++ v)) from.0))
    ]
