-- ===== src/Server/Udp/Limits/Expiry.antt =====
-- The sweeps of one timeout visit every session of a UDP tunnel.
use Prim.Native.Nat.{max}
use native.Mathlib.Nat.{div-add-mod, mod-lt, mul-le-mul_left}
use rustgo.Prelude.{
  ℕ, zero, ◌*◌, ◌%◌, ◌≤◌, ◌<◌, some, List, [], length, ◌==◌, ok, ◌≡◌, inl, inr, subst, Bool-cases,
  Option-cases, arith,
}
use mathlib.Core.List.{append-nil}
use rustgo.Server.Udp.Flows.{FlowTable}
use rustgo.Server.Udp.Flows.Queue.{Queue, Refines}
use rustgo.Server.Udp.Flows.Turnover.{
  sweeps, queue_sweeps, sweeps-Refines, AllBusy, AllFrom, queue_sweeps-AllBusy,
}
use rustgo.Server.Udp.Limits.{
  UdpRuntimeLimits, div_ceil, sweeps_before_timeout, minimum_sweep_batch, effective_sweep_batch,
}

div_ceil_bound : (a b : ℕ) → zero < b → a ≤ b * div_ceil a b
div_ceil_bound a b positive =
    let whole = div-add-mod a b in
    let part = mod-lt a positive in
    elim (Bool-cases (a % b == 0)) [
      | inl even ↦ rw even (ground (arith, whole))
      | inr odd ↦ rw odd (omega (arith, whole, part))
    ]

minimum_sweep_batch-bound :
    (capacity idle_timeout sweep_interval minimum : ℕ)
    → minimum_sweep_batch capacity idle_timeout sweep_interval ≡ some minimum
    → capacity ≤ sweeps_before_timeout idle_timeout sweep_interval * minimum
unfolding minimum_sweep_batch
minimum_sweep_batch-bound capacity idle_timeout sweep_interval minimum h =
    let n = sweeps_before_timeout idle_timeout sweep_interval in
    let is : div_ceil capacity n ≡ minimum = ground arith in
    subst (λ k. capacity ≤ n * k) is (div_ceil_bound capacity n (omega arith))

effective_sweep_batch-bound :
    (limits : UdpRuntimeLimits) (capacity batch : ℕ)
    → effective_sweep_batch limits capacity ≡ ok batch
    → capacity ≤ sweeps_before_timeout limits.idle_timeout limits.sweep_interval * batch
unfolding effective_sweep_batch
effective_sweep_batch-bound limits capacity batch h =
    elim (Option-cases (minimum_sweep_batch capacity limits.idle_timeout limits.sweep_interval)) [
      | inl none_is ↦ absurd (ground arith)
      | inr (minimum, is) ↦
          let n = sweeps_before_timeout limits.idle_timeout limits.sweep_interval in
          let least =
            minimum_sweep_batch-bound capacity limits.idle_timeout limits.sweep_interval minimum
              is in
          let chosen : max limits.sweep_batch minimum ≡ batch = ground arith in
          let wide : minimum ≤ batch = omega arith in
          let grown : n * minimum ≤ n * batch = mul-le-mul_left n wide in omega arith
    ]

-- Let a table that stands for a queue within its capacity be swept with the batch that the limits give
-- for this capacity, as often as the sweep interval fits into the idle timeout, once at least, and never
-- before the time `start`. Then no session that was idle for the timeout at `start` is left in the table,
-- which goes on to stand for a queue.
pub sweeps-expire :
    (limits : UdpRuntimeLimits) (t : FlowTable) (q : Queue) (batch start : ℕ) (times : List ℕ)
    → Refines t q
    → length q ≤ t.capacity
    → effective_sweep_batch limits t.capacity ≡ ok batch
    → length times ≡ sweeps_before_timeout limits.idle_timeout limits.sweep_interval
    → AllFrom start times
    → (rest : Queue) × Refines (sweeps limits.idle_timeout batch t times) rest
      × AllBusy start limits.idle_timeout rest
unfolding AllBusy
sweeps-expire limits t q batch start times r room batch_is enough from =
    let bound = effective_sweep_batch-bound limits t.capacity batch batch_is in
    let idle_timeout = limits.idle_timeout in
    let whole : length q ≤ length times * batch = rw enough (omega (arith, bound, room)) in
    (
      queue_sweeps idle_timeout batch q times,
      sweeps-Refines idle_timeout batch t q times r,
      subst (λ p. AllBusy start idle_timeout (queue_sweeps idle_timeout batch p times))
          (append-nil q) (queue_sweeps-AllBusy start idle_timeout batch times q [] from whole tt),
    )
