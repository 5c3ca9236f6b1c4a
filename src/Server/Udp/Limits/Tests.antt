-- ===== src/Server/Udp/Limits/Tests.antt =====
-- A tunnel that sweeps twice before its timeout is over.
use rustgo.Prelude.{◌≤◌, true, none, some, [], ◌∷◌, length, ok, err, ◌≡◌, refl, arith}
use rustgo.Prelude.Dict.{get}
use rustgo.Server.Udp.Address.{v4}
use rustgo.Server.Udp.Flows.{FlowKey, FlowTable, new_table}
use rustgo.Server.Udp.Flows.Queue.{Queue, find_key, Refines}
use rustgo.Server.Udp.Flows.Queries.{new_table-Refines}
use rustgo.Server.Udp.Flows.Trace.{Call, open_session, call, queue_call, call-Refines}
use rustgo.Server.Udp.Flows.Turnover.{sweeps, AllBusy, AllFrom}
use rustgo.Server.Udp.Limits.{
  UdpRuntimeLimits, invalid_limits, is_valid, open_channel, minimum_sweep_batch,
  effective_sweep_batch,
}
use rustgo.Server.Udp.Limits.Expiry.{sweeps-expire}

abbrev limits : UdpRuntimeLimits
limits = record {
  queue_capacity = 16;
  idle_timeout = 20000000;
  sweep_interval = 10000000;
  sweep_batch = 1;
  writer_delay = 0;
  test_disconnect_after_replies = none;
}

valid_test : is_valid limits ≡ true
unfolding is_valid
valid_test = refl

batch_test : effective_sweep_batch limits 2 ≡ ok 1
unfolding effective_sweep_batch
batch_test = refl

million_test : minimum_sweep_batch 1000000 60000000000 1000000000 ≡ some 16667
unfolding minimum_sweep_batch
million_test = refl

too_many_test : open_channel limits 1 2 [] 1000001 512 ≡ err invalid_limits
unfolding open_channel
too_many_test = refl

abbrev flow : FlowKey
flow = record { source = v4 (192 ∷ 0 ∷ 2 ∷ 1 ∷ []) 1000; destination = v4 (10 ∷ 0 ∷ 0 ∷ 1 ∷ []) 53 }

abbrev opening : Call
opening = open_session (λ i. some 7) 100 flow 5

abbrev table : FlowTable
table = (call (new_table 2 true) opening).1

abbrev queue : Queue
queue = (queue_call 2 true [] opening).1

table-Refines : Refines table queue
unfolding new_table
table-Refines = (call-Refines (new_table 2 true) [] opening (new_table-Refines 2 true)).1

fits : length queue ≤ table.capacity
unfolding call queue_call new_table find_key get
fits = omega arith

batch : effective_sweep_batch limits table.capacity ≡ ok 1
unfolding call new_table effective_sweep_batch get
batch = refl

from : AllFrom 30000000 (30000000 ∷ 40000000 ∷ [])
unfolding AllFrom
from = (omega arith, (omega arith, tt))

sweeps-expire_example :
    (rest : Queue) × Refines (sweeps 20000000 1 table (30000000 ∷ 40000000 ∷ [])) rest
    × AllBusy 30000000 20000000 rest
sweeps-expire_example =
    sweeps-expire limits table queue 1 30000000 (30000000 ∷ 40000000 ∷ []) table-Refines fits batch
      refl from
