-- ===== src/Server/Udp/Flows/Tests.antt =====
-- Two flows of one tunnel, their table, and what is done with it.
use rustgo.Prelude.{
  ℕ, zero, suc, ◌≤◌, true, false, Option, none, some, List, [], ◌∷◌, ◌++◌, length, take, drop, ok,
  err, ◌≡◌, refl,
}
use rustgo.Prelude.Dict.{get, insert, modify}
use rustgo.Protocol.Payload.Tunnel.{SocketAddress}
use rustgo.Server.Udp.Address.{
  SocketAddr, v4, v6, same_address, socket_addr_from_wire, wire_socket_addr,
}
use rustgo.Server.Udp.Flows.{
  FlowKey, same_flow, FlowTable, expired_flow, capacity_error, entropy_unavailable, new_table,
  sweep_expired,
}
use rustgo.Server.Udp.Flows.Queue.{Queue, Refines}
use rustgo.Server.Udp.Flows.Sweep.{idle_flows, busy, sweep_expired-Refines}
use rustgo.Server.Udp.Flows.Queries.{new_table-Refines}
use rustgo.Server.Udp.Flows.Trace.{
  Call, open_session, take_reply, retire, expire, look_up_traffic, count, clear_all, session,
  reply_taken, retired, expired, traffic, counted, cleared, call, queue_call, answers,
  queue_answers, run_calls, call-Refines, answers-queue_answers, run_calls-capacity,
}

abbrev peer : ℕ → SocketAddr
peer port = v4 (192 ∷ 0 ∷ 2 ∷ 1 ∷ []) port

abbrev target : SocketAddr
target = v4 (10 ∷ 0 ∷ 0 ∷ 1 ∷ []) 53

abbrev flow : ℕ → FlowKey
flow port = record { source = peer port; destination = target }

-- The first draw is 0, the second is taken by the first session, and the third is new.
abbrev draw : ℕ → Option ℕ
draw zero = some 0
draw (suc zero) = some 7
draw (suc (suc i)) = some 9

abbrev no_draw : ℕ → Option ℕ
no_draw i = none

abbrev calls : List Call
calls =
    open_session draw 100 (flow 1000) 5
    ∷ open_session draw 200 (flow 2000) 6
    ∷ open_session draw 100 (flow 1000) 30
    ∷ open_session draw 100 (flow 3000) 31
    ∷ take_reply 9 (peer 2000) target 12
    ∷ take_reply 9 (peer 1000) target 13
    ∷ look_up_traffic 9
    ∷ expire 40 20 64
    ∷ retire 9
    ∷ look_up_traffic 9
    ∷ open_session no_draw 300 (flow 3000) 41
    ∷ count
    ∷ retire 7
    ∷ open_session draw 100 (flow 1000) 42
    ∷ clear_all
    ∷ count
    ∷ []

answers_test :
    answers (new_table 2 true) calls
    ≡ session (ok (7, true))
      ∷ session (ok (9, true))
      ∷ session (ok (7, false))
      ∷ session (err capacity_error)
      ∷ reply_taken true
      ∷ reply_taken false
      ∷ traffic (some 200)
      ∷ expired (ok (expired_flow 9 (some 200) ∷ []))
      ∷ retired false
      ∷ traffic none
      ∷ session (err entropy_unavailable)
      ∷ counted 1
      ∷ retired true
      ∷ session (ok (7, true))
      ∷ cleared
      ∷ counted 0
      ∷ []
unfolding answers new_table get insert same_flow modify
answers_test = refl

answers-queue_answers_example : answers (new_table 2 true) calls ≡ queue_answers 2 true [] calls
answers-queue_answers_example = answers-queue_answers 2 true calls

run_calls-capacity_example : length (run_calls (new_table 2 true) calls).by_id ≤ 2
run_calls-capacity_example = run_calls-capacity 2 true calls

abbrev one_flow : FlowTable
one_flow = (call (new_table 2 true) (open_session draw 100 (flow 1000) 5)).1

abbrev one_queue : Queue
one_queue = (queue_call 2 true [] (open_session draw 100 (flow 1000) 5)).1

one_flow-Refines : Refines one_flow one_queue
unfolding new_table
one_flow-Refines =
    (call-Refines (new_table 2 true) [] (open_session draw 100 (flow 1000) 5)
      (new_table-Refines 2 true)).1

abbrev two_flows : FlowTable
two_flows = (call one_flow (open_session draw 200 (flow 2000) 30)).1

abbrev two_queue : Queue
two_queue =
    (queue_call one_flow.capacity one_flow.observe_traffic one_queue
      (open_session draw 200 (flow 2000) 30)).1

two_flows-Refines : Refines two_flows two_queue
two_flows-Refines =
    (call-Refines one_flow one_queue (open_session draw 200 (flow 2000) 30) one_flow-Refines).1

sweep_expired-Refines_example :
    ((sweep_expired two_flows 40 20 64).0 ≡ ok (idle_flows 40 20 (take 64 two_queue)))
    × Refines
        (sweep_expired two_flows 40 20 64).1
        (drop 64 two_queue ++ busy 40 20 (take 64 two_queue))
sweep_expired-Refines_example = sweep_expired-Refines two_flows two_queue 40 20 64 two_flows-Refines

-- What an address becomes on the wire and back.
abbrev address_back : SocketAddr → SocketAddr
unfolding socket_addr_from_wire wire_socket_addr
address_back a = elim (socket_addr_from_wire (wire_socket_addr a)) [ none ↦ a | some b ↦ b ]

-- A peer with a link-local address, whose scope the wire does not carry.
abbrev link_local : SocketAddr
link_local = v6 (254 ∷ 128 ∷ 0 ∷ 0 ∷ 0 ∷ 0 ∷ 0 ∷ 0 ∷ 0 ∷ 0 ∷ 0 ∷ 0 ∷ 0 ∷ 0 ∷ 0 ∷ 1 ∷ []) 1000 0 3

-- The reply to it names another address than the one that its flow is known by, and is refused.
link_local_test :
    answers (new_table 2 false) (
      open_session draw 100 (record { source = link_local; destination = target }) 5
      ∷ take_reply 7 (address_back link_local) target 6
      ∷ [])
    ≡ session (ok (7, true)) ∷ reply_taken false ∷ []
unfolding answers new_table get insert same_flow modify same_address address_back
link_local_test = refl

-- A mapped address of version 4 is known by its four octets.
mapped_test :
    wire_socket_addr
      (v6 (0 ∷ 0 ∷ 0 ∷ 0 ∷ 0 ∷ 0 ∷ 0 ∷ 0 ∷ 0 ∷ 0 ∷ 255 ∷ 255 ∷ 10 ∷ 0 ∷ 0 ∷ 1 ∷ []) 53 0 0)
    ≡ SocketAddress.v4 (10 ∷ 0 ∷ 0 ∷ 1 ∷ []) 53
unfolding wire_socket_addr
mapped_test = refl
