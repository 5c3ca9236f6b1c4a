-- ===== src/Server/Session/Tests.antt =====
-- A session that prepares the TCP channel 5 of its tunnel 1.
use rustgo.Prelude.{
  ℕ, zero, suc, ◌+◌, true, false, Option, none, some, [], ◌∷◌, length, ok, err, ◌≡◌, refl, arith,
}
use rustgo.Prelude.Bytes.{Bytes}
use rustgo.Prelude.Dict.{insert}
use rustgo.Protocol.Version.{ProtocolVersion, new}
use rustgo.Protocol.Payload.Tunnel.{DataChannelBind}
use rustgo.Transport.Binding.{tcp}
use rustgo.Server.Session.{
  SessionRuntime, Redeemed, Surroundings, entropy_unavailable, prepare_tcp, prepare_udp,
  cancel_pending, cancel_pending_udp, redeem_if_present, cancel,
}
use rustgo.Server.Session.Delivery.{
  tcp_request, prepare_tcp-redeem_if_present, prepare_tcp-cancel_pending,
}

abbrev repeated : ℕ → ℕ → Bytes
repeated zero b = []
repeated (suc n) b = b ∷ repeated n b

abbrev drawn : ℕ → Option Bytes
drawn i = some (repeated 32 7)

drawn_sized : (i : ℕ) (token : Bytes) → drawn i ≡ some token → length token ≡ 32
drawn_sized i token h = ground arith

-- The first identifier is 0, and the next ones are 5.
abbrev identifier : ℕ → Option ℕ
identifier zero = some 0
identifier (suc i) = some 5

abbrev at : ℕ → Surroundings
at now = record {
  identifiers = identifier;
  tokens = drawn;
  now = now;
  checked_add = λ a b. some (a + b);
}

abbrev client : Bytes
client = 97 ∷ []

abbrev session : Bytes
session = 1 ∷ 2 ∷ []

abbrev version : ProtocolVersion
version = new 1 6

abbrev runtime : SessionRuntime
runtime = record {
  client = client;
  fingerprint = 98 ∷ [];
  session_id = session;
  bindings = record {
    store = record {
      client_id = client;
      session_id = session;
      capacity = 2;
      time_to_live = 10;
      pending = [];
    };
    pending_tcp = [];
    pending_udp = [];
  };
  cancellation = false;
  available = true;
  binding_ttl = 10;
  protocol_version = version;
}

abbrev waiting : SessionRuntime
waiting = (prepare_tcp (at 100) runtime 1 44).1

abbrev request : DataChannelBind
request = tcp_request client session 1 5 (repeated 32 7)

prepared_test : (prepare_tcp (at 100) runtime 1 44).0 ≡ ok (5, repeated 32 7)
unfolding prepare_tcp
prepared_test = refl

-- The identifier 5 is taken, and there is no other.
taken_test : (prepare_tcp (at 101) waiting 1 45).0 ≡ err entropy_unavailable
unfolding prepare_tcp
taken_test = refl

udp_test :
    (redeem_if_present 105
      (cancel_pending_udp (prepare_udp (at 100) runtime 2 46).1 5)
      request
      version).0
    ≡ none
unfolding prepare_udp cancel_pending_udp redeem_if_present insert
udp_test = refl

cancelled_test : (redeem_if_present 105 (cancel waiting) request version).0 ≡ none
unfolding prepare_tcp cancel redeem_if_present insert
cancelled_test = refl

abbrev answer : Option Redeemed × SessionRuntime
answer = redeem_if_present 109 waiting request version

-- Another client's request with the same token.
abbrev stolen : DataChannelBind
stolen = tcp_request (98 ∷ []) (3 ∷ []) 2 9 (repeated 32 7)

prepare_tcp-redeem_if_present_example :
    (answer.0
      ≡ some (ok (record { client_id = client; session_id = session; channel_kind = tcp 1 5 }, 44)))
    × ((redeem_if_present 109 answer.1 stolen version).0 ≡ none)
prepare_tcp-redeem_if_present_example =
    prepare_tcp-redeem_if_present (at 100) runtime 1 44 5 (repeated 32 7) 110 109 109 stolen version
      drawn_sized prepared_test refl (omega arith) refl

prepare_tcp-cancel_pending_example :
    (redeem_if_present 105 (cancel_pending waiting 5) request version).0 ≡ none
prepare_tcp-cancel_pending_example =
    prepare_tcp-cancel_pending (at 100) runtime 1 44 5 (repeated 32 7) 105 request version
      drawn_sized prepared_test refl
