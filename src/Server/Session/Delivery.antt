-- ===== src/Server/Session/Delivery.antt =====
-- A data channel that was prepared is delivered to the one that prepared it, once; a cancelled one is not.
use rustgo.Prelude.{
  ℕ, ◌<◌, true, false, none, some, length, ltb, ==_iff, ok, Result-cases, ◌≡◌, inl, inr, refl, ◌∙◌,
  sym, ap, arith,
}
use rustgo.Prelude.Bytes.{Bytes, eq_bytes_refl, bytes_key}
use rustgo.Prelude.Dict.{Dict, get, insert, erase, nat_key, get-insert, get-erase}
use rustgo.Protocol.Version.{ProtocolVersion}
use rustgo.Protocol.Payload.Tunnel.{DataChannelBind}
use rustgo.Transport.Binding.{
  tcp, same_kind, same_kind_iff, ChannelBinding, PendingBinding, ChannelBindingStore, recognizes,
  issue, revoke, redeem,
}
use rustgo.Transport.Binding.Redeem.{redeem_ok_iff, redeem-erase}
use rustgo.Transport.Binding.Issue.{issue-redeem, issue-pending}
use rustgo.Server.Session.{
  max_connection_id_attempts, Pending, SessionRuntime, Surroundings, fresh_id, prepare_tcp,
  cancel_pending, data_channel_tcp, same_version, redeem_if_present,
}

-- The request of a client that was asked to open the TCP channel.
abbrev pub tcp_request :
    (client session : Bytes) → (tunnel_id connection_id : ℕ) → (token : Bytes) → DataChannelBind
tcp_request client session tunnel_id connection_id token = record {
  client_name = client;
  session_id = session;
  kind = data_channel_tcp;
  tunnel_id = tunnel_id;
  target_id = connection_id;
  binding_token = token;
}

abbrev pub expected : ℕ → ℕ → Bytes → (destination : ℕ) → Pending
expected tunnel_id id token destination = record {
  channel_kind = tcp tunnel_id id;
  binding_token = token;
  destination = destination;
}

-- The session once a channel is prepared.
abbrev awaiting :
    Surroundings → SessionRuntime → (tunnel_id id : ℕ) → Bytes → (destination : ℕ) → SessionRuntime
awaiting s self tunnel_id id token destination = record self {
  bindings = record self.bindings {
    store = (issue s.checked_add s.tokens s.now self.bindings.store (tcp tunnel_id id)).1;
    pending_tcp = insert self.bindings.pending_tcp id (expected tunnel_id id token destination);
  };
}

prepare_tcp-awaiting :
    (s : Surroundings) (self : SessionRuntime) (tunnel_id destination id : ℕ) (token : Bytes)
    → (prepare_tcp s self tunnel_id destination).0 ≡ ok (id, token)
    → ((issue s.checked_add s.tokens s.now self.bindings.store (tcp tunnel_id id)).0 ≡ ok token)
      × ((prepare_tcp s self tunnel_id destination).1
          ≡ awaiting s self tunnel_id id token destination)
unfolding prepare_tcp
prepare_tcp-awaiting s self tunnel_id destination id token =
    elim (Result-cases
      (fresh_id max_connection_id_attempts s.identifiers 0 self.bindings.pending_tcp)) [
        | inr (e, failed) ↦ rw (prepare_tcp, failed) (λ h. ground arith)
        | inl (new, drew) ↦
            elim (Result-cases
              (issue s.checked_add s.tokens s.now self.bindings.store (tcp tunnel_id new)).0) [
                | inr (e, failed) ↦ rw (prepare_tcp, drew, failed) (λ h. ground arith)
                | inl (t, issued) ↦
                    rw (prepare_tcp, drew, issued)
                      (λ h.
                        let same_id : new ≡ id = ground arith in
                        let same_token : t ≡ token = ground arith in
                        (
                          ap
                                (λ k.
                                  (issue s.checked_add s.tokens s.now self.bindings.store
                                    (tcp tunnel_id k)).0)
                                (sym same_id)
                              ∙ issued
                              ∙ ap ok same_token,
                          ap (λ k. awaiting s self tunnel_id k t destination) same_id
                              ∙ ap (λ k. awaiting s self tunnel_id id k destination) same_token,
                        ))
              ]
      ]

-- The session once the channel `id` of a token is delivered.
abbrev pub delivered : SessionRuntime → (id : ℕ) → Bytes → SessionRuntime
delivered self id token = record self {
  bindings = record self.bindings {
    store = record self.bindings.store { pending = erase self.bindings.store.pending token };
    pending_tcp = erase self.bindings.pending_tcp id;
  };
}

recognizes-pending :
    (store : ChannelBindingStore) (token : Bytes) (p : PendingBinding)
    → length token ≡ 32
    → get store.pending token ≡ some p
    → recognizes store token ≡ true
unfolding recognizes
recognizes-pending store token p size at = rw (recognizes, at) (ground arith)

redeem_if_present-unknown :
    (now : ℕ) (self : SessionRuntime) (request : DataChannelBind) (version : ProtocolVersion)
    → get self.bindings.store.pending request.binding_token ≡ none
    → (redeem_if_present now self request version).0 ≡ none
unfolding redeem_if_present recognizes
redeem_if_present-unknown now self request version gone =
    let unknown : recognizes self.bindings.store request.binding_token ≡ false =
      rw (recognizes, gone) (ground arith) in
    rw (redeem_if_present, unknown) refl

redeem_if_present-delivered :
    (now : ℕ) (self : SessionRuntime) (client session : Bytes) (tunnel_id id : ℕ) (token : Bytes)
    (destination : ℕ) (bound : ChannelBinding)
    → (redeem now self.bindings.store client session (tcp tunnel_id id) token).0 ≡ ok bound
    → get self.bindings.pending_tcp id ≡ some (expected tunnel_id id token destination)
    → redeem_if_present now self
        (tcp_request client session tunnel_id id token)
        self.protocol_version
      ≡ (some (ok (bound, destination)), delivered self id token)
unfolding redeem_if_present
redeem_if_present-delivered now self client session tunnel_id id token destination bound granted
      at =
    let store = self.bindings.store in
    let (size, found) =
      (redeem_ok_iff now store client session (tcp tunnel_id id) token bound).0 granted in
    let (p, is, _, _, _, _, _) = found in
    let known = recognizes-pending store token p size is in
    let version : same_version self.protocol_version self.protocol_version ≡ true = ground arith in
    let kind : same_kind (tcp tunnel_id id) (tcp tunnel_id id) ≡ true =
      (same_kind_iff (tcp tunnel_id id) (tcp tunnel_id id)).1 refl in
    let left : (redeem now store client session (tcp tunnel_id id) token).1
        ≡ record store { pending = erase store.pending token } =
      redeem-erase now store client session (tcp tunnel_id id) token ∙ rw size refl in
    rw (redeem_if_present, known, version, granted, at, kind, left) refl

get-erase_same : (d : Dict Bytes PendingBinding) (token : Bytes) → get (erase d token) token ≡ none
get-erase_same d token = get-erase d token token ∙ rw (eq_bytes_refl token) refl

-- A TCP channel that was prepared is delivered: the client's request for it, made in the version of its
-- session and before its token expires, finds the channel's destination. Whatever request, of whatever
-- client, session and channel, presents that token next, at whatever time and in whatever version, finds
-- nothing. The drawn tokens are assumed to have 32 bytes.
pub prepare_tcp-redeem_if_present :
    (s : Surroundings) (self : SessionRuntime) (tunnel_id destination id : ℕ) (token : Bytes)
    (expires_at later again : ℕ) (again_request : DataChannelBind) (version : ProtocolVersion)
    → ((i : ℕ) (drawn : Bytes) → s.tokens i ≡ some drawn → length drawn ≡ 32)
    → (prepare_tcp s self tunnel_id destination).0 ≡ ok (id, token)
    → s.checked_add s.now self.bindings.store.time_to_live ≡ some expires_at
    → later < expires_at
    → again_request.binding_token ≡ token
    → (let client = self.bindings.store.client_id in
        let session = self.bindings.store.session_id in
        let request = tcp_request client session tunnel_id id token in
        let answer =
          redeem_if_present later
            (prepare_tcp s self tunnel_id destination).1
            request
            self.protocol_version in
        (answer.0
          ≡ some (
              ok (
                record {
                  client_id = client;
                  session_id = session;
                  channel_kind = tcp tunnel_id id;
                },
                destination,
              )))
        × ((redeem_if_present again answer.1 again_request version).0 ≡ none))
prepare_tcp-redeem_if_present s self tunnel_id destination id token expires_at later again
      again_request version sized prepared sum early presents =
    let store = self.bindings.store in
    let (issued, is) = prepare_tcp-awaiting s self tunnel_id destination id token prepared in
    let (_, _, outcome) =
      issue-redeem s.checked_add s.tokens s.now store (tcp tunnel_id id) token expires_at later
        sized issued sum in
    let on_time : ltb later expires_at ≡ true = ground arith in
    let after = awaiting s self tunnel_id id token destination in
    let bound : ChannelBinding = record {
      client_id = store.client_id;
      session_id = store.session_id;
      channel_kind = tcp tunnel_id id;
    } in
    let waiting =
      get-insert self.bindings.pending_tcp id id (expected tunnel_id id token destination)
      ∙ rw ((==_iff id id).1 refl) refl in
    let answer =
      redeem_if_present-delivered later after store.client_id store.session_id tunnel_id id token
        destination bound (outcome ∙ rw on_time refl) waiting in
    rw (is, answer)
      (
        refl,
        redeem_if_present-unknown again (delivered after id token) again_request version
            (rw presents (get-erase_same after.bindings.store.pending token)),
      )

cancel_pending-found :
    (self : SessionRuntime) (tunnel_id id : ℕ) (token : Bytes) (destination : ℕ)
    (p : PendingBinding)
    → length token ≡ 32
    → get self.bindings.pending_tcp id ≡ some (expected tunnel_id id token destination)
    → get self.bindings.store.pending token ≡ some p
    → p.channel_kind ≡ tcp tunnel_id id
    → cancel_pending self id ≡ delivered self id token
unfolding cancel_pending revoke
cancel_pending-found self tunnel_id id token destination p size at is kind =
    let same : same_kind p.channel_kind (tcp tunnel_id id) ≡ true =
      (same_kind_iff p.channel_kind (tcp tunnel_id id)).1 kind in
    rw (cancel_pending, at, revoke, is, same, size) refl

-- A TCP channel that was prepared and then cancelled is not delivered: whatever request presents its
-- token, at whatever time, finds nothing. The drawn tokens are assumed to have 32 bytes.
pub prepare_tcp-cancel_pending :
    (s : Surroundings) (self : SessionRuntime) (tunnel_id destination id : ℕ) (token : Bytes)
    (later : ℕ) (request : DataChannelBind) (version : ProtocolVersion)
    → ((i : ℕ) (drawn : Bytes) → s.tokens i ≡ some drawn → length drawn ≡ 32)
    → (prepare_tcp s self tunnel_id destination).0 ≡ ok (id, token)
    → request.binding_token ≡ token
    → (redeem_if_present later
        (cancel_pending (prepare_tcp s self tunnel_id destination).1 id)
        request
        version).0
      ≡ none
prepare_tcp-cancel_pending s self tunnel_id destination id token later request version sized
      prepared presents =
    let (issued, is) = prepare_tcp-awaiting s self tunnel_id destination id token prepared in
    let after = awaiting s self tunnel_id id token destination in
    let (p, size, held, kind) =
      issue-pending s.checked_add s.tokens s.now self.bindings.store (tcp tunnel_id id) token sized
        issued in
    let waiting =
      get-insert self.bindings.pending_tcp id id (expected tunnel_id id token destination)
      ∙ rw ((==_iff id id).1 refl) refl in
    rw (is, cancel_pending-found after tunnel_id id token destination p size waiting held kind)
      (redeem_if_present-unknown later (delivered after id token) request version
        (rw presents (get-erase_same after.bindings.store.pending token)))
