-- ===== src/Session/Timeout.antt =====
-- Client sessions whose server is silent: `ClientSession::onUpdate` in
-- Source/ClientServerProtocol.cpp.
use conntop.Prelude.{
  ℕ, zero, suc, ◌<◌, ◌^◌, ◌≡◌, refl, ◌≢◌, ◌∙◌, ap, false, [], Option, none, some, arith,
}
use conntop.Json.{JsonLib}
use conntop.Protocol.{DisconnectReason, disconnected}
use conntop.Protocol.Message.{Surroundings}
use conntop.Session.Client
use conntop.Session.Client.{ClientSession, ClientCallback}

-- `f` called `n` times.
abbrev pub times {ℓ} : {A : Type ℓ} → ℕ → (A → A) → A → A
times zero f a = a
times (suc n) f a = times n f (f a)

times-suc {ℓ} : {A : Type ℓ} (n : ℕ) (f : A → A) (a : A) → times (suc n) f a ≡ f (times n f a)
times-suc zero f a = refl
times-suc (suc n) f a = times-suc n f (f a)

module _ (J : JsonLib) {W : Type 0} (cb : ClientCallback (J.Value) W) (e : Surroundings) where
  client_step :
      (n : ℕ) (w : W) (s : ClientSession)
      → suc n < 2 ^ 31
      → s.session_ttl ≡ suc n
      → s.state ≢ disconnected
      → Client.on_update J cb e (w, s) ≡ (w, record s { session_ttl = n })
  unfolding Client.on_update
  client_step n w s h p nd = ground arith

  client_waits :
      (n : ℕ) (w : W) (s : ClientSession)
      → n < 2 ^ 31
      → s.session_ttl ≡ n
      → s.state ≢ disconnected
      → times n (Client.on_update J cb e) (w, s) ≡ (w, record s { session_ttl = 0 })
  client_waits zero w s h p nd = λ i. (w, record s { session_ttl = p i })
  client_waits (suc n) w s h p nd =
      rw (client_step n w s h p nd)
        (client_waits n w (record s { session_ttl = n }) (omega arith) refl nd)

  -- The session after `quickDisconnect` with TIMEOUT and without a text.
  abbrev timed_out : ClientSession → ClientSession
  timed_out s = record s {
    socket = none;
    poll = elim s.socket [ none ↦ s.poll | some _ ↦ none ];
    session_ttl = 0;
    state = disconnected;
    is_connection_established = false;
    send_queue = [];
    disconnect_reason = DisconnectReason.timeout;
    disconnect_error = [];
  }

  disconnects :
      (w : W) (s : ClientSession) (socket : Option ℕ)
      → s.socket ≡ socket
      → s.session_ttl ≡ 0
      → s.state ≢ disconnected
      → Client.on_update J cb e (w, s) ≡ cb.on_session_disconnect (w, timed_out s)
  unfolding Client.on_update Client.quick_disconnect
  disconnects w s none f p nd = ground arith
  disconnects w s (some fd) f p nd = ground arith

  -- A client session that is not disconnected, with n updates to live (n below 2^31) and no other
  -- call, only counts down for n updates, and the next one disconnects it: the socket, where there
  -- is one, is closed and no longer registered, the queue is empty, the state is disconnected with
  -- the reason TIMEOUT and no text, and the owner is told.
  pub client_times_out :
      (n : ℕ) (w : W) (s : ClientSession)
      → n < 2 ^ 31
      → s.session_ttl ≡ n
      → s.state ≢ disconnected
      → (times n (Client.on_update J cb e) (w, s) ≡ (w, record s { session_ttl = 0 }))
        × (times (suc n) (Client.on_update J cb e) (w, s)
            ≡ cb.on_session_disconnect (
              w,
              record s {
                socket = none;
                poll = elim s.socket [ none ↦ s.poll | some _ ↦ none ];
                session_ttl = 0;
                state = disconnected;
                is_connection_established = false;
                send_queue = [];
                disconnect_reason = DisconnectReason.timeout;
                disconnect_error = [];
              },
            ))
  client_times_out n w s h p nd = (
    client_waits n w s h p nd,
    times-suc n (Client.on_update J cb e) (w, s)
        ∙ ap (Client.on_update J cb e) (client_waits n w s h p nd)
        ∙ disconnects w (record s { session_ttl = 0 }) s.socket refl refl nd,
  )
