-- ===== src/Client/Keeps.antt =====
-- The callbacks of `Client` and the session that they may use. Source/Client.cpp.
use conntop.Prelude.{ℕ, Bool, true, false, Option, none, some, if◌then◌else◌, arith}
use conntop.Json.{JsonLib, Result, ok, err}
use conntop.Connection.{Address}
use conntop.Connection.Serialize.{AddressText}
use conntop.Connection.Deserialize.Apply.{UpdateCallback}
use conntop.Session.Client.{ClientSession}
use conntop.Session.Client.Invariant.{IsValid, Keeps, after, request_data-IsValid, connect-IsValid}
use conntop.Client.{
  Client, callback, request_data, stored, connected_at, disconnected_at, finish_data,
  on_session_connection_established, on_session_established, on_session_disconnect,
  on_session_server_tick, on_session_data_status, on_session_data,
}
use conntop.Client.Connect.{Connector, Attempted, try_next}

module _ (J : JsonLib) (T : AddressText) {L : Type 0} (cb : UpdateCallback L)
    (attempt : Address → ℕ → Option ℕ) where
  request_data-keeps :
      (cs : Client L × ClientSession) → IsValid cs.1 → IsValid (request_data J T cb cs).1
  unfolding request_data
  request_data-keeps (c, s) v = request_data-IsValid J _ _ s v

  -- A branch that asks for data, and one that does not.
  either_way :
      (asks : Bool) (c c' : Client L) (s : ClientSession)
      → IsValid s
      → IsValid (if asks then request_data J T cb (c, s) else (c', s)).1
  either_way true c c' s v = request_data-keeps (c, s) v
  either_way false c c' s v = v

  finish_data-keeps :
      (cs : Client L × ClientSession) → IsValid cs.1 → IsValid (finish_data J T cb cs).1
  unfolding finish_data
  finish_data-keeps (c, s) v = either_way _ _ _ s v

  stored-keeps :
      (c : Client L) (s : ClientSession) (r : Result (Unit {0}) × L)
      → IsValid s
      → IsValid (after (stored J T cb c s r))
  unfolding stored
  stored-keeps c s (err text, l) v = v
  stored-keeps c s (ok u, l) v = finish_data-keeps _ v

  connected_at-keeps :
      (r : Option Attempted × Connector) (cs : Client L × ClientSession)
      → IsValid cs.1
      → IsValid (connected_at J T cb attempt r cs).1
  unfolding connected_at
  connected_at-keeps (r, k) (c, s) v = grind (arith, connect-IsValid)

  disconnected_at-keeps :
      (k : Option Connector) (cs : Client L × ClientSession)
      → IsValid cs.1
      → IsValid (disconnected_at J T cb attempt k cs).1
  unfolding disconnected_at
  disconnected_at-keeps none cs v = v
  disconnected_at-keeps (some k) cs v = connected_at-keeps (try_next attempt k) cs v

  tick-keeps :
      (c : Client L) (s : ClientSession)
      → IsValid s
      → IsValid (on_session_server_tick J T cb (c, s)).1
  unfolding on_session_server_tick
  tick-keeps c s v = grind (arith, request_data-keeps)

  data-keeps :
      (t : ℕ) (b : Bool) (x : J.Value) (c : Client L) (s : ClientSession)
      → IsValid s
      → IsValid (after (on_session_data J T cb t b x (c, s)))
  unfolding on_session_data
  data-keeps t b x c s v = grind (arith, stored-keeps)

  -- Every callback of Client keeps its session valid, whatever the connection list and the
  -- socket's connect do: a disconnected session has no socket, no registration and an empty queue;
  -- any other has an open socket that waits for what it must, and a writer that points at what it
  -- is sending.
  pub callback-Keeps : Keeps (callback J T cb attempt)
  unfolding callback on_session_connection_established on_session_established on_session_disconnect
      on_session_server_tick on_session_data_status on_session_data
  callback-Keeps = record {
    connection_established = λ cs v. v;
    established = λ cs v. request_data-keeps _ v;
    disconnect = λ cs v. disconnected_at-keeps (cs.0).connector cs v;
    tick = λ (c, s) v. tick-keeps c s v;
    status = λ b cs v. either_way _ _ _ cs.1 v;
    data_received = λ t b x (c, s) v. data-keeps t b x c s v;
  }
