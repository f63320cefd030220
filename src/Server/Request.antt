-- ===== src/Server/Request.antt =====
-- A client's request for data, the server's answer, and what the client's session makes of it.
-- Source/ClientServerProtocol.cpp, Source/Server.cpp.
use conntop.Prelude.{ℕ, bit_and}
use conntop.Json.{JsonLib}
use conntop.Protocol.Message.{server_data_status}
use conntop.Connection.Serialize.{AddressText}
use conntop.Session.Fields
use conntop.Session.Client
use conntop.Session.Client.{server_data_status as expects_status}
use conntop.Session.Server as Session
use conntop.Server.{Host}

module _ (J : JsonLib) (T : AddressText) (f u : ℕ) where
  -- What the server may send of what is asked for.
  abbrev granted : Host J T → ℕ → ℕ
  granted h flags = bit_and flags h.available_data_flags
