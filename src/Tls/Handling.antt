-- ===== src/Tls/Handling.antt =====
-- tls_proxy.py: `_handle_client`, one connection of a client to a proxy. The two pipes of a connection
-- share nothing, and closing their writers ends it.
pub mod Relaying
use bosch_shc_camera_client.Common.{ℕ, Bool, true, false, List, [], ◌∷◌, Option, none, some}
use bosch_shc_camera_client.Common.Texts.{Bytes}
use bosch_shc_camera_client.Common.Dict.{string_key}
use bosch_shc_camera_client.Tls.Registry.{State, connect_failed, connect_done}
use bosch_shc_camera_client.Tls.Transport.{Read, WriteResult, pipe}

-- A connection to the camera: what the reads from the client and those from the camera give, and what
-- becomes of the writes to each of them.
pub record Connection : Type 0 where
  pub client_reads : List Read
  pub camera_reads : List Read
  pub client_writes : ℕ → WriteResult
  pub camera_writes : ℕ → WriteResult

-- What the writers to the camera and to the client take.
pub record Relayed : Type 0 where
  pub to_camera : List Bytes
  pub to_client : List Bytes

unfoldable pub gather : Connection → Relayed
unfolding pipe
gather c = record {
  to_camera = pipe true 0 c.camera_writes c.client_reads;
  to_client = pipe false 0 c.client_writes c.camera_reads;
}

-- A client of server n, at this time; there is no connection to the camera if opening it raises.
unfoldable pub handle_client : ℕ → ℕ → Option Connection → State → State × Relayed
unfolding connect_failed connect_done gather
handle_client n now none s = (connect_failed n now s, record { to_camera = []; to_client = [] })
handle_client n now (some c) s = (connect_done n s, gather c)
