-- ===== src/Rcp/Local/Answers.antt =====
-- How the two readers take the same answer.
use bosch_shc_camera_client.Common.{ℕ, ◌≡◌, true, none, some, arith}
use bosch_shc_camera_client.Common.Texts.{Text, Bytes}
use bosch_shc_camera_client.Net.{World, ok, raise, value_error}
use bosch_shc_camera_client.Rcp.Markup.{search_err, search_payload, from_hex}
use bosch_shc_camera_client.Rcp.Wire.{Query, Reply, Caches, Camera}
use bosch_shc_camera_client.Rcp.Read.{read_query, rcp_read, payload_of, decode_hex}
use bosch_shc_camera_client.Rcp.Local.{local_query, rcp_local_read, local_payload}

-- On an answer with status 200, no error and a payload that is no sequence of whole bytes,
-- `rcp_local_read` raises a ValueError, where `rcp_read` returns None.
pub rcp_local_read_odd :
    (camera : Camera) (cam_ip base command session_id type : Text) (num : ℕ)
    (w : World Query Caches) (resp : Reply) (raw g : Bytes)
    → camera w.sent (local_query cam_ip command type num) ≡ ok resp
    → camera w.sent (read_query base command session_id type num) ≡ ok resp
    → resp.status ≡ 200
    → resp.body ≡ ok raw
    → search_err raw ≡ none
    → search_payload raw ≡ some g
    → from_hex g ≡ none
    → ((rcp_local_read camera cam_ip command type num w).0 ≡ raise value_error)
      × ((rcp_read camera true base command session_id type num w).0 ≡ ok none)
unfolding rcp_local_read local_payload payload_of decode_hex rcp_read
rcp_local_read_odd camera cam_ip base command session_id type num w resp raw g e e' st body err pay
      odd =
    (ground arith, ground arith)
