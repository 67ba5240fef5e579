-- ===== src/Tests/Fetches.antt =====
-- Runs of `fetch_rcp_camera_data` against a camera that answers one command, closes the session on
-- another, and is silent on the rest.
use bosch_shc_camera_client.Common.{◌≤◌, ◌≡◌, refl, true, [], ◌∷◌, none, some, arith, if◌then◌else◌}
use bosch_shc_camera_client.Common.Texts.{codes, same}
use bosch_shc_camera_client.Common.Splitting.{Without}
use bosch_shc_camera_client.Common.Dict.{text_key, string_key, get}
use bosch_shc_camera_client.Net.{World, ok}
use bosch_shc_camera_client.Rcp.Markup.{search_sessionid, search_err, search_payload, from_hex}
use bosch_shc_camera_client.Rcp.Wire.{Query, Caches}
use bosch_shc_camera_client.Rcp.Session.{rcp_session, get_cached_rcp_session}
use bosch_shc_camera_client.Rcp.Session.Invariant.{AllUsable}
use bosch_shc_camera_client.Rcp.Read.{rcp_read, payload_of, decode_hex}
use bosch_shc_camera_client.Rcp.Judge.{judge_dimmer}
use bosch_shc_camera_client.Rcp.Fetch.{
  Platform, RcpCameraData, failures_of, poll, fetch_rcp_camera_data,
}
use bosch_shc_camera_client.Rcp.Fetch.Strikes.{poll-failures, count_after}
use bosch_shc_camera_client.Rcp.Fetch.Invariant.{Bounded, fetch-Bounded}
use bosch_shc_camera_client.Rcp.Fetch.StruckOut.{reads_of, fetch-StruckOut}
use bosch_shc_camera_client.Rcp.Fetch.Sessions.{fetch-sessions}
use bosch_shc_camera_client.Rcp.Fetch.Data.{InRange, fetch-InRange}
use bosch_shc_camera_client.Tests.Answers.{demo_camera, host, hash, empty_world}
use bosch_shc_camera_client.Tests.Sessions.{id, id-IsUsable, other_world, differ}

abbrev demo : Platform Unit
demo = record {
  camera = demo_camera;
  printable = λ c. true;
  load_certificate = λ b. none;
  server_time = 0;
}

-- The dimmer has failed three times.
abbrev struck_world : World Query Caches
struck_world = record { sent = []; store = record { sessions = []; failures = ("0x0c22", 3) ∷ [] } }

fetch-StruckOut_example :
    let w' = (fetch_rcp_camera_data demo host hash 1000 struck_world).1 in
    (3 ≤ failures_of "0x0c22" w'.store) × (reads_of "0x0c22" w'.sent ≡ reads_of "0x0c22" [])
unfolding get
fetch-StruckOut_example = fetch-StruckOut demo host hash 1000 struck_world "0x0c22" (omega arith)

fetch-InRange_example :
    (d : RcpCameraData Unit) × ((fetch_rcp_camera_data demo host hash 1000 empty_world).0
      ≡ ok (some d))
    × InRange d
unfolding get_cached_rcp_session same get search_sessionid rcp_session
fetch-InRange_example =
    fetch-InRange demo host hash id 1000 empty_world
      (get_cached_rcp_session demo_camera host hash 1000 empty_world).1 refl refl

hash-Without : Without b'/' hash
hash-Without = (refl, tt)

fetch-sessions_example :
    let w' = (fetch_rcp_camera_data demo host hash 1000 other_world).1 in
    AllUsable w'.store
    × (get (codes "k") w'.store.sessions ≡ get (codes "k") other_world.store.sessions)
fetch-sessions_example =
    fetch-sessions demo host hash (codes "k") 1000 other_world hash-Without (id-IsUsable, tt) differ

struck_world-Bounded : Bounded struck_world.store
unfolding get
struck_world-Bounded cmd = ground arith

fetch-Bounded_example : Bounded (fetch_rcp_camera_data demo host hash 1000 struck_world).1.store
fetch-Bounded_example = fetch-Bounded demo host hash 1000 struck_world struck_world-Bounded

poll-failures_example :
    failures_of "0x0c22"
      (poll demo_camera (codes "u") id "0x0c22" "T_WORD" 1 judge_dimmer empty_world).1.store
    ≡ (if string_key.eqb "0x0c22" "0x0c22"
        then count_after
            (judge_dimmer (some (0 ∷ 50 ∷ [])))
            (failures_of "0x0c22" empty_world.store)
        else failures_of "0x0c22" empty_world.store)
unfolding rcp_read payload_of decode_hex search_err search_payload from_hex get same
poll-failures_example =
    poll-failures demo_camera (codes "u") id "0x0c22" "T_WORD" 1 judge_dimmer empty_world
      (some (0 ∷ 50 ∷ [])) "0x0c22" (omega arith) refl
