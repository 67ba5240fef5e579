-- ===== src/Tests/Sessions.antt =====
-- Runs of the sessions of rcp.py.
use bosch_shc_camera_client.Common.{◌≢◌, ◌≡◌, ◌≤◌, refl, [], ◌∷◌, false}
use bosch_shc_camera_client.Common.Texts.{Text, codes, same, same-false}
use bosch_shc_camera_client.Common.Dict.{text_key, string_key, get, put}
use bosch_shc_camera_client.Net.{World}
use bosch_shc_camera_client.Rcp.Markup.{is_nonspace_str}
use bosch_shc_camera_client.Rcp.Wire.{Query, Caches, proxy_url}
use bosch_shc_camera_client.Rcp.Session.{rcp_session, get_cached_rcp_session}
use bosch_shc_camera_client.Rcp.Session.Handshake.{Handshake, IsUsable, rcp_session-Handshake}
use bosch_shc_camera_client.Rcp.Session.Caching.{Cached, get_cached_rcp_session-Cached}
use bosch_shc_camera_client.Rcp.Session.Locks.{Shared, enter, enters, start, next}
use bosch_shc_camera_client.Rcp.Session.Exclusive.{count, allowed, one_handshake}
use bosch_shc_camera_client.Tests.Answers.{demo_camera, host, hash, empty_world}

abbrev pub id : Text
id = codes "0x1f"

-- After a first call at time 1000.
abbrev opened_world : World Query Caches
opened_world = (get_cached_rcp_session demo_camera host hash 1000 empty_world).1

abbrev live_world : World Query Caches
live_world = record {
  sent = [];
  store = record { sessions = (hash, (id, 9000)) ∷ []; failures = [] };
}

rcp_session-Handshake_example :
    Handshake (proxy_url host hash) empty_world (rcp_session demo_camera host hash empty_world)
rcp_session-Handshake_example = rcp_session-Handshake demo_camera host hash empty_world

get_cached_rcp_session-Cached_example :
    Cached hash 1000 (get_cached_rcp_session demo_camera host hash 1000 live_world)
get_cached_rcp_session-Cached_example =
    get_cached_rcp_session-Cached demo_camera host hash 1000 live_world

-- Another camera's session is there.
abbrev pub other_world : World Query Caches
other_world = record {
  sent = [];
  store = record { sessions = (codes "k", (id, 9000)) ∷ []; failures = [] };
}

pub differ : hash ≢ codes "k"
unfolding same
differ = same-false hash (codes "k") refl

pub id-IsUsable : IsUsable id
unfolding same is_nonspace_str
id-IsUsable = ((λ e. cc), ((λ e. cc), (refl, (refl, (refl, (refl, tt))))))

-- Two callers for one hash: the second waits for the lock of the first.
abbrev at_first : Shared
at_first = record { sessions = []; locks = []; next_lock = 0; held = λ lock. false; opening = [] }

abbrev both : Shared
both = enter hash 2 (enter hash 1 at_first)

one_handshake_example :
    (count hash both.opening ≤ 1)
    × (count hash both.opening ≤ allowed (get hash both.locks) both.held)
one_handshake_example =
    one_handshake {s = both} hash
      (next (next (start []) (enters hash 1 at_first)) (enters hash 2 (enter hash 1 at_first)))

under_way : both.opening ≡ (hash, 1) ∷ []
unfolding enter same get put
under_way = refl
