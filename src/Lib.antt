-- ===== src/Lib.antt =====
-- A model of the Bosch Smart Home Camera client (src/bosch_shc_camera_client): rcp.py, which reads
-- a camera through the cloud proxy; tls_proxy.py, which serves a camera's RTSP stream to local
-- players; the REST client of the cloud (cameras.py, states.py, events.py, settings.py, actions.py,
-- live.py, cloud.py, client.py); auth_utils.py, which authenticates requests; mini_nvr.py, which
-- keeps a ring of recorded segments; local_rcp.py, which reads a camera over HTTPS; and
-- media_transfer.py, which downloads media and talks to an FTP server.
--
-- The parts of the program and how they meet. A camera has a proxy host and a proxy hash. rcp.py
-- opens a session for the hash with a handshake of two queries, keeps it in a dictionary that the
-- caller owns, reads single commands with it, and drops it when an answer says that it is dead.
-- `fetch_rcp_camera_data` reads twelve commands one after the other; a second dictionary of the
-- caller counts the failures of each command, and a command that failed three times is skipped.
-- tls_proxy.py starts one local server for each camera and keeps its port and its server in two
-- dictionaries of the caller. A server that fails to reach its camera five times or more in a row,
-- the last time at most thirty seconds after the first, closes itself, leaves the dictionaries if
-- it is still the camera's server, and then tells the caller. Before and while a stream runs, short
-- RTSP exchanges go through the server. The modules of the REST client share `fetch_json` of
-- cameras.py, which turns what can go wrong with a GET into the errors of the client; settings.py
-- adds the error of the privacy mode and writes an object by reading it first; live.py opens a
-- session with a write of settings.py; cloud.py has setters that return failures in place of
-- raising them; client.py calls all of these with a token that it awaits first. local_rcp.py and
-- media_transfer.py are called by the caller alone, from its own threads.
--
-- Where the code is modelled:
--   Net          the coroutines' effects: what was sent so far, the caller's dictionaries, exceptions.
--                Net/Rules and Net/Triples hold the rules for invariants, results and exceptions.
--   Rcp/Markup   the regular expressions of rcp.py and bytes.fromhex.
--   Rcp/Wire     queries, answers and dictionaries of rcp.py.
--   Rcp/Session  rcp_session, get_cached_rcp_session; Rcp/Session/Locks has the latter under its locks, by
--                the steps between two awaits of callers that share both dictionaries.
--   Rcp/Read     rcp_read with _drop_cached_session. Rcp/Local: rcp_local_read, rcp_local_read_privacy.
--   Rcp/Https    local_rcp.py: _parse_rcp_xml, rcp_read_local_sync and rcp_read_remote_sync.
--   Rcp/Write    rcp_local_write, rcp_local_write_privacy, rcp_local_write_front_light.
--   Rcp/Parse    _is_xml_envelope and the _parse_ functions.
--   Rcp/Judge    what fetch_rcp_camera_data does with the reply to each of the twelve commands: it takes a
--                value and marks the command as working, marks a failure, or leaves the count alone.
--   Rcp/Fetch    _skip, _mark_fail, _mark_ok and fetch_rcp_camera_data itself.
--   Tls/Breaker  fail_count and first_fail_at of start_tls_proxy, and _handle_client's test of them.
--   Tls/Registry start_tls_proxy, _fire_on_proxy_died, stop_tls_proxy and stop_all_proxies as steps
--                between two awaits, so that steps of different coroutines may follow one another in any
--                order: stop_all_proxies is a step for each camera and one that clears both
--                dictionaries, and of several callbacks that are due any may be called next. A reachable
--                state is what any sequence of steps leads to.
--   Tls/Transport _pipe, whose reads and writes may fail, and its rewriting of RTSP SETUP requests.
--   Tls/Handling _handle_client: one connection, with its effect on the proxy and its two pipes.
--   Tls/Rtsp     rtsp_keepalive, pre_warm_rtsp, confirm_encoder_ready, _digest_auth.
--   Cloud/Json     JSON values, floats as binary fractions, and the readers of single values.
--   Cloud/Wire     requests, answers, errors; fetch_json, read_error_body, raise_if_token_rejected. Its
--                  children hold the rules for errors, results and requests, and laws of fetch_json.
--   Cloud/Cameras  the rest of cameras.py, and is_safe_bosch_url of media_transfer.py.
--   Cloud/Actions  actions.py. Cloud/States: states.py. Cloud/Events: events.py, with
--                  FeatureFlags.enabled in Flags. Cloud/Put: cloud.py.
--   Cloud/Settings settings.py: _fetch, _send, _merge_put and the raw access; Values holds the checks and
--                  regions, Readers the get_ functions, Writers the set_ functions. Storing says what a
--                  cloud that holds an object does, as a hypothesis.
--   Cloud/Live     live.py. Cloud/Client: client.py.
--   Auth         auth_utils.py: the challenge and the header; Auth/Exchange: async_digest_request.
--   Recorder     mini_nvr.py: the arguments of ffmpeg, and the ring of pre-roll segments;
--                Recorder/Finalized: newest_segment_is_finalized.
--   Transfer     media_transfer.py: sanitize_filename, the downloads and the FTP functions; Transfer/Ftp
--                has the paths that ftp_makedirs asks for, described on their own.
--   Common       Python's bytes, str, dict, int and round, as far as the code uses them; Common/Utf8 is
--                UTF-8, with replacements where bytes are none.
--   Tests        concrete runs of the models.
--
-- Parameters. The cloud, the cameras and the local proxies are functions from everything sent
-- before and the action at hand to an answer or an exception: they may answer differently each
-- time, and fail anywhere. MD5, SHA-256, the digest exchange behind a write of rcp.py
-- (async_digest_request is modelled on its own, over single requests), `str.isprintable`, the
-- `\w` of patterns, `secrets.token_hex`, the reading of X.509 certificates, the clocks, urlparse,
-- `str.upper`, `quote`, the parsing of ISO times, the decoding of a token's claims, the XML
-- parser of local_rcp.py (defusedxml), the value of a Unicode digit, urllib, the FTP library and
-- server, and how a subprocess ends are parameters as well. In the REST client each part of an
-- answer that is read on its own (JSON, text, chunks) gives a value, raises, or runs into the
-- deadline of the whole call, which only the handler outside the read sees. Exceptions are
-- `TimeoutError`, `aiohttp.ClientError`, `ValueError` and all others; cancellation is not
-- modelled.
--
-- Numbers and bounds. Bytes and code points are natural numbers. Times of the monotonic clock are
-- whole milliseconds, the time of the server is whole microseconds, so that the float comparisons
-- of the code are exact. `round(x, 1)` of a quotient is computed as the double nearest to the
-- quotient, rounded half to even; the search for its exponent has a fuel of 1075, which covers
-- every double. `decimal` has as much fuel as the number itself, the change of an int to a float
-- halves at most 1024 times, since larger ints raise before, and `rewrite_from` has as much as the
-- text is long: each of its rounds takes at least one character.
--
-- Not modelled: logging; TLS contexts and sockets; how long a wait takes (that a timeout may
-- strike is part of the parameters); that closing a server drops its accepted connections; the
-- socket options of _set_keepalive; the wording of exceptions; and writers of a recording's
-- directory other than the pruning.
pub mod Auth
pub mod Common
pub mod Net
pub mod Rcp
pub mod Recorder
pub mod Tls
pub mod Transfer
pub mod Cloud
pub mod Tests
