-- ===== src/Rcp/Fetch/StruckOut.antt =====
-- The reads of a command that has failed three times.
use bosch_shc_camera_client.Common.{
  ℕ, ◌+◌, ◌≤◌, ◌<◌, ◌≡◌, ◌≢◌, refl, sym, ap, ◌∙◌, inl, inr, Bool, false, ◌&&◌, List, [], ◌∷◌, ◌++◌,
  none, some, String, arith, if◌then◌else◌, Bool-cases,
}
use bosch_shc_camera_client.Common.Texts.{Text, codes, same, same_iff}
use bosch_shc_camera_client.Common.Literals.{codes_injective}
use bosch_shc_camera_client.Common.Dict.{Dict, string_key, get, get-put, get-pop}
use bosch_shc_camera_client.Net.{World}
use bosch_shc_camera_client.Rcp.Wire.{Caches, Query, proxy_url}
use bosch_shc_camera_client.Rcp.Session.{open_query, ack_query}
use bosch_shc_camera_client.Rcp.Session.Invariant.{Stable}
use bosch_shc_camera_client.Rcp.Read.{read_query}
use bosch_shc_camera_client.Rcp.Fetch.{
  Platform, failures_of, mark_fail, mark_ok, fetch_rcp_camera_data,
}
use bosch_shc_camera_client.Rcp.Fetch.Stable.{PollStable}
use bosch_shc_camera_client.Rcp.Fetch.Invariant.{drop-failures, fetch-Keeps}

abbrev has_param : String → Text → Dict String Text → Bool
has_param k v d = elim (get k d) [ none ↦ false | some u ↦ same u v ]

-- A query that reads the command.
unfoldable pub is_read_of : String → Query → Bool
is_read_of cmd q =
    has_param "direction" (codes "READ") q.params && has_param "command" (codes cmd) q.params

-- How often the command was read.
unfoldable pub reads_of : String → List Query → ℕ
unfolding is_read_of
reads_of cmd [] = 0
reads_of cmd (q ∷ qs) = (if is_read_of cmd q then 1 else 0) + reads_of cmd qs

reads_of-append :
    (cmd : String) (qs : List Query) (q : Query)
    → is_read_of cmd q ≡ false
    → reads_of cmd (qs ++ q ∷ []) ≡ reads_of cmd qs
unfolding reads_of
reads_of-append cmd [] q h = ground arith
reads_of-append cmd (r ∷ qs) q h = ground (arith, reads_of-append cmd qs q)

open_query-unread : (cmd : String) (base : Text) → is_read_of cmd (open_query base) ≡ false
unfolding is_read_of open_query get same
open_query-unread cmd base = refl

ack_query-unread : (cmd : String) (base id : Text) → is_read_of cmd (ack_query base id) ≡ false
unfolding is_read_of ack_query get same
ack_query-unread cmd base id = refl

read_query-unread :
    (cmd other : String) (base id type : Text) (num : ℕ)
    → cmd ≢ other
    → is_read_of cmd (read_query base (codes other) id type num) ≡ false
unfolding is_read_of read_query get same
read_query-unread cmd other base id type num n =
    elim (Bool-cases (same (codes other) (codes cmd))) [
      | inl e ↦ absurd (n (sym (codes_injective other cmd ((same_iff _ _).0 e))))
      | inr e ↦ e
    ]

-- Struck out, and read n times so far.
abbrev pub StruckOut : String → ℕ → World Query Caches → Type 0
StruckOut cmd n w = (3 ≤ failures_of cmd w.store) × (reads_of cmd w.sent ≡ n)

module _ (cmd : String) (n : ℕ) where
  StruckOut-Stable : (host hash : Text) → Stable host hash (StruckOut cmd n)
  StruckOut-Stable host hash = record {
    ask = λ w (p, q). (
      p,
      reads_of-append cmd w.sent (open_query (proxy_url host hash))
            (open_query-unread cmd (proxy_url host hash))
          ∙ q,
    );
    confirm = λ id w (p, q). (
      p,
      reads_of-append cmd w.sent (ack_query (proxy_url host hash) id)
            (ack_query-unread cmd (proxy_url host hash) id)
          ∙ q,
    );
    drop = λ w p. p;
    add = λ id t w u p. p;
  }

  differs :
      (other : String) (c : Caches) → 3 ≤ failures_of cmd c → failures_of other c < 3 → cmd ≢ other
  differs other c p few e =
      let same_count : failures_of cmd c ≡ failures_of other c = ap (λ k. failures_of k c) e in
      absurd (omega (arith, same_count))

  StruckOut-fail :
      (other : String) (c : Caches)
      → cmd ≢ other
      → failures_of cmd (mark_fail other c) ≡ failures_of cmd c
  unfolding mark_fail
  StruckOut-fail other c ne =
      ground (
        arith,
        get-put other cmd (failures_of other c + 1) c.failures,
        string_key.eqb_iff other cmd,
      )

  StruckOut-ok :
      (other : String) (c : Caches)
      → cmd ≢ other
      → failures_of cmd (mark_ok other c) ≡ failures_of cmd c
  unfolding mark_ok
  StruckOut-ok other c ne =
      ground (arith, get-pop other cmd c.failures, string_key.eqb_iff other cmd)

  StruckOut-PollStable :
      (base session_id : Text) (other type : String) (num : ℕ)
      → PollStable base session_id other type num (StruckOut cmd n)
  StruckOut-PollStable base session_id other type num = record {
    read = λ dead w few (p, q). (
      ground (arith, drop-failures dead base w.store),
      reads_of-append cmd w.sent (read_query base (codes other) session_id (codes type) num) (
            read_query-unread cmd other base session_id (codes type) num
              (differs other w.store p few))
          ∙ q,
    );
    fail = λ w few (p, q).
        (omega (arith, StruckOut-fail other w.store (differs other w.store p few)), q);
    succeed = λ w few (p, q).
        (omega (arith, StruckOut-ok other w.store (differs other w.store p few)), q);
  }

-- If a command has three counted failures or more, a fetch does not read it, and it has three or more
-- afterwards.
pub fetch-StruckOut :
    {C : Type 0} (p : Platform C) (host hash : Text) (now : ℕ) (w : World Query Caches)
    (cmd : String)
    → 3 ≤ failures_of cmd w.store
    → let w' = (fetch_rcp_camera_data p host hash now w).1 in
      (3 ≤ failures_of cmd w'.store) × (reads_of cmd w'.sent ≡ reads_of cmd w.sent)
fetch-StruckOut p host hash now w cmd h =
    (fetch-Keeps host hash (StruckOut-Stable cmd (reads_of cmd w.sent) host hash)
        (StruckOut-PollStable cmd (reads_of cmd w.sent) (proxy_url host hash)) p now).at
      w (h, refl)
