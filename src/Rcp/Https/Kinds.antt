-- ===== src/Rcp/Https/Kinds.antt =====
-- local_rcp.py: what the reads return and raise.
use bosch_shc_camera_client.Common.{
  ℕ, ◌≡◌, refl, ap, Bool, true, false, Option, none, some, ◌==◌, if◌then◌else◌, ==_iff,
}
use bosch_shc_camera_client.Common.Texts.{Bytes, Text, codes}
use bosch_shc_camera_client.Common.Utf8.{decode_utf8}
use mathlib.Core.Path.{subst}
use bosch_shc_camera_client.Rcp.Https.{
  Elements, Parsed, tree, parse_error, forbidden, find, Value, caught, value_in, Fetched, got,
  raised, OpenError, url_error, os_error, value_error, other_error, Opened, Network, rcp_url,
  parse_rcp_xml, read_text, read_opened, rcp_read_local_sync, rcp_read_remote_sync,
}
use bosch_shc_camera_client.Rcp.Https.Values.{HasKind, Held, value_in-HasKind}

-- The answer from which a value was read.
pub record ReadFrom (parse : Text → Parsed) (digit : ℕ → Option ℕ) (type : Text)
    (answer : Fetched Opened) (v : Value) : Type 0 where
  pub raw : Bytes
  pub root : Elements
  pub answered : answer ≡ got (record { status = 200; body = got raw })
  pub document : parse (decode_utf8 raw) ≡ tree root
  pub no_error : find (codes "err") root ≡ none
  pub found : value_in digit type root ≡ some v
  pub kind : HasKind type v

module _ (parse : Text → Parsed) (digit : ℕ → Option ℕ) (type : Text) where
  -- What a read may come to: nothing, a value read from the answer, or one of the other exceptions.
  abbrev pub Sound : Fetched Opened → Fetched (Option Value) → Type 0
  Sound answer (got none) = Unit {0}
  Sound answer (got (some v)) = ReadFrom parse digit type answer v
  Sound answer (raised e) = e ≡ other_error

  caught_error : (e : OpenError) (answer : Fetched Opened) → Sound answer (caught (raised e))
  caught_error url_error answer = tt
  caught_error os_error answer = tt
  caught_error value_error answer = tt
  caught_error other_error answer = refl

  held_value :
      (answer : Fetched Opened) (raw : Bytes) (root : Elements) (o : Option Value)
      → answer ≡ got (record { status = 200; body = got raw })
      → parse (decode_utf8 raw) ≡ tree root
      → value_in digit type root ≡ o
      → Sound answer (got o)
  held_value answer raw root none h k e = tt
  held_value answer raw root (some v) h k e = record {
    raw = raw;
    root = root;
    answered = h;
    document = k;
    no_error = (value_in-HasKind digit type root).1 v e;
    found = e;
    kind = subst (Held type) e (value_in-HasKind digit type root).0;
  }

  read_text-Sound :
      (answer : Fetched Opened) (body : Fetched Bytes)
      → answer ≡ got (record { status = 200; body = body })
      → Sound answer (caught (read_text parse digit type body))
  unfolding read_text parse_rcp_xml
  read_text-Sound answer (raised e) h = caught_error e answer
  read_text-Sound answer (got raw) h = cases (parse (decode_utf8 raw)) refl
    where
      cases :
          (p : Parsed)
          → parse (decode_utf8 raw) ≡ p
          → Sound answer (
              caught (elim p [
                | tree root ↦ got (value_in digit type root)
                | parse_error ↦ got none
                | forbidden ↦ raised value_error
              ]))
      cases (tree root) e = held_value answer raw root (value_in digit type root) h e refl
      cases parse_error e = tt
      cases forbidden e = tt

  read_opened-Sound :
      (answer : Fetched Opened) → Sound answer (caught (read_opened parse digit type answer))
  unfolding read_opened
  read_opened-Sound (raised e) = caught_error e (raised e)
  read_opened-Sound (got r) = cases (r.status == 200) refl
    where
      cases :
          (b : Bool)
          → (r.status == 200) ≡ b
          → Sound (got r) (caught (if b then read_text parse digit type r.body else got none))
      cases true e =
          read_text-Sound (got r) r.body
            (ap (λ n. got (record { status = n; body = r.body })) ((==_iff r.status 200).0 e))
      cases false e = tt

  -- A read through the cloud proxy and one of the camera itself return a value only from an answer with
  -- status 200 whose body was read and is a document with no error in its results; the value is the one
  -- that the document holds, and of the kind that the type names: a number for T_WORD, T_DWORD and
  -- T_BYTE, characters for P_STRING, bytes below 256 for P_OCTET. They raise nothing but exceptions that
  -- are no URLError, OSError or ValueError; otherwise they return None.
  pub rcp_read_sync-Sound :
      (network : Network) (host user pwd command : Text)
      → Sound
          (network (record { url = rcp_url host command type; credentials = none }))
          (rcp_read_remote_sync parse digit network host command type)
        × Sound
            (network (record { url = rcp_url host command type; credentials = some (user, pwd) }))
            (rcp_read_local_sync parse digit network host user pwd command type)
  unfolding rcp_read_remote_sync rcp_read_local_sync
  rcp_read_sync-Sound network host user pwd command = (
    read_opened-Sound (network (record { url = rcp_url host command type; credentials = none })),
    read_opened-Sound
        (network (record { url = rcp_url host command type; credentials = some (user, pwd) })),
  )
