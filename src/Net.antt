-- ===== src/Net.antt =====
-- The effects of the client's coroutines: what was sent so far, the dictionaries that the caller owns
-- and passes in, and exceptions. The other side of the network (aiohttp, the cloud, the camera) is a
-- parameter: a function of everything sent before and of the request at hand, so that it may answer
-- differently each time, time out, or fail.
pub mod Rules
pub mod Triples
use bosch_shc_camera_client.Common.{Bool, true, false, List, [], ◌∷◌, ◌++◌, if◌then◌else◌}

-- The exceptions that the code tells apart: `TimeoutError`, `aiohttp.ClientError`, `ValueError` and
-- any other `Exception`.
pub data Fault : Type 0 where
  timed_out client_error value_error other_error : Fault

pub data Result {ℓ} (A : Type ℓ) : Type ℓ where
  ok : A → Result A
  raise : Fault → Result A

-- `except (TimeoutError, aiohttp.ClientError)`
abbrev pub is_network : Fault → Bool
is_network timed_out = true
is_network client_error = true
is_network value_error = false
is_network other_error = false

-- `except (TimeoutError, aiohttp.ClientError, ValueError)`
abbrev pub is_network_or_value : Fault → Bool
is_network_or_value timed_out = true
is_network_or_value client_error = true
is_network_or_value value_error = true
is_network_or_value other_error = false

-- `except Exception`
abbrev pub is_exception : Fault → Bool
is_exception e = true

pub record World (Q S : Type 0) : Type 0 where
  pub sent : List Q
  pub store : S

abbrev pub Server : Type 0 → Type 0 → Type 0
Server Q R = List Q → Q → Result R

abbrev pub Io : Type 0 → Type 0 → Type 0 → Type 0
Io Q S A = World Q S → Result A × World Q S

module _ {Q S : Type 0} where
  abbrev pub continue : {A B : Type 0} → Result A → (A → Io Q S B) → Io Q S B
  continue (ok a) f w = f a w
  continue (raise e) f w = (raise e, w)

  infixl 5 ◌>>=◌ ◌>>◌
  abbrev pub ◌>>=◌ : {A B : Type 0} → Io Q S A → (A → Io Q S B) → Io Q S B
  ◌>>=◌ m f w = continue (m w).0 f (m w).1

  abbrev pub ◌>>◌ : {A B : Type 0} → Io Q S A → Io Q S B → Io Q S B
  m >> n = m >>= λ _. n

  abbrev pub pure : {A : Type 0} → A → Io Q S A
  pure a w = (ok a, w)

  -- What a read of the body gives, which may raise.
  abbrev pub lift : {A : Type 0} → Result A → Io Q S A
  lift r w = (r, w)

  abbrev pub gets : {A : Type 0} → (S → A) → Io Q S A
  gets f w = (ok (f w.store), w)

  abbrev pub modify : (S → S) → Io Q S Unit
  modify f w = (ok tt, record w { store = f w.store })

  abbrev pub request : {R : Type 0} → Server Q R → Q → Io Q S R
  request server q w = (server w.sent q, record w { sent = w.sent ++ q ∷ [] })

  abbrev pub handle : {A : Type 0} → (Fault → Bool) → Result A → Io Q S A → Io Q S A
  handle caught (ok a) h w = (ok a, w)
  handle caught (raise e) h w = if caught e then h w else (raise e, w)

  -- try: m / except caught: h
  abbrev pub except : {A : Type 0} → (Fault → Bool) → Io Q S A → Io Q S A → Io Q S A
  except caught m h w = handle caught (m w).0 h (m w).1
