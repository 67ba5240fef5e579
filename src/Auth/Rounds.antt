-- ===== src/Auth/Rounds.antt =====
-- auth_utils.py: how many requests an exchange sends, and which.
use mathlib.Core.List.{append_assoc, append-nil}
use bosch_shc_camera_client.Common.{
  ℕ, ◌+◌, ◌≤◌, Bool, true, false, List, [], ◌∷◌, ◌++◌, ◌≡◌, refl, sym, ap, ◌∙◌, ◌==◌, if◌then◌else◌,
  is_empty, length, length-append, All, All-append, arith,
}
use bosch_shc_camera_client.Common.Texts.{Text, codes, same}
use bosch_shc_camera_client.Common.Dict.{text_key, Dict}
use bosch_shc_camera_client.Net.{
  Result, ok, raise, value_error, World, continue, ◌>>=◌, ◌>>◌, pure, lift, request,
}
use bosch_shc_camera_client.Auth.{directive, parse_digest_challenge, build_digest_header}
use bosch_shc_camera_client.Auth.Exchange.{
  DigestRequest, DigestAnswer, Target, Exchange, challenge_text, Login, plain_request,
  authorized_request, send_authorized, retry_stale, answer_challenge, async_digest_request,
}

-- A run has sent at most `n` more requests, all of which satisfy `P`.
abbrev pub Added : (DigestRequest → Type 0) → ℕ → List DigestRequest → List DigestRequest → Type 0
Added P n before after =
    (more : List DigestRequest) × (after ≡ before ++ more) × (length more ≤ n) × All P more

record Adds {A : Type 0} (P : DigestRequest → Type 0) (n : ℕ) (m : Exchange A) : Type 0 where
  at : (w : World DigestRequest Unit) → Added P n w.sent (m w).1.sent

module _ {A : Type 0} {P : DigestRequest → Type 0} where
  Adds-lift : (n : ℕ) (r : Result A) → Adds P n (lift r)
  Adds-lift n r = record { at = λ w. ([], sym (append-nil w.sent), omega arith, tt) }

  Adds-if :
      {n : ℕ} (b : Bool) (m k : Exchange A)
      → Adds P n m
      → Adds P n k
      → Adds P n (if b then m else k)
  Adds-if true m k hm hk = hm
  Adds-if false m k hm hk = hk

module _ {A B : Type 0} {P : DigestRequest → Type 0} where
  continue-Added :
      (n k : ℕ) (r : Result A) (f : A → Exchange B) (before : List DigestRequest)
      (w : World DigestRequest Unit)
      → Added P n before w.sent
      → ((a : A) → Adds P k (f a))
      → Added P (n + k) before (continue r f w).1.sent
  continue-Added n k (ok a) f before w (first, e, h, hs) kf =
      let rest = (kf a).at w in
      (
        first ++ rest.0,
        rest.1 ∙ ap (λ l. l ++ rest.0) e ∙ append_assoc before first rest.0,
        ground (arith, length-append first rest.0, h, rest.2),
        All-append P first rest.0 hs rest.3,
      )
  continue-Added n k (raise x) f before w (first, e, h, hs) kf = (first, e, omega arith, hs)

  Adds-bind :
      (n k : ℕ) (m : Exchange A) (f : A → Exchange B)
      → Adds P n m
      → ((a : A) → Adds P k (f a))
      → Adds P (n + k) (m >>= f)
  Adds-bind n k m f hm hf = record {
    at = λ w. continue-Added n k (m w).0 f w.sent (m w).1 (hm.at w) hf;
  }

module _ {P : DigestRequest → Type 0} (server : Target) where
  Adds-request : (q : DigestRequest) → P q → Adds P 1 (request server q)
  Adds-request q h = record { at = λ w. (q ∷ [], refl, omega arith, (h, tt)) }

-- The caller's request with an Authorization header, which is built for some challenge and some number.
abbrev pub IsAuthorized : Login → DigestRequest → Type 0
IsAuthorized login q =
    (challenge : Dict Text Text) × (cnonce : Text) × (header : Text) × (build_digest_header
        login.primitives login.method login.url login.user login.password challenge cnonce
      ≡ ok header)
    × (q ≡ authorized_request login header)

module _ (server : Target) (login : Login) where
  send_authorized-Adds :
      (challenge : Dict Text Text)
      → Adds (IsAuthorized login) 1 (send_authorized server login challenge)
  unfolding send_authorized
  send_authorized-Adds challenge = record { at = λ w. cases w (built w) refl }
    where
      built : World DigestRequest Unit → Result Text
      built w =
          build_digest_header login.primitives login.method login.url login.user login.password
            challenge (login.token_hex w.sent)

      cases :
          (w : World DigestRequest Unit) (r : Result Text)
          → built w ≡ r
          → Added
              (IsAuthorized login)
              1
              w.sent
              (continue r (λ header. request server (authorized_request login header)) w).1.sent
      cases w (ok header) h = (
        authorized_request login header ∷ [],
        refl,
        omega arith,
        ((challenge, login.token_hex w.sent, header, h, refl), tt),
      )
      cases w (raise e) h = ([], sym (append-nil w.sent), omega arith, tt)

  retry_stale-Adds :
      (second : DigestAnswer) → Adds (IsAuthorized login) 1 (retry_stale server login second)
  unfolding retry_stale
  retry_stale-Adds second =
      Adds-if (is_empty (challenge_text second)) (pure second)
        (lift (parse_digest_challenge login.primitives (challenge_text second)) >>= again)
        (Adds-lift 1 (ok second))
        (Adds-bind 0 1 (lift (parse_digest_challenge login.primitives (challenge_text second)))
          again (Adds-lift 0 (parse_digest_challenge login.primitives (challenge_text second)))
          (λ challenge.
            Adds-if (is_stale challenge)
              (lift second.read >> send_authorized server login challenge) (pure second)
              (Adds-bind 0 1 (lift second.read) (λ _. send_authorized server login challenge)
                (Adds-lift 0 second.read) (λ _. send_authorized-Adds challenge))
              (Adds-lift 1 (ok second))))
    where
      is_stale : Dict Text Text → Bool
      is_stale challenge =
          same (login.primitives.lower (directive "stale" [] challenge)) (codes "true")

      again : Dict Text Text → Exchange DigestAnswer
      again challenge =
          if is_stale challenge
          then lift second.read >> send_authorized server login challenge
          else pure second

  answer_challenge-Adds :
      (first : DigestAnswer) → Adds (IsAuthorized login) 2 (answer_challenge server login first)
  unfolding answer_challenge
  answer_challenge-Adds first =
      Adds-bind 0 2 (lift first.read)
        (λ _. lift parsed >>= λ challenge. send_authorized server login challenge >>= last)
        (Adds-lift 0 first.read)
        (λ _.
          Adds-bind 0 2 (lift parsed) (λ challenge. send_authorized server login challenge >>= last)
            (Adds-lift 0 parsed)
            (λ challenge.
              Adds-bind 1 1 (send_authorized server login challenge) last
                (send_authorized-Adds challenge)
                (λ second.
                  Adds-if (second.status == 401) (retry_stale server login second) (pure second)
                    (retry_stale-Adds second) (Adds-lift 1 (ok second)))))
    where
      parsed : Result (Dict Text Text)
      parsed =
          if is_empty (challenge_text first)
          then raise value_error
          else parse_digest_challenge login.primitives (challenge_text first)

      last : DigestAnswer → Exchange DigestAnswer
      last second = if second.status == 401 then retry_stale server login second else pure second

  after_first :
      (r : Result DigestAnswer) (w : World DigestRequest Unit)
      → Added
          (IsAuthorized login)
          2
          w.sent
          (continue r
            (λ first.
              if first.status == 401 then answer_challenge server login first else pure first)
            w).1.sent
  after_first (ok first) w =
      (Adds-if (first.status == 401) (answer_challenge server login first) (pure first)
          (answer_challenge-Adds first) (Adds-lift 2 (ok first))).at
        w
  after_first (raise e) w = ([], sym (append-nil w.sent), omega arith, tt)

  -- An exchange first sends the request as the caller gave it; after that it sends at most two
  -- requests, and each of them is the caller's with an Authorization header that was built for a
  -- challenge.
  pub async_digest_request-Added :
      (w : World DigestRequest Unit)
      → Added
          (IsAuthorized login)
          2
          (w.sent ++ plain_request login ∷ [])
          (async_digest_request server login w).1.sent
  unfolding async_digest_request
  async_digest_request-Added w =
      after_first (server w.sent (plain_request login))
        (record w { sent = w.sent ++ plain_request login ∷ [] })
