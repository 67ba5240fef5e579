-- ===== src/Tests/Digests.antt =====
-- Runs of auth_utils.py, with hash functions that keep their text.
use bosch_shc_camera_client.Common.{
  ℕ, Bool, true, false, map, ◌||◌, ◌&&◌, ◌≡◌, refl, List, [], ◌∷◌, ◌++◌, none, some, leb, ◌==◌,
}
use bosch_shc_camera_client.Common.Texts.{Text, codes}
use bosch_shc_camera_client.Net.{ok, World}
use bosch_shc_camera_client.Auth.{Primitives, is_value, params_from}
use bosch_shc_camera_client.Auth.Exchange.{
  DigestRequest, Target, Login, plain_request, async_digest_request,
}
use bosch_shc_camera_client.Auth.Rounds.{Added, IsAuthorized, async_digest_request-Added}
use bosch_shc_camera_client.Auth.Challenges.{challenge_of, params_from-challenge_of}

abbrev ascii_word : ℕ → Bool
ascii_word c = leb b'a' c && leb c b'z' || leb b'0' c && leb c b'9' || c == b'_'

abbrev plain : Primitives
plain = record {
  md5 = λ s. s;
  sha256 = λ s. s;
  lower = λ s. s;
  upper = λ s. s;
  is_word = ascii_word;
  urlparse = λ url. ok (record { path = codes "/rcp.xml"; query = [] });
}

-- realm="a b", nonce="17", stale=no
abbrev directives : List (Bool × Text × Text)
directives =
    (true, codes "realm", codes "a b")
    ∷ (true, codes "nonce", codes "17")
    ∷ (false, codes "stale", codes "no")
    ∷ []

params_from-challenge_of_example :
    params_from plain 0 (challenge_of directives) ≡ map (λ d. (d.1, d.2)) directives
unfolding is_value
params_from-challenge_of_example =
    params_from-challenge_of plain directives (refl, refl, refl, refl)
      (
        (refl, (refl, (refl, (refl, (refl, (refl, tt))))), (refl, (refl, (refl, tt)))),
        (
          (refl, (refl, (refl, (refl, (refl, (refl, tt))))), (refl, (refl, tt))),
          ((refl, (refl, (refl, (refl, (refl, (refl, tt))))), refl, (refl, (refl, tt))), tt),
        ),
      )

abbrev challenging : Target
challenging sent q = ok (record {
  status = 401;
  www_authenticate = some (codes "digest " ++ challenge_of directives);
  read = ok tt;
})

abbrev login : Login
login = record {
  primitives = plain;
  token_hex = λ sent. codes "c0";
  method = codes "GET";
  url = codes "https://cam/rcp.xml";
  user = codes "u";
  password = codes "p";
  body = none;
  headers = [];
}

abbrev unsent : World DigestRequest Unit
unsent = record { sent = []; store = tt }

async_digest_request-Added_example :
    Added
      (IsAuthorized login)
      2
      ([] ++ plain_request login ∷ [])
      (async_digest_request challenging login unsent).1.sent
async_digest_request-Added_example = async_digest_request-Added challenging login unsent
