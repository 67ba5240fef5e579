-- ===== src/Rcp/Wire.antt =====
-- What rcp.py sends and gets, and the dictionaries that its callers own and pass in.
use bosch_shc_camera_client.Common.{ℕ, ◌++◌, String}
use bosch_shc_camera_client.Common.Texts.{Text, Bytes, codes}
use bosch_shc_camera_client.Common.Dict.{Dict}
use bosch_shc_camera_client.Net.{Result, Server, Io}

-- A GET with its query parameters.
pub record Query : Type 0 where
  pub url : Text
  pub params : Dict String Text

-- The status of an answer, and what reading its body gives, as bytes and as text.
pub record Reply : Type 0 where
  pub status : ℕ
  pub body : Result Bytes
  pub text : Result Text

-- RcpSessionCache: proxy hash to session id and expiry, on the monotonic clock in milliseconds;
-- the count of failures of each command of one camera.
pub record Caches : Type 0 where
  pub sessions : Dict Text (Text × ℕ)
  pub failures : Dict String ℕ

abbrev pub Camera : Type 0
Camera = Server Query Reply

abbrev pub Rcp : Type 0 → Type 0
Rcp = Io Query Caches

-- f"https://{proxy_host}/{proxy_hash}/rcp.xml"
unfoldable pub proxy_url : Text → Text → Text
proxy_url host hash = codes "https://" ++ host ++ codes "/" ++ hash ++ codes "/rcp.xml"
