-- ===== src/Cloud/Client.antt =====
-- client.py: the client object. The token source is awaited first on every call; it is a function of
-- what was sent before, and may raise.
use bosch_shc_camera_client.Common.{Bool, List, Option}
use bosch_shc_camera_client.Common.Texts.{Text, Bytes}
use bosch_shc_camera_client.Common.Dict.{Dict}
use bosch_shc_camera_client.Cloud.Wire.{Request, Server, Outcome, Call, ◌>>=◌}
use bosch_shc_camera_client.Cloud.Cameras.{Parsed, Camera, list_cameras, get_latest_event_image}
use bosch_shc_camera_client.Cloud.States.{CameraAccountStates, get_camera_account_states}
use bosch_shc_camera_client.Cloud.Put.{CloudPutResult, cloud_set_privacy_mode}
use bosch_shc_camera_client.Cloud.Live.{LiveConnection, open_local_live_connection}

pub record BoschCameraClient : Type 0 where
  pub session : Server
  pub token_source : List Request → Outcome Text
  pub api_url : Text

module _ (self : BoschCameraClient) where
  -- await self._token_source()
  abbrev pub token : Call Text
  token sent = (self.token_source sent, sent)

  unfoldable pub client_list_cameras : Call (List Camera)
  unfolding list_cameras
  client_list_cameras = do t ← token; list_cameras self.session t self.api_url

  unfoldable pub client_get_latest_event_image : (Text → Option Parsed) → Text → Call (Option Bytes)
  unfolding get_latest_event_image
  client_get_latest_event_image urlparse camera_id = do
    t ← token
    get_latest_event_image urlparse self.session t self.api_url camera_id

  unfoldable pub client_get_camera_account_states :
      (Text → Text) → Call (Dict Text CameraAccountStates)
  unfolding get_camera_account_states
  client_get_camera_account_states upper = do
    t ← token
    get_camera_account_states upper self.session t self.api_url

  unfoldable pub client_set_privacy_mode : Text → Bool → Call CloudPutResult
  unfolding cloud_set_privacy_mode
  client_set_privacy_mode camera_id enabled = do
    t ← token
    cloud_set_privacy_mode self.session t camera_id enabled

  unfoldable pub client_open_local_live_connection : Text → Bool → Call LiveConnection
  unfolding open_local_live_connection
  client_open_local_live_connection camera_id high_quality = do
    t ← token
    open_local_live_connection self.session t self.api_url camera_id high_quality
