-- ===== src/Panel/Types.antt =====
-- The structs of internal/http and internal/config that the handlers use. The mutexes of the
-- server are not in its state: a handler's effects are those of one request at a time.
use flint2_xray_web_console.Base.{ℕ, Bool, Option, List, Text, Error, fail, not_found, wrap}
use flint2_xray_web_console.Base.Int.{ℤ}
use flint2_xray_web_console.Exec.{Exec}
use flint2_xray_web_console.Os.{World}
use flint2_xray_web_console.Service.{Manager, State}
use flint2_xray_web_console.Xray.Model.{Client}
use flint2_xray_web_console.Activity.{Tracker}

pub record AuthConfig : Type 0 where
  pub username : Text
  pub password_bcrypt : Text

-- panel.yaml
pub record Config : Type 0 where
  pub listen : Text
  pub server_address : Text
  pub xray_config : Text
  pub xray_bin : Text
  pub xray_init : Text
  pub log_error : Text
  pub log_access : Text
  pub stats_api : Text
  pub disabled_store : Text
  pub auth : AuthConfig

pub record ClientBlock : Type 0 where
  pub id : Text
  pub name : Text
  pub flow : Text

pub record DisabledClientBlock : Type 0 where
  pub id : Text
  pub name : Text
  pub flow : Text
  pub disabled_at : Text

pub record RealityBlock : Type 0 where
  pub dest : Text
  pub server_names : List Text
  pub short_ids : List Text
  pub fingerprint : Text
  pub public_key : Text
  pub has_private : Bool

pub record ServerBlock : Type 0 where
  pub listen : Text
  pub port : ℤ
  pub flow : Text
  pub reality : RealityBlock

-- The body of GET /api/state; a warning is its error.
pub record StateResponse : Type 0 where
  pub server_address : Text
  pub service : State
  pub server : ServerBlock
  pub clients : List ClientBlock
  pub disabled : List DisabledClientBlock
  pub stats_api_enabled : Bool
  pub online_tracking_enabled : Bool
  pub warnings : List Error

pub record ActivityUserRow : Type 0 where
  pub email : Text
  pub uplink : ℤ
  pub downlink : ℤ
  pub online : Bool
  pub sessions : ℤ

-- The body of GET /api/activity.
pub record ActivityResponse : Type 0 where
  pub enabled : Bool
  pub online_tracked : Bool
  pub users : List ActivityUserRow
  pub hidden_idle : ℕ
  pub message : Text

pub record StateEntry : Type 0 where
  pub payload : StateResponse
  pub at : ℕ

pub record Server : Type 0 where
  pub cfg : Config
  pub manager : Manager
  pub conf_path : Text
  pub panel_config_path : Text
  -- the cached public key, empty when there is none
  pub pub_key : Text
  pub state_entry : Option StateEntry
  -- the tracker, once there is one
  pub activity : Option Tracker
  pub world : World

pub data Body : Type 0 where
  error_body : Error → Body
  client_body : ClientBlock → Body
  status_body : Text → Body
  url_body : Text → Body
  service_body : State → Body
  state_body : StateResponse → Body
  keys_body : Text → Body
  stats_body : Text → Body
  stats_warning_body : Text → Error → Body
  online_body : Bool → Body
  activity_body : ActivityResponse → Body
  logs_body : Text → List Text → Bool → Body
  png_body : Text → Body
  no_body : Body

pub record Response : Type 0 where
  pub status : ℕ
  pub body : Body

abbrev pub reply : ℕ → Body → Response
reply code b = record { status = code; body = b }

-- `writeErr`
abbrev pub reply_error : ℕ → Error → Response
reply_error code e = reply code (error_body e)

-- `statusForErr`: 404 if the chain holds a `notFoundErr`, else 500
unfoldable pub status_for_err : Error → ℕ
status_for_err (not_found id) = 404
status_for_err (wrap msg e) = status_for_err e
status_for_err (fail msg) = 500

-- a call to the system from a handler
abbrev pub on_world : {A : Type 0} → Exec World A → Exec Server A
on_world m s = let (r, w) = m s.world in (r, record s { world = w })

abbrev pub block : Client → ClientBlock
block c = record { id = c.id; name = c.email; flow = c.flow }
