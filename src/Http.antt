-- ===== src/Http.antt =====
-- crates/firmware/src/http_server.rs: the HTTP server of the firmware, its requests and its state.
-- The JSON of a payload is its value, and the parsers of serde are a parameter.
pub mod Sections
pub mod Body
pub mod Update
pub mod Routes
pub mod Guard
pub mod Secrecy
pub mod Stored
pub mod Merge
pub mod Limits
pub mod Upload
pub mod Sockets
pub mod Host
pub mod Bench
mod Tests
use watercontroller.Base.{
  ℕ, ℤ, String, Bool, true, false, Option, none, some, List, is_empty, str_eq, strip_prefix,
  if◌then◌else◌,
}
use watercontroller.State.{AlarmEvent, DeviceSnapshot}
use watercontroller.Config.{Config, WifiCreds}
use watercontroller.Config.Persist.{ConfigError}
use watercontroller.Nvs.{Bytes}
use watercontroller.App.{App, CommandOutcome}
use watercontroller.App.Env.{Platform}
use Sections.{SectionName, SectionType}

pub data Method : Type 0 where
  get put post : Method

-- What one call of `req.read` gives: some bytes, the end of the body, or an error.
pub data Read : Type 0 where
  bytes : Bytes → Read
  failed : String → Read

-- `path` is the part of the URI that the server matches with the registered paths.
pub record Request : Type 0 where
  pub method : Method
  pub path : String
  pub uri : String
  pub authorization : Option String
  pub reads : List Read

-- The message of an `ApiError`: a text, or a text before a printed error.
pub data Message : Type 0 where
  text : String → Message
  printed : String → String → Message
  config_error : String → ConfigError → Message

pub record WifiScanResult : Type 0 where
  pub ssid : String
  pub rssi_dbm : ℤ
  pub auth : String
  pub channel : ℕ

pub data Payload (F : Type 0) : Type 0 where
  empty index_html diag : Payload F
  api_error : Message → Payload F
  snapshot : DeviceSnapshot F → Payload F
  config : Config F → Payload F
  section : (n : SectionName) → SectionType F n → Payload F
  outcome : CommandOutcome → Payload F
  networks : List WifiScanResult → Payload F
  events : List (AlarmEvent F) → Payload F
  uploaded : ℕ → Payload F

pub record Response (F : Type 0) : Type 0 where
  pub status : ℕ
  pub headers : List (String × String)
  pub body : Payload F

-- A response, or an error of the connection, or no handler for the method and the path.
pub data Answer (F : Type 0) : Type 0 where
  respond : Response F → Answer F
  io_error no_handler : Answer F

-- The calls of the trait `Wifi` that change its state.
pub data WifiCall : Type 0 where
  connect : List WifiCreds → WifiCall
  reconnect : WifiCall

-- The inactive partition: not touched, an update that was begun and aborted or left, or an image that
-- was applied.
pub data Slot : Type 0 where
  untouched aborted unfinished : Slot
  applied : Bytes → Slot

-- `req.header("Authorization").unwrap_or("")`.
abbrev pub header_or_empty : Option String → String
header_or_empty none = ""
header_or_empty (some h) = h

-- `header.strip_prefix("Bearer ") == Some(token)`.
abbrev pub is_token : Option String → String → Bool
is_token none token = false
is_token (some t) token = str_eq t token

-- `true` for `Ok(())`.
module _ (p : Platform) where
  open p use {F32, nvs}

  -- What the handlers share. `nvs` is the store that `app` holds too, so a write changes both.
  pub record Server : Type 0 where
    pub app : App p
    pub nvs : nvs.Store
    pub wifi : List WifiCall
    pub slot : Slot
    pub restarting : Bool

  unfoldable pub require_auth : Request → App p → Bool
  require_auth req app =
      if is_empty app.config.admin_token
      then true
      else is_token (strip_prefix "Bearer " (header_or_empty req.authorization))
          app.config.admin_token
