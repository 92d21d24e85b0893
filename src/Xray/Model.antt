-- ===== src/Xray/Model.antt =====
-- The structs of internal/xray/config.go. An optional `json.RawMessage` is `none` where it is
-- nil; `inbounds` alone tells a nil slice from an empty one, since it has no `omitempty`.
use flint2_xray_web_console.Base.{Bool, Option, List, Text}
use flint2_xray_web_console.Base.Int.{ℤ}
use flint2_xray_web_console.Json.{Json}
use flint2_xray_web_console.Json.Map.{Map}

pub record Client : Type 0 where
  pub id : Text
  pub flow : Text
  pub email : Text
  pub level : Option ℤ
  pub extra : Map Json

pub record Settings : Type 0 where
  pub decryption : Text
  pub clients : List Client
  pub extra : Map Json

pub record RealitySettings : Type 0 where
  pub show : Bool
  pub dest : Text
  pub xver : Option ℤ
  pub server_names : List Text
  pub private_key : Text
  pub short_ids : List Text
  pub fingerprint : Text
  pub extra : Map Json

pub record StreamSettings : Type 0 where
  pub network : Text
  pub security : Text
  pub reality_settings : Option RealitySettings
  pub tls_settings : Option Json
  pub extra : Map Json

pub record Inbound : Type 0 where
  pub listen : Text
  pub port : Option Json
  pub protocol : Text
  pub tag : Text
  pub settings : Option Settings
  pub stream_settings : Option StreamSettings
  pub sniffing : Option Json
  pub extra : Map Json

pub record File : Type 0 where
  pub log : Option Json
  pub dns : Option Json
  pub routing : Option Json
  pub policy : Option Json
  pub api : Option Json
  pub stats : Option Json
  pub inbounds : Option (List Inbound)
  pub outbounds : List Json
  pub extra : Map Json
