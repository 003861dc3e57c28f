-- ===== src/Config/Types.antt =====
-- The configuration's records: crates/halephant-core/src/config/cluster/, config/server.rs and
-- config/mod.rs. A `Duration` is a number of milliseconds.
use halephant.Prelude.{ℕ, List, Text, Option}
use halephant.Prelude.Map.{Map}

abbrev pub Duration : Type 0
Duration = ℕ

pub record ConnectionLimits : Type 0 where
  pub primary : ℕ
  pub replica : ℕ

pub record UserParameters : Type 0 where
  pub application_name : Option Text
  pub options : Map Text Text

pub record UserConfig : Type 0 where
  pub alias : Option Text
  pub max_connections : Option ConnectionLimits
  pub min_connections : ConnectionLimits
  pub parameters : UserParameters

pub data PoolMode : Type 0 where
  transaction session : PoolMode

pub data ListenMode : Type 0 where
  pin multiplex : ListenMode

pub record PoolConfig : Type 0 where
  pub database : Option Text
  pub mode : PoolMode
  pub listen_mode : Option ListenMode
  pub max_connections : ConnectionLimits
  pub idle_timeout : Duration
  pub max_lifetime : Duration
  pub checkout_timeout : Option Duration
  pub user : Map Text UserConfig

pub record AuthConfig : Type 0 where
  pub query : Text
  pub cache_ttl : Duration

pub record TopologyConfig : Type 0 where
  pub interval : Duration
  pub timeout : Duration

pub record ClusterConfig : Type 0 where
  pub nodes : List Text
  pub admin_user : Text
  pub admin_database : Text
  pub connect_timeout : Duration
  pub auth : AuthConfig
  pub topology : TopologyConfig
  pub pool : Map Text PoolConfig

pub record ServerConfig : Type 0 where
  pub listen : List Text
  pub pgpass : Option Text
  pub workers : ℕ
  pub shutdown_timeout : Duration
  pub checkout_timeout : Duration
  pub max_prepared_statements : ℕ

pub data LogFormat : Type 0 where
  json text : LogFormat

pub record LoggingConfig : Type 0 where
  pub format : LogFormat
  pub level : Text

pub data QueryText : Type 0 where
  off sanitized raw : QueryText

pub record OtelConfig : Type 0 where
  pub endpoint : Option Text
  pub service_name : Text
  pub query_text : QueryText

pub record AdminConfig : Type 0 where
  pub listen : Option Text

pub record Config : Type 0 where
  pub server : ServerConfig
  pub logging : LoggingConfig
  pub admin : AdminConfig
  pub otel : OtelConfig
  pub cluster : Map Text ClusterConfig
