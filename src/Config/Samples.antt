-- ===== src/Config/Samples.antt =====
-- A small configuration for the tests.
use halephant.Prelude.{[], ◌∷◌, none, codes}
use halephant.Config.Types.{
  UserConfig, PoolConfig, transaction, ClusterConfig, LogFormat, QueryText, Config,
}

abbrev pub app_user : UserConfig
app_user = record {
  alias = none;
  max_connections = none;
  min_connections = record { primary = 1; replica = 0 };
  parameters = record { application_name = none; options = [] };
}

abbrev pub app_pool : PoolConfig
app_pool = record {
  database = none;
  mode = transaction;
  listen_mode = none;
  max_connections = record { primary = 2; replica = 0 };
  idle_timeout = 300000;
  max_lifetime = 3600000;
  checkout_timeout = none;
  user = (codes "app", app_user) ∷ [];
}

abbrev pub main_cluster : ClusterConfig
main_cluster = record {
  nodes = codes "a:5432" ∷ [];
  admin_user = codes "halephant";
  admin_database = codes "postgres";
  connect_timeout = 5000;
  auth = record { query = codes "SELECT"; cache_ttl = 300000 };
  topology = record { interval = 5000; timeout = 3000 };
  pool = (codes "shop", app_pool) ∷ [];
}

abbrev pub one_cluster : Config
one_cluster = record {
  server = record {
    listen = codes "0.0.0.0:6432" ∷ [];
    pgpass = none;
    workers = 0;
    shutdown_timeout = 30000;
    checkout_timeout = 30000;
    max_prepared_statements = 0;
  };
  logging = record { format = LogFormat.json; level = codes "info" };
  admin = record { listen = none };
  otel = record { endpoint = none; service_name = codes "halephant"; query_text = QueryText.off };
  cluster = (codes "main", main_cluster) ∷ [];
}
