-- ===== src/Client/Config.antt =====
-- client/src/config.rs, and the overrides that client/src/main.rs takes from the command line.
use rust_remote_fs.Prelude.{ℕ, Bool, false, ◌||◌, Option, none, some, Text, bytes}

-- `disabled` is the source's `None`.
pub data CacheStrategy : Type 0 where
  ttl lru disabled : CacheStrategy

pub record Config : Type 0 where
  pub server_url : Text
  pub cache_strategy : CacheStrategy
  pub cache_ttl_seconds : ℕ
  pub cache_lru_capacity : ℕ
  pub daemon : Bool

abbrev pub default : Config
default = record {
  server_url = bytes "http://localhost:8080";
  cache_strategy = ttl;
  cache_ttl_seconds = 60;
  cache_lru_capacity = 1000;
  daemon = false;
}

-- `config.toml` as the file system shows it. The `toml` crate is the parameter `from_str`.
pub data ConfigFile : Type 0 where
  missing unreadable : ConfigFile
  readable : Text → ConfigFile

module _ (from_str : Text → Option Config) where
  unfoldable pub load_config : ConfigFile → Config
  load_config missing = default
  load_config unreadable = default
  load_config (readable content) = elim (from_str content) [ some config ↦ config | none ↦ default ]

pub record Cli : Type 0 where
  pub mountpoint : Text
  pub daemon : Bool
  pub cache_strategy : Option CacheStrategy
  pub cache_ttl_seconds : Option ℕ
  pub cache_lru_capacity : Option ℕ

abbrev or_keep : {A : Type 0} → Option A → A → A
or_keep none a = a
or_keep (some b) a = b

-- What `main` does to the configuration before it creates the file system.
unfoldable pub override : Cli → Config → Config
override cli config = record config {
  cache_strategy = or_keep cli.cache_strategy config.cache_strategy;
  cache_ttl_seconds = or_keep cli.cache_ttl_seconds config.cache_ttl_seconds;
  cache_lru_capacity = or_keep cli.cache_lru_capacity config.cache_lru_capacity;
}

unfoldable pub should_daemonize : Cli → Config → Bool
should_daemonize cli config = cli.daemon || config.daemon
