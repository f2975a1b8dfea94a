-- ===== src/Client/Start.antt =====
-- `main` of client/src/main.rs, up to the mount, which is fuser's.
use rust_remote_fs.Prelude.{
  ℕ, ◌≡◌, sym, ap, inl, inr, Bool-cases, Bool, true, false, Option, List, [], ◌∷◌, Text, bytes,
  if◌then◌else◌,
}
use rust_remote_fs.Client.Config.{Config, ConfigFile, Cli, load_config, override, should_daemonize}
use rust_remote_fs.Client.Cache
use rust_remote_fs.Client.Platform.{Platform}
use rust_remote_fs.Client.State.{RemoteFs, new}

pub data MountOption : Type 0 where
  auto_unmount rw : MountOption
  fs_name : Text → MountOption

-- The arguments of `fuser::mount2`.
pub record Mount (P : Platform) : Type 0 where
  pub filesystem : RemoteFs P
  pub mountpoint : Text
  pub options : List MountOption

-- What the process comes to: the mount, an exit with a code, or a panic.
pub data Start (P : Platform) : Type 0 where
  mounts : Mount P → Start P
  exits : ℕ → Start P
  panics : Start P

-- Whether the two files for the output can be created, and whether `daemonize.start` succeeds. The
-- process goes on as the child of that call.
pub record Daemonizing : Type 0 where
  pub files : Bool
  pub started : Bool

abbrev pub mount_options : List MountOption
mount_options = auto_unmount ∷ fs_name (bytes "remoteFS") ∷ rw ∷ []

module _ (P : Platform) (from_str : Text → Option Config) where
  -- `should_daemonize`, `files` and `started` decide whether the rest is reached.
  abbrev daemonized : Bool → Daemonizing → Start P → Start P
  daemonized false d rest = rest
  daemonized true d rest = elim d.files [
    | false ↦ panics
    | true ↦ elim d.started [ false ↦ exits 1 | true ↦ rest ]
  ]

  -- The two times are those that `RemoteFS::new` reads.
  unfoldable pub main : ConfigFile → Cli → Daemonizing → (system_now instant_now : ℕ) → Start P
  main file cli d system_now instant_now =
      let config = override cli (load_config from_str file) in
      daemonized (should_daemonize cli config) d (
        if Cache.overflows P config.cache_ttl_seconds instant_now (Cache.new P config)
        then panics
        else mounts (record {
          filesystem = new P config system_now instant_now;
          mountpoint = cli.mountpoint;
          options = mount_options;
        }))

  if-mounts : (b : Bool) (m n : Mount P) → (if b then panics else mounts m) ≡ mounts n → m ≡ n
  if-mounts true m n e = cc
  if-mounts false m n e = cc

  daemonized-mounts :
      (b : Bool) (d : Daemonizing) (rest : Start P) (after : Mount P)
      → daemonized b d rest ≡ mounts after
      → rest ≡ mounts after
  daemonized-mounts false d rest after e = e
  daemonized-mounts true d rest after e = elim (Bool-cases d.files) [
    | inr none_made ↦ cc (none_made, e)
    | inl made ↦ elim (Bool-cases d.started) [
      | inr failed ↦ cc (made, failed, e)
      | inl child ↦ cc (made, child, e)
    ]
  ]

  -- What is mounted is a new file system, with the settings of the command line over the file's.
  pub main-mounts :
      (file : ConfigFile) (cli : Cli) (d : Daemonizing) (system_now instant_now : ℕ) (m : Mount P)
      → main file cli d system_now instant_now ≡ mounts m
      → m.filesystem ≡ new P (override cli (load_config from_str file)) system_now instant_now
  unfolding main
  main-mounts file cli d system_now instant_now m e =
      sym (ap (λ x. x.filesystem) (if-mounts _ _ m (daemonized-mounts _ d _ m e)))
