-- ===== src/Tests/Inodes.antt =====
-- A mounted file system that creates a file, lists the root and renames the file.
use rust_remote_fs.Prelude.{
  ◌≡◌, refl, Option, none, true, Text, some, bytes, false, nat_eq, text_eq,
}
use rust_remote_fs.Client.Config.{Config, ConfigFile, Cli, load_config, override, should_daemonize}
use rust_remote_fs.Client.Start.{Mount, mounts, mount_options, Daemonizing, main}
use rust_remote_fs.Client.Cache
use rust_remote_fs.Client.State.{Sys}
use rust_remote_fs.Client.Inodes.{IsConsistent}
use rust_remote_fs.Client.Inodes.Trace.{Call, dispatch, Reachable, Reachable-IsConsistent}
use rust_remote_fs.Tests.World.{here, mounted_fs}

abbrev pub at_mount : Sys here
at_mount = record { fs = mounted_fs; world = 9 }

abbrev creates : Call
creates = Call.create 501 20 1 (some (bytes "b")) 0o644

abbrev lists : Call
lists = Call.readdir (λ lines line. false) 1 0

abbrev renames : Call
renames = Call.rename 3 1 (some (bytes "b")) 1 (some (bytes "c"))

abbrev later_sys : Sys here
later_sys = dispatch here renames (dispatch here lists (dispatch here creates at_mount))

abbrev pub no_toml : Text → Option Config
no_toml content = none

abbrev pub plain_cli : Cli
plain_cli = record {
  mountpoint = bytes "/mnt/remote";
  daemon = false;
  cache_strategy = none;
  cache_ttl_seconds = none;
  cache_lru_capacity = none;
}

abbrev pub in_front : Daemonizing
in_front = record { files = true; started = true }

abbrev mounted_root : Mount here
mounted_root = record {
  filesystem = mounted_fs;
  mountpoint = bytes "/mnt/remote";
  options = mount_options;
}

started : main here no_toml ConfigFile.missing plain_cli in_front 3 4 ≡ mounts mounted_root
unfolding main load_config override should_daemonize Cache.overflows Cache.new
started = refl

pub mounted_reached : Reachable here no_toml at_mount
mounted_reached = Reachable.mounted ConfigFile.missing plain_cli in_front 3 4 mounted_root 9 started

later_reached : Reachable here no_toml later_sys
later_reached =
    Reachable.called renames (Reachable.called lists (Reachable.called creates mounted_reached))

Reachable-IsConsistent_example : IsConsistent later_sys.fs
Reachable-IsConsistent_example = Reachable-IsConsistent here no_toml later_reached
