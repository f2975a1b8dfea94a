-- ===== src/Tests/Lively.antt =====
-- A client that is called a few times.
use mathlib.Core.List.{not-mem-nil, eq-or-mem_of_mem-cons}
use mathlib.Core.Logic.Or
use rust_remote_fs.Prelude.{
  ◌+◌, ◌^◌, ◌<◌, subst, sym, ◌≡◌, ◌≢◌, refl, none, some, bytes, arith, nat_eq,
}
use mathlib.Core.Option.{some-injective}
use native.Mathlib.Bridge.{le_prop}
use rust_remote_fs.Radix.{u64_mod}
use rust_remote_fs.Wire.{RemoteEntry}
use rust_remote_fs.Outcome.{panic}
use rust_remote_fs.Client.Config.{Config, ConfigFile, Cli, load_config, override, should_daemonize}
use rust_remote_fs.Client.Config
use rust_remote_fs.Client.Cache
use rust_remote_fs.Client.Start.{Mount, mounts, mount_options, main}
use rust_remote_fs.Client.Platform.{Platform}
use rust_remote_fs.Client.State.{Sys, new}
use rust_remote_fs.Client.Inodes.Trace.{Call, answer, dispatch}
use rust_remote_fs.Client.Lively.{IsUsual, AreSane}
use rust_remote_fs.Client.Lively.Session.{Lived, Lived-answers}
use rust_remote_fs.Tests.World.{here, listed, here-IsHashOrder}
use rust_remote_fs.Tests.Inodes.{no_toml, plain_cli, in_front}

abbrev usual : Platform
usual = here

listed-AreSane : AreSane listed
listed-AreSane = (
  omega arith,
  λ entry m. (
    Or.elim le_prop (eq-or-mem_of_mem-cons m)
        (λ e. subst (λ (x : RemoteEntry). x.size + 511 < u64_mod) (sym e) (omega arith))
        (λ none_left. absurd (not-mem-nil none_left)),
    Or.elim le_prop (eq-or-mem_of_mem-cons m)
        (λ e. subst (λ (x : RemoteEntry). x.mtime < 2 ^ 63) (sym e) (omega arith))
        (λ none_left. absurd (not-mem-nil none_left)),
  ),
)

usual-IsUsual : IsUsual usual
usual-IsUsual = record {
  listings = λ req w response entries sent e.
      subst AreSane (some-injective listed entries e) listed-AreSane;
  clock = λ w. omega arith;
  order = here-IsHashOrder;
}

abbrev mounted_usual : Mount usual
mounted_usual = record {
  filesystem = new usual Config.default 3 4;
  mountpoint = bytes "/mnt/remote";
  options = mount_options;
}

started : main usual no_toml ConfigFile.missing plain_cli in_front 3 4 ≡ mounts mounted_usual
unfolding main load_config override should_daemonize Cache.overflows Cache.new
started = refl

short_lived :
    (override plain_cli (load_config no_toml ConfigFile.missing)).cache_ttl_seconds < 2 ^ 62
unfolding load_config override
short_lived = omega arith

abbrev at_mount : Sys usual
at_mount = record { fs = mounted_usual.filesystem; world = 9 }

abbrev creates : Call
creates = Call.create 501 20 1 (some (bytes "b")) 0o644

abbrev writes : Call
writes = Call.write 1 0 (bytes "xyz")

abbrev truncates : Call
truncates = Call.setattr 2 none (some 5)

abbrev renames : Call
renames = Call.rename 3 1 (some (bytes "b")) 1 (some (bytes "c"))

abbrev moved : Sys usual
moved = dispatch usual renames (dispatch usual writes (dispatch usual creates at_mount))

writing : Lived usual no_toml 2 moved
writing = Lived.removed renames tt (
    Lived.called {n = 1} writes (omega arith) (
      Lived.called {n = 0} creates (bytes "b", refl)
        (Lived.mounted ConfigFile.missing plain_cli in_front 3 4 mounted_usual 9 started
          short_lived)))

Lived-answers_example : (answer usual truncates moved).0 ≢ panic
Lived-answers_example =
    Lived-answers usual-IsUsual no_toml writing (omega arith) truncates (omega arith)
