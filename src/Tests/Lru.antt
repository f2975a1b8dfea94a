-- ===== src/Tests/Lru.antt =====
-- The cache of the small world keeps what the `lru` crate documents.
use mathlib.Core.Logic.{inr}
use rust_remote_fs.Prelude.{refl, arith, nat_eq}
use rust_remote_fs.HashMap
use rust_remote_fs.HashMap.{get-insert, get-remove, get-nil}
use rust_remote_fs.Client.Platform.{IsLru}
use rust_remote_fs.Tests.World.{here}

pub here-IsLru : IsLru here
here-IsLru = record {
  peek = λ k c. HashMap.get k c;
  get-peek = λ k c. refl;
  peek-get = λ k j c. refl;
  peek-put_self = λ k a c. ground (arith, get-insert k k a c);
  peek-put_ne = λ k j a c ne. inr (ground (arith, get-insert k j a c));
  peek-pop_self = λ k c. ground (arith, get-remove k k c);
  peek-pop_ne = λ k j c ne. ground (arith, get-remove k j c);
  peek-new = λ k n. get-nil k;
}
