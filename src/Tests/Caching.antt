-- ===== src/Tests/Caching.antt =====
-- The cache through a few calls, under the clock's own numbers.
use rust_remote_fs.Prelude.{◌≡◌, arith, none, some, List, [], ◌∷◌, nat_eq}
use rust_remote_fs.HashMap
use rust_remote_fs.Client.Attributes.{root_dir_attr}
use rust_remote_fs.Client.Cache
use rust_remote_fs.Client.Cache.{AttributeCache, new}
use rust_remote_fs.Client.Cache.History.{Call, last_put, run, get-run}
use rust_remote_fs.Tests.World.{here, lru_config}
use rust_remote_fs.Tests.Lru.{here-IsLru}

-- Put, put for another inode, put again, asked for.
abbrev calls : List Call
calls =
    Call.put 7 root_dir_attr 60 1
    ∷ Call.put 8 root_dir_attr 60 2
    ∷ Call.put 7 (record root_dir_attr { size = 5 }) 60 3
    ∷ Call.get 7 4
    ∷ []

answered :
    (Cache.get here 7 5 (run here calls (new here lru_config))).0
    ≡ some (record root_dir_attr { size = 5 })
unfolding Cache.get Cache.put run new HashMap.get HashMap.insert
answered = ground arith

get-run_example : last_put 7 none calls ≡ some (record root_dir_attr { size = 5 })
get-run_example =
    get-run here here-IsLru 7 lru_config calls 5 (record root_dir_attr { size = 5 }) answered
