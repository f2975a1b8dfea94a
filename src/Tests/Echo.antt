-- ===== src/Tests/Echo.antt =====
-- A change of the client "me" to the path "a/b", told to it and to "you".
use rust_remote_fs.Prelude.{◌≡◌, ◌≢◌, refl, arith, none, some, [], ◌++◌, bytes, rsplit_once}
use rust_remote_fs.Client.Watch.{parent, read_signature, on_text}
use rust_remote_fs.Client.Attr.{split_path}
use rust_remote_fs.Client.Watch.Silence.{Forgets}
use rust_remote_fs.EndToEnd.Echo.{
  marker, message, read_signature-signed, own_change, foreign_change, late_change, marker_in_path,
}
use rust_remote_fs.Tests.Lru.{here-IsLru}
use rust_remote_fs.Tests.World.{here, mounted_fs}

clean : rsplit_once marker (bytes "me") ≡ none
unfolding rsplit_once
clean = refl

clean_path : rsplit_once marker (bytes "a/b") ≡ none
unfolding rsplit_once
clean_path = refl

others : bytes "me" ≢ bytes "you"
others e = cc

back_is_no_id : bytes "b" ≢ bytes "me"
back_is_no_id e = cc

clean_back : rsplit_once marker (bytes "b") ≡ none
unfolding rsplit_once
clean_back = refl

own_change_example :
    on_text here
      (bytes "me")
      (message (bytes "a/b") (bytes "me") none 1_000_000 400_000_000 400_000_001 [])
      mounted_fs
    ≡ mounted_fs
own_change_example =
    own_change here mounted_fs (bytes "a/b") (bytes "me") none 1_000_000 400_000_000 400_000_001 []
      clean (omega arith)

foreign_change_example : Forgets here here-IsLru (bytes "a/b") mounted_fs (
    on_text here
      (bytes "you")
      (message (bytes "a/b") (bytes "me") none 1_000_000 400_000_000 400_000_001 [])
      mounted_fs)
foreign_change_example =
    foreign_change here here-IsLru mounted_fs (bytes "you") (bytes "a/b") (bytes "me") none
      1_000_000 400_000_000 400_000_001 [] clean others (omega arith)

late_change_example : Forgets here here-IsLru (bytes "a/b") mounted_fs (
    on_text here
      (bytes "me")
      (message (bytes "a/b") (bytes "me") none 1_000_000 501_000_000 501_000_001 [])
      mounted_fs)
late_change_example =
    late_change here here-IsLru mounted_fs (bytes "me") (bytes "a/b") (bytes "me") none 1_000_000
      501_000_000 501_000_001 [] clean_path (omega arith)

marker_in_path_example : Forgets here here-IsLru (bytes "a") mounted_fs (
    on_text here
      (bytes "me")
      (message
        (bytes "a" ++ (marker ++ bytes "b"))
        (bytes "me")
        none
        1_000_000
        501_000_000
        501_000_001
        [])
      mounted_fs)
marker_in_path_example =
    marker_in_path here here-IsLru mounted_fs (bytes "me") (bytes "a") (bytes "b") (bytes "me") none
      1_000_000 501_000_000 501_000_001 [] clean_back back_is_no_id (omega arith)

read_signature-signed_example :
    read_signature (bytes "CHANGE:" ++ (bytes "a" ++ (marker ++ bytes "me")))
    ≡ (bytes "CHANGE:" ++ bytes "a", some (bytes "me"))
read_signature-signed_example = read_signature-signed (bytes "a") (bytes "me") clean

parent_of_file : parent (bytes "a/b") ≡ bytes "a"
unfolding parent split_path rsplit_once
parent_of_file = refl

parent_of_slash : parent (bytes "a/") ≡ []
unfolding parent split_path rsplit_once
parent_of_slash = refl

parent_of_dots : parent (bytes "a//b/.") ≡ bytes "a"
unfolding parent split_path rsplit_once
parent_of_dots = refl
