-- ===== src/Wire.antt =====
-- What travels between client and server: HTTP messages as reqwest and axum hand them over, and
-- `RemoteEntry` (client/src/api_client.rs, server/src/handlers.rs). A body is read whole.
use rust_remote_fs.Prelude.{ℕ, Bool, ◌&&◌, Option, none, List, [], Text, leb, ltb}

abbrev pub Bytes : Type 0
Bytes = List ℕ

-- `mtime` is the 64-bit pattern of an `i64`.
pub record RemoteEntry : Type 0 where
  pub name : Text
  pub kind : Text
  pub size : ℕ
  pub mtime : ℕ
  pub perm : Text

pub data Method : Type 0 where
  get put post delete patch : Method

-- The two headers that the program reads, as `headers.get(…)` and `to_str` give them.
pub record Headers : Type 0 where
  pub range : Option Text
  pub client_id : Option Text

pub record Request : Type 0 where
  pub method : Method
  pub url : Text
  pub headers : Headers
  pub body : Bytes

pub record Response : Type 0 where
  pub status : ℕ
  pub content_range : Option Text
  pub content_length : Option Text
  pub body : Bytes

-- A response that is a `StatusCode` alone.
abbrev pub status_only : ℕ → Response
status_only code = record { status = code; content_range = none; content_length = none; body = [] }

-- `error_for_status` fails on the 4xx and 5xx codes.
abbrev pub is_error_status : ℕ → Bool
is_error_status code = leb 400 code && ltb code 600
