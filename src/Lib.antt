-- ===== src/Lib.antt =====
-- A file system over HTTP. The client (client/src) mounts it with FUSE and keeps inode numbers,
-- an attribute cache and buffers of written blocks; the server (server/src) keeps the files and
-- tells its clients of changes over a web socket. The parts meet in HTTP messages and in the text
-- of the notifications.
--
-- Shared:
--   Prelude, HashMap, Radix: Rust's strings as lists of bytes, `std::collections::HashMap` as an
--     association list, and numbers printed and parsed.
--   Wire: requests, responses and `RemoteEntry`.
--   Outcome: how a handler ends. It replies with a value or an error code, or it panics, and what
--     it has changed before stays changed. Outcome.Keeps has the rules for predicates that every
--     step of a handler keeps, and Outcome.Calm those for handlers that do not panic.
-- Client, with a module for each file of client/src:
--   Client.Api for api_client.rs, Client.Config for config.rs and the overrides of main.rs,
--   Client.Cache for fs/cache.rs, Client.State and Client.Attributes for the types and `new` of
--   fs/mod.rs, Client.Attr for fs/attr.rs, Client.Read for fs/read.rs, Client.Write for fs/write.rs,
--   Client.Create for fs/create.rs, Client.Delete for fs/delete.rs, Client.Rename for fs/rename.rs,
--   Client.Xattr for fs/xattr.rs, Client.Start for `main` of main.rs, Client.Watch for
--   `connect_and_watch` there, and Client.Inodes.Trace for the dispatch of `FsWrapper` in fs/mod.rs.
--   A handler has its source's name (`open` is `open_`), takes the arguments that its source uses,
--   and maps the locked `RemoteFS` and the world outside to what it replies and to both after it.
--   Client.Lively has what the handlers need so as not to panic, one call after the other.
-- Server:
--   Server.GetFile for `get_file` of server/src/handlers.rs, and Server.Echo for `record_change`
--   there and for the watcher's callback in server/src/main.rs. Server.Handlers has the other
--   handlers of server/src/handlers.rs, over Server.Disk, which is what they call of std::fs and
--   tokio::fs. There, a `write_all` that succeeds has taken its bytes: what a file holds is told only
--   for states in which the writes that were taken are done.
--   Server.Routes has the router of server/src/main.rs, which takes a request to its handler, and
--   Server.Socket its `websocket`, over the events of one connection in the order in which they
--   happen. Server.Uploads has `put_file` once more, cut at its `await`s: a schedule, which is any
--   list of places, tells which of several uploads goes on next.
-- EndToEnd: the client's `read` against the server's `get_file`, its `release` against `put_file`,
--   permissions on their way to the server and back, the calls of client/src/api_client.rs against
--   the routes of the server, the attributes of a file, a read of what was written, a file that is
--   renamed, the deletion and the move of a directory and what is below it, what is on the disk after
--   a sequence of calls of several clients, and a change that a client makes, up to the message that
--   every client gets and to what the client's loop over its messages does to the cache.
-- Tests: a small world, and the theorems at concrete inputs.
--
-- What is not under client/src or server/src is a parameter, Client.Platform: the exchange of one
-- request for a response, the clocks, serde_json, the `lru` crate with the laws that it documents,
-- and the order in which a `HashMap` is iterated. The toml crate is an argument of `load_config`. A
-- file that `get_file` has opened is what its metadata, its seeks and its stream give. Of axum,
-- hyper and tokio, Server.Routes.Web has how a path matches a pattern and how a body is taken apart;
-- the receiver of a `broadcast` channel gives its messages in order, up to an error.
--
-- Numbers are of any size where the source cannot overflow; a vector that would grow past
-- `isize::MAX` bytes panics, and memory does not run out before; on `u64`, additions and subtractions
-- that overflow panic, as in the builds that the READMEs use. An `i64` is its 64-bit pattern. Times
-- are nanoseconds; an `Instant` whose seconds do not fit in an `i64` panics. `recursive_delete` and
-- `recursive_move_client_side` take the room that is left on the stack, and abort beyond it. All
-- else is structural recursion, but printing, whose fuel is the number itself and one more, while
-- each step divides it.
--
-- Not modelled: requests other than uploads that are served between two steps of a handler, the
-- unwinding of a panic, which ends the process of the client, when a
-- write that tokio has taken is done, what a deletion or a move does on a stack that overflows but to
-- end the client, and what is input and output alone: the listening socket, the attempts to
-- connect, the logging, and the mount itself.
pub mod Prelude
pub mod HashMap
pub mod Radix
pub mod Wire
pub mod Outcome
pub mod Server
pub mod Client
pub mod EndToEnd
pub mod Tests
