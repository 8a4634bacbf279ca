-- ===== src/Lib.antt =====
-- etcdircd: an IRC daemon that keeps its state in etcd. Each client of a server is an `etcdClient`,
-- whose commands are transactions on etcd: they read and write the record of a user, the state of a
-- channel, and the list of the members that a channel has on one server.
--
-- The files, and the code that each one models:
--   Mode (mode.go): modes, permissions and updates. Go's slices share their arrays, and `updateSlice`
--     depends on that, so its state is a slice with the array of the old value.
--   User (user.go), Channel (channel.go and oper.go): the records, and who sees whom.
--   Key (key.go): the names of keys, and the encoding of their sensitive part. Keyencode
--     (keyencode/encode.go): the encoders beneath it. Text: the functions of Go's `strings` and `fmt`
--     that key.go calls, on byte strings.
--   Etcd: what the program takes from outside: the view of the store that a transaction of etcd's STM
--     has (`Get`, `Rev`, `Put`, `Del`, and the commit), and gob's codecs, with their documented laws.
--   Keyencode.Kv (keyencode/kv.go and keyencode/watch.go): a store and a watcher behind an encoder of
--     keys. Key.Prefix: how the encoder of key.go treats the range of a channel's member lists.
--   Client (etcd_client.go, and `SendMsg` of conn.go): the state that a handler runs in, `doSTM`, and
--     replies. Its children are the handlers of etcd_client.go: Join, Part, Kick, Quit, Topic, PrivMsg,
--     Oper, Away, and Modes for `Mode`. In each, `..._tx` is the closure that the transaction runs,
--     `..._reply` is what follows the transaction, and a function with the name of the handler
--     composes them. Query has the queries for users, Names the replies that list them, with `Who`,
--     `Names` and the whole of `Join` (`join_chan`), Lists has `List`, `Whois`, `Ping` and `Die`, and
--     Quiet the rules for code that writes nothing. Commit has the rules of a transaction at the level of
--     the store, and Leases the leases under which the handlers keep the keys. Monitor has the loops of the watches, `monitorMsg`
--     and `monitorPart`, over lists of responses, and Watches has `monitorChannel` and the contexts of
--     the watches.
--   Conn (conn.go): the goroutines that read and write a connection, with their channels, and `Close`,
--     as a relation on states.
--   Server (server.go, config.go, and `newEtcdClient` of etcd_client.go): Request is
--     `readConnRequest`, Register is `newEtcdClient`, Handshake is `handshake` and `motd`, Calls has the
--     handlers as the calls of `ClientDo`, Loop is the loop of `handleConn` over what comes in, and
--     System has the connections of all servers on one etcd, as a relation on states.
--   Session (session.go): the goroutine that makes the session and makes it again, as a relation on its
--     states; Progress has the ways to the next session and to the end.
--   Command (client.go): `ClientDo`, up to the handler that it calls.
--   Ctl (cmd/ircdctl/oper.go and cmd/ircdctl/notice.go): the commands of an administrator.
--   Tables: the contents of the store without keys and encodings: users, channels and members; Store
--     has the rules of the tables for each write, and Consistent the agreement of users and members.
--   Moves: what a user may do to the tables, as a specification that the handlers refine. Sound is the
--     invariant of the tables, Changes has the registrations and the end of leases, and Under
--     the lease of a record; Members, Channels, Users and Sends compare the handlers with the moves.
--   Exec, Result, Reply, Prelude: the monad of steps that may fail, results, the constants of replies,
--     and shared helpers.
--   Sample and Examples: a store in memory, and the theorems at concrete runs.
--
-- A Go string is a list of byte values, a number is a natural number, and a time is a number. An error
-- is a value of `Result`, and an index out of range is `panic`. A transaction is given the snapshots
-- of its attempts that met a conflict, and the verdict on the last one (`Fate`): its closure runs on
-- each of them in turn, and the captured variables keep their values from one attempt to the next, as
-- in the code. `Session()` is given as a result. Which messages a connection accepts is given as a
-- schedule (`taken`). The digits of a number in a base are computed on fuel, one more step than the
-- number, which is enough because each step divides it by the base.
--
-- A read outside of a transaction is a function from the revision that is asked for (0 for the latest)
-- to the store that answers and the revision in its header. A loop over a channel of Go is a function on
-- the list of what comes in: the reader of `readConnRequest` waits for more where its list ends, a watch
-- ends there. A round of `handshake` and an event of `monitorPart` carry the store that they find, so the
-- other parties may do anything in between.
--
-- A step of System is a whole message, at one moment of the store; the store of a JOIN or a KICK of
-- several names may change between its transactions, each of which is that of a message of one name. A
-- nick may be registered while another connection of that nick is open, and `Session()` may answer
-- another session at each call; which lease the record of a client must have for a message to be
-- handled is a condition of the theorems. The end of a lease deletes the keys that were last put with
-- it, which is what etcd does; Client.Leases has the leases of the keys, and Expiry what their end does
-- to the tables.
--
-- Not modelled: the accept loop of `Serve` apart from the rule for new connections, and the waits for
-- the goroutines of a client. For a handler `Session()` is a result that is given. Flags, logging, TLS,
-- the other command line tools, and the vendored libraries are outside of the model. `Nick` is a stub
-- that panics.
mod Prelude
pub mod Result
pub mod Text
pub mod Key
pub mod Mode
pub mod Keyencode
pub mod User
pub mod Channel
pub mod Exec
pub mod Reply
pub mod Etcd
pub mod Tables
pub mod Moves
pub mod Client
pub mod Session
pub mod Conn
pub mod Server
pub mod Command
pub mod Ctl
pub mod Sample
pub mod Examples
