-- ===== src/Conn.antt =====
-- conn.go: a connection, with the goroutines that read and write it.
--
-- The state has the channels of `Conn`, the place where each goroutine is, and the place of a call of
-- `Close`. Each communication, each call of `Decode` and `Encode` and each line of `Close` is a step.
-- What the peer sends, whether `Encode` fails and who wins a `select` is open, and so is when the
-- users of the channels read them. `Encode` holds the mutex, so it is one step.
pub mod Order
pub mod Close
use etcdircd.Prelude.{ℕ, ◌<◌, ◌≡◌, Bool, true, false, List, [], ◌∷◌, ◌++◌, ◌-◌, length}
use etcdircd.Result.{Error}
use etcdircd.Etcd.{Message}

-- `read`: at `Decode`, at the `select`, before `c.errc <- err`, and at its end.
pub data ReaderAt : Type 0 where
  decoding read_ended : ReaderAt
  offering : Message → ReaderAt
  read_failed : Error → ReaderAt

-- `write`: at the `select`, at `Encode`, before `c.errc <- err`, and at its end.
pub data WriterAt : Type 0 where
  waiting write_ended : WriterAt
  encoding : Message → WriterAt
  write_failed : Error → WriterAt

-- `Close`: not called, after `close(c.stopc)`, after `c.rwc.Close()`, and after `close(c.errc)`.
pub data Closing : Type 0 where
  is_open stop_closed rwc_closed errc_closed : Closing

-- What `Encode` has written: a message of the writer, or one of `SendMsgSync`.
pub data Sent : Type 0 where
  queued direct : Message → Sent

-- `wg` is the counter of the wait group. The lists from `decoded` on are not in the program: they hold what has passed so far. `decoded` has
-- the messages that `Decode` has returned, `received` those that have been read from `Reader()`,
-- `dropped` the one that the reader has given up, `taken` those that the writer has taken, `lost` the
-- one that it could not encode, and `wire` what has been written.
pub record Conn : Type 0 where
  pub rch : List Message
  pub errc : List Error
  pub reading : ReaderAt
  pub writing : WriterAt
  pub closing : Closing
  pub wg : ℕ
  pub decoded : List Message
  pub received : List Message
  pub dropped : List Message
  pub taken : List Message
  pub lost : List Message
  pub wire : List Sent

abbrev pub rch_size : ℕ
rch_size = 1024

abbrev pub errc_size : ℕ
errc_size = 2

-- `NewConn`
abbrev pub new_conn : Conn
new_conn = record {
  rch = [];
  errc = [];
  reading = decoding;
  writing = waiting;
  closing = is_open;
  wg = 2;
  decoded = [];
  received = [];
  dropped = [];
  taken = [];
  lost = [];
  wire = [];
}

-- Whether `c.stopc` is closed.
abbrev pub stopped : Closing → Bool
stopped is_open = false
stopped stop_closed = true
stopped rwc_closed = true
stopped errc_closed = true

-- The steps of the two goroutines; at its end each calls `wg.Done()`, which it has deferred.
pub data Run (c : Conn) : Conn → Type 0 where
  decode_returns :
      (m : Message)
      → c.reading ≡ decoding
      → Run c (record c { reading = offering m; decoded = c.decoded ++ m ∷ [] })
  decode_fails : (x : Error) → c.reading ≡ decoding → Run c (record c { reading = read_failed x })
  offer :
      (m : Message)
      → c.reading ≡ offering m
      → length c.rch < rch_size
      → Run c (record c { reading = decoding; rch = c.rch ++ m ∷ [] })
  read_stops :
      (m : Message)
      → c.reading ≡ offering m
      → stopped c.closing ≡ true
      → Run c (record c { reading = read_ended; wg = c.wg - 1; dropped = m ∷ c.dropped })
  read_ends :
      (x : Error)
      → c.reading ≡ read_failed x
      → length c.errc < errc_size
      → Run c (record c { reading = read_ended; wg = c.wg - 1; errc = c.errc ++ x ∷ [] })
  writer_takes :
      (m : Message)
      → c.writing ≡ waiting
      → Run c (record c { writing = encoding m; taken = c.taken ++ m ∷ [] })
  encode_returns :
      (m : Message)
      → c.writing ≡ encoding m
      → Run c (record c { writing = waiting; wire = c.wire ++ queued m ∷ [] })
  encode_fails :
      (m : Message) (x : Error)
      → c.writing ≡ encoding m
      → Run c (record c { writing = write_failed x; lost = m ∷ c.lost })
  write_ends :
      (x : Error)
      → c.writing ≡ write_failed x
      → length c.errc < errc_size
      → Run c (record c { writing = write_ended; wg = c.wg - 1; errc = c.errc ++ x ∷ [] })
  write_stops :
      c.writing ≡ waiting
      → stopped c.closing ≡ true
      → Run c (record c { writing = write_ended; wg = c.wg - 1 })

-- The steps of the others: a read from `Reader()` or `Err()`, a `SendMsgSync`, and the lines of
-- `Close`, where `wg.Wait()` and `close(c.errc)` are one.
pub data Use (c : Conn) : Conn → Type 0 where
  receive :
      (m : Message) (rest : List Message)
      → c.rch ≡ m ∷ rest
      → Use c (record c { rch = rest; received = c.received ++ m ∷ [] })
  read_err : (x : Error) (rest : List Error) → c.errc ≡ x ∷ rest → Use c (record c { errc = rest })
  send_sync : (m : Message) → Use c (record c { wire = c.wire ++ direct m ∷ [] })
  close_stop : c.closing ≡ is_open → Use c (record c { closing = stop_closed })
  close_rwc : c.closing ≡ stop_closed → Use c (record c { closing = rwc_closed })
  close_errc : c.closing ≡ rwc_closed → c.wg ≡ 0 → Use c (record c { closing = errc_closed })

pub data ConnReach (c : Conn) : Conn → Type 0 where
  here : ConnReach c c
  run : {d d' : Conn} → ConnReach c d → Run d d' → ConnReach c d'
  use_it : {d d' : Conn} → ConnReach c d → Use d d' → ConnReach c d'
