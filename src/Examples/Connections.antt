-- ===== src/Examples/Connections.antt =====
-- A connection passes messages and is closed.
use etcdircd.Prelude.{refl, inl, none, [], ◌∷◌, lit, str_eq, length, ◌<◌, arith}
use etcdircd.Result.{decode_failed}
use etcdircd.Etcd.{Message}
use etcdircd.Conn.{
  Conn, offering, queued, new_conn, read_failed, rwc_closed, errc_closed, read_ended, write_ended,
  Run, decode_returns, offer, writer_takes, encode_returns, decode_fails, receive, read_stops,
  write_stops, close_stop, close_rwc, close_errc, ConnReach, here, run, use_it,
}
use etcdircd.Conn.Order.{IsOrdered, ConnReach-IsOrdered}
use etcdircd.Conn.Close.{errc_room, MustHalt, close_ends, no_goroutine_after_close}

abbrev hello : Message
hello = record { prefix = none; command = lit "PING"; params = lit "hello" ∷ [] }

abbrev bye : Message
bye = record { prefix = none; command = lit "QUIT"; params = [] }

-- Two messages come in, one of them is read, one message is written, and `Close` is called while the
-- reader holds the second one.
abbrev busy : Conn
busy = record new_conn {
  reading = offering bye;
  decoded = hello ∷ bye ∷ [];
  received = hello ∷ [];
  taken = hello ∷ [];
  wire = queued hello ∷ [];
  closing = rwc_closed;
}

busy_reached : ConnReach new_conn busy
busy_reached =
    use_it
      (use_it
        (run
          (use_it
            (run
              (run (run (run here (decode_returns hello refl)) (offer hello refl (omega arith)))
                (writer_takes hello refl))
              (encode_returns hello refl))
            (receive hello [] refl))
          (decode_returns bye refl))
        (close_stop refl))
      (close_rwc refl)

ConnReach-IsOrdered_example : IsOrdered busy
ConnReach-IsOrdered_example = ConnReach-IsOrdered busy_reached

close_ends_example : MustHalt busy
close_ends_example = close_ends busy_reached refl

abbrev stopping : Conn
stopping = record busy {
  reading = read_ended;
  dropped = bye ∷ [];
  writing = write_ended;
  closing = errc_closed;
  wg = 0;
}

stopping_reached : ConnReach new_conn stopping
stopping_reached =
    use_it (run (run busy_reached (read_stops bye refl refl)) (write_stops refl refl))
      (close_errc refl refl)

no_goroutine_after_close_example : ¬ Run stopping stopping
no_goroutine_after_close_example = no_goroutine_after_close stopping_reached refl

abbrev failing : Conn
failing = record new_conn { reading = read_failed decode_failed }

errc_room_example : length failing.errc < 2
errc_room_example = errc_room decode_failed (run here (decode_fails decode_failed refl)) (inl refl)
