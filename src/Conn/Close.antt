-- ===== src/Conn/Close.antt =====
-- conn.go: `Close` ends, and nothing is sent on the channel that it closes.
use etcdircd.Prelude.{
  ℕ, zero, suc, ◌+◌, ◌≤◌, ◌<◌, ◌≡◌, refl, sym, ◌∙◌, ◌⊎◌, inl, inr, Bool, true, false, length, arith,
}
use etcdircd.Result.{Error, canceled}
use etcdircd.Conn.{
  ReaderAt, decoding, read_ended, offering, read_failed, WriterAt, waiting, write_ended, encoding,
  write_failed, Closing, is_open, stop_closed, rwc_closed, errc_closed, Conn, errc_size, new_conn,
  stopped, Run, decode_returns, decode_fails, offer, read_stops, read_ends, writer_takes,
  encode_returns, encode_fails, write_ends, write_stops, Use, receive, read_err, send_sync,
  close_stop, close_rwc, close_errc, ConnReach, here, run, use_it,
}
use etcdircd.Conn.Order.{ended_in, ended_out, IsOrdered, Run-IsOrdered, ConnReach-IsOrdered}

at_most_one : (w : WriterAt) → ended_out w ≤ 1
at_most_one waiting = omega arith
at_most_one write_ended = omega arith
at_most_one (encoding m) = omega arith
at_most_one (write_failed x) = omega arith

at_most_once : (r : ReaderAt) → ended_in r ≤ 1
at_most_once decoding = omega arith
at_most_once read_ended = omega arith
at_most_once (offering m) = omega arith
at_most_once (read_failed x) = omega arith

-- There is room for the error of each goroutine, whether or not anybody reads the errors.
pub errc_room :
    {c : Conn} (x : Error)
    → ConnReach new_conn c
    → (c.reading ≡ read_failed x) ⊎ (c.writing ≡ write_failed x)
    → length c.errc < errc_size
errc_room {c} x r (inl at') =
    let h = (ConnReach-IsOrdered r).errors_fit in ground (arith, at_most_one c.writing, rw at' at h)
errc_room {c} x r (inr at') =
    let h = (ConnReach-IsOrdered r).errors_fit in
    ground (arith, at_most_once c.reading, rw at' at h)

-- The counter of the wait group is the number of the goroutines that have not ended.
abbrev IsCounted : Conn → Type 0
IsCounted c = c.wg + ended_in c.reading + ended_out c.writing ≡ 2

Run-IsCounted : {c c' : Conn} → Run c c' → IsCounted c → IsCounted c'
Run-IsCounted (decode_returns m at') h = ground (arith, rw at' at h)
Run-IsCounted (decode_fails x at') h = ground (arith, rw at' at h)
Run-IsCounted (offer m at' room) h = ground (arith, rw at' at h)
Run-IsCounted {c} (read_stops m at' stop) h = ground (arith, at_most_one c.writing, rw at' at h)
Run-IsCounted {c} (read_ends x at' room) h = ground (arith, at_most_one c.writing, rw at' at h)
Run-IsCounted (writer_takes m at') h = ground (arith, rw at' at h)
Run-IsCounted (encode_returns m at') h = ground (arith, rw at' at h)
Run-IsCounted (encode_fails m x at') h = ground (arith, rw at' at h)
Run-IsCounted {c} (write_ends x at' room) h = ground (arith, at_most_once c.reading, rw at' at h)
Run-IsCounted {c} (write_stops at' stop) h = ground (arith, at_most_once c.reading, rw at' at h)

Use-IsCounted : {c c' : Conn} → Use c c' → IsCounted c → IsCounted c'
Use-IsCounted (receive m rest at') h = h
Use-IsCounted (read_err x rest at') h = h
Use-IsCounted (send_sync m) h = h
Use-IsCounted (close_stop at') h = h
Use-IsCounted (close_rwc at') h = h
Use-IsCounted (close_errc at' none_left) h = h

ConnReach-IsCounted : {c : Conn} → ConnReach new_conn c → IsCounted c
ConnReach-IsCounted here = omega arith
ConnReach-IsCounted (run r s) = Run-IsCounted s (ConnReach-IsCounted r)
ConnReach-IsCounted (use_it r s) = Use-IsCounted s (ConnReach-IsCounted r)

over_in : (r : ReaderAt) → ended_in r ≡ 1 → r ≡ read_ended
over_in decoding h = absurd (omega (arith, h))
over_in read_ended h = refl
over_in (offering m) h = absurd (omega (arith, h))
over_in (read_failed x) h = absurd (omega (arith, h))

over_out : (w : WriterAt) → ended_out w ≡ 1 → w ≡ write_ended
over_out waiting h = absurd (omega (arith, h))
over_out write_ended h = refl
over_out (encoding m) h = absurd (omega (arith, h))
over_out (write_failed x) h = absurd (omega (arith, h))

none_left_ended :
    (c : Conn) → IsCounted c → c.wg ≡ 0 → (c.reading ≡ read_ended) × (c.writing ≡ write_ended)
none_left_ended c h e = (
  over_in c.reading (omega (arith, h, e, at_most_one c.writing, at_most_once c.reading)),
  over_out c.writing (omega (arith, h, e, at_most_one c.writing, at_most_once c.reading)),
)

-- Whether the network connection is closed.
abbrev pub net_closed : Closing → Bool
net_closed is_open = false
net_closed stop_closed = false
net_closed rwc_closed = true
net_closed errc_closed = true

-- The steps that are left when nobody helps the goroutines: no message comes from the network or from
-- the clients, and `Decode` fails only because the network connection is closed. A call of `Encode`
-- returns or fails.
abbrev pub is_alone : {c c' : Conn} → Run c c' → Bool
is_alone (decode_returns m at') = false
is_alone {c} (decode_fails x at') = net_closed c.closing
is_alone (offer m at' room) = true
is_alone (read_stops m at' stop) = true
is_alone (read_ends x at' room) = true
is_alone (writer_takes m at') = false
is_alone (encode_returns m at') = true
is_alone (encode_fails m x at') = true
is_alone (write_ends x at' room) = true
is_alone (write_stops at' stop) = true

-- By such steps the goroutines come to the state where `wg.Wait()` returns, whichever steps they take:
-- they are never stuck before, and the steps come to an end.
pub data MustHalt : Conn → Type 0 where
  wait_returns : {c : Conn} → c.closing ≡ rwc_closed → c.wg ≡ 0 → MustHalt c
  onward :
      {c d : Conn} (s : Run c d)
      → is_alone s ≡ true
      → ((d' : Conn) (s' : Run c d') → is_alone s' ≡ true → MustHalt d')
      → MustHalt c

-- How many steps a goroutine can still take.
abbrev left_in : ReaderAt → ℕ
left_in read_ended = 0
left_in (read_failed x) = 1
left_in decoding = 2
left_in (offering m) = 3

abbrev left_out : WriterAt → ℕ
left_out write_ended = 0
left_out (write_failed x) = 1
left_out waiting = 1
left_out (encoding m) = 2

abbrev left : Conn → ℕ
left c = left_in c.reading + left_out c.writing

step_less : {c d : Conn} (s : Run c d) → is_alone s ≡ true → left d < left c
step_less (decode_returns m at') a = cc
step_less (decode_fails x at') a = rw at' (omega arith)
step_less (offer m at' room) a = rw at' (omega arith)
step_less (read_stops m at' stop) a = rw at' (omega arith)
step_less (read_ends x at' room) a = rw at' (omega arith)
step_less (writer_takes m at') a = cc
step_less (encode_returns m at') a = rw at' (omega arith)
step_less (encode_fails m x at') a = rw at' (omega arith)
step_less (write_ends x at' room) a = rw at' (omega arith)
step_less (write_stops at' stop) a = rw at' (omega arith)

closing_kept : {c c' : Conn} → Run c c' → c'.closing ≡ c.closing
closing_kept (decode_returns m at') = refl
closing_kept (decode_fails x at') = refl
closing_kept (offer m at' room) = refl
closing_kept (read_stops m at' s) = refl
closing_kept (read_ends x at' room) = refl
closing_kept (writer_takes m at') = refl
closing_kept (encode_returns m at') = refl
closing_kept (encode_fails m x at') = refl
closing_kept (write_ends x at' room) = refl
closing_kept (write_stops at' s) = refl

module _ (c : Conn) (h : IsOrdered c) (at' : c.closing ≡ rwc_closed) where
  abbrev CanStep : Type 0
  CanStep = (d : Conn) × (s : Run c d) × (is_alone s ≡ true)

  stopped_now : stopped c.closing ≡ true
  stopped_now = rw at' refl

  writer_steps :
      (w : WriterAt) → c.writing ≡ w → c.reading ≡ read_ended → IsCounted c → (c.wg ≡ 0) ⊎ CanStep
  writer_steps waiting w r k = inr (_, write_stops w stopped_now, refl)
  writer_steps (encoding m) w r k = inr (_, encode_returns m w, refl)
  writer_steps (write_failed x) w r k =
      inr (_, write_ends x w (ground (arith, at_most_once c.reading, rw w at h.errors_fit)), refl)
  writer_steps write_ended w r k = inl (ground (arith, rw (w, r) at k))

  -- The goroutines have ended, or one of them has a step.
  one_steps : (r : ReaderAt) → c.reading ≡ r → IsCounted c → (c.wg ≡ 0) ⊎ CanStep
  one_steps decoding r k = inr (_, decode_fails canceled r, rw at' refl)
  one_steps (offering m) r k = inr (_, read_stops m r stopped_now, refl)
  one_steps (read_failed x) r k =
      inr (_, read_ends x r (ground (arith, at_most_one c.writing, rw r at h.errors_fit)), refl)
  one_steps read_ended r k = writer_steps c.writing refl r k

goroutines_end :
    (n : ℕ) (c : Conn)
    → left c < n
    → IsOrdered c
    → IsCounted c
    → c.closing ≡ rwc_closed
    → MustHalt c
goroutines_end zero c few h k at' = absurd (omega (arith, few))
goroutines_end (suc n) c few h k at' = elim (one_steps c h at' c.reading refl k) [
  | inl none_left ↦ wait_returns at' none_left
  | inr (d, s, a) ↦ onward s a (λ d' s' a'.
      goroutines_end n d' (omega (arith, few, step_less s' a')) (Run-IsOrdered s' h)
        (Run-IsCounted s' k) (closing_kept s' ∙ at'))
]

-- Once `Close` has closed `stopc` and the network connection, the goroutines end, wherever they are,
-- and its `wg.Wait()` returns, even if no message comes in or is sent any more and nobody reads the
-- messages and the errors; whether a call of `Encode` fails makes no difference.
pub close_ends : {c : Conn} → ConnReach new_conn c → c.closing ≡ rwc_closed → MustHalt c
close_ends {c} r at' =
    goroutines_end (suc (left c)) c (omega arith) (ConnReach-IsOrdered r) (ConnReach-IsCounted r)
      at'

Run-after : {c c' : Conn} → Run c c' → (c.reading ≡ read_ended) → (c.writing ≡ write_ended) → ⊥
Run-after (decode_returns m at') r w = cc
Run-after (decode_fails x at') r w = cc
Run-after (offer m at' room) r w = cc
Run-after (read_stops m at' s) r w = cc
Run-after (read_ends x at' room) r w = cc
Run-after (writer_takes m at') r w = cc
Run-after (encode_returns m at') r w = cc
Run-after (encode_fails m x at') r w = cc
Run-after (write_ends x at' room) r w = cc
Run-after (write_stops at' s) r w = cc

Use-after :
    {c c' : Conn}
    → Use c c'
    → (c.closing ≡ errc_closed → c.wg ≡ 0)
    → c'.closing ≡ errc_closed
    → c'.wg ≡ 0
Use-after (receive m rest at') h e = h e
Use-after (read_err x rest at') h e = h e
Use-after (send_sync m) h e = h e
Use-after (close_stop at') h e = cc
Use-after (close_rwc at') h e = cc
Use-after (close_errc at' none_left) h e = none_left

-- Once `errc` is closed, the wait group is empty.
none_left_after : {c : Conn} → ConnReach new_conn c → c.closing ≡ errc_closed → c.wg ≡ 0
none_left_after here e = cc
none_left_after (run {d} r s) e =
    let gone = none_left_after r (sym (closing_kept s) ∙ e) in
    let over = none_left_ended d (ConnReach-IsCounted r) gone in absurd (Run-after s over.0 over.1)
none_left_after (use_it r s) e = Use-after s (none_left_after r) e

-- Once `Close` has closed the channel of the errors, neither goroutine makes a step, so none sends on
-- the closed channel: the wait group that `Close` waits for counts both of them.
pub no_goroutine_after_close :
    {c c' : Conn} → ConnReach new_conn c → c.closing ≡ errc_closed → ¬ Run c c'
no_goroutine_after_close {c} r e s =
    let over = none_left_ended c (ConnReach-IsCounted r) (none_left_after r e) in
    Run-after s over.0 over.1
