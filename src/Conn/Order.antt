-- ===== src/Conn/Order.antt =====
-- conn.go: the messages of a connection pass in order, none is lost or doubled, and the buffers hold.
use etcdircd.Prelude.{
  ℕ, ◌+◌, ◌-◌, ◌≤◌, ◌≡◌, refl, sym, ap, ◌∙◌, ◌⊎◌, inl, inr, Bool, true, false, List, [], ◌∷◌, ◌++◌,
  append-nil, append_assoc, length, length-append, arith, ◌≢◌,
}
use etcdircd.Result.{Error}
use etcdircd.Etcd.{Message}
use etcdircd.Conn.{
  ReaderAt, decoding, read_ended, offering, read_failed, WriterAt, waiting, write_ended, encoding,
  write_failed, Closing, stop_closed, rwc_closed, errc_closed, Sent, queued, direct, Conn, rch_size,
  new_conn, stopped, Run, decode_returns, decode_fails, offer, read_stops, read_ends, writer_takes,
  encode_returns, encode_fails, write_ends, write_stops, Use, receive, read_err, send_sync,
  close_stop, close_rwc, close_errc, ConnReach, here, run, use_it,
}

-- The message that a goroutine holds.
abbrev pub held_in : ReaderAt → List Message
held_in decoding = []
held_in read_ended = []
held_in (offering m) = m ∷ []
held_in (read_failed x) = []

abbrev pub held_out : WriterAt → List Message
held_out waiting = []
held_out write_ended = []
held_out (encoding m) = m ∷ []
held_out (write_failed x) = []

-- What was sent through the writer, of what was sent.
unfoldable pub queued_of : List Sent → List Message
queued_of [] = []
queued_of (queued m ∷ sent) = m ∷ queued_of sent
queued_of (direct m ∷ sent) = queued_of sent

queued_of-append : (a b : List Sent) → queued_of (a ++ b) ≡ queued_of a ++ queued_of b
unfolding queued_of
queued_of-append [] b = refl
queued_of-append (queued m ∷ a) b = ap (λ l. m ∷ l) (queued_of-append a b)
queued_of-append (direct m ∷ a) b = queued_of-append a b

-- A goroutine has given up a message only when it is at its end, or about to be.
abbrev pub GivenUp : Conn → Type 0
GivenUp c = (c.dropped ≡ []) ⊎ ((c.reading ≡ read_ended) × (stopped c.closing ≡ true))

abbrev pub is_writing : WriterAt → Bool
is_writing waiting = true
is_writing (encoding m) = true
is_writing write_ended = false
is_writing (write_failed x) = false

abbrev pub ended_in : ReaderAt → ℕ
ended_in read_ended = 1
ended_in other = 0

abbrev pub ended_out : WriterAt → ℕ
ended_out write_ended = 1
ended_out other = 0

pub record IsOrdered (c : Conn) : Type 0 where
  pub incoming : c.received ++ c.rch ++ held_in c.reading ++ c.dropped ≡ c.decoded
  pub given_up : GivenUp c
  pub outgoing : queued_of c.wire ++ held_out c.writing ++ c.lost ≡ c.taken
  pub no_loss : (c.lost ≡ []) ⊎ (is_writing c.writing ≡ false)
  pub fits : length c.rch ≤ rch_size
  pub errors_fit : length c.errc ≤ ended_in c.reading + ended_out c.writing

module _ {A : Type 0} (a b d e : List A) (m : A) where
  enter_last : d ≡ [] → a ++ b ++ [] ++ d ≡ e → a ++ b ++ (m ∷ []) ++ d ≡ e ++ m ∷ []
  enter_last p q =
      rw (p, append-nil)
        (ap (λ l. l ++ m ∷ [])
          (sym (append-nil (a ++ b)) ∙ sym (append-nil (a ++ b ++ [])) ∙ rw p at q))

  pass_on : a ++ b ++ (m ∷ []) ++ d ≡ e → a ++ (b ++ m ∷ []) ++ [] ++ d ≡ e
  pass_on q = simp (append_assoc, append-nil) (simp append_assoc at q)

  give_up : a ++ b ++ (m ∷ []) ++ d ≡ e → a ++ b ++ [] ++ (m ∷ d) ≡ e
  give_up q = simp (append_assoc, append-nil) (simp append_assoc at q)

  take_first : (f : List A) → a ++ (m ∷ b) ++ f ++ d ≡ e → (a ++ m ∷ []) ++ b ++ f ++ d ≡ e
  take_first f q = simp (append_assoc) (simp append_assoc at q)

module _ (c : Conn) (h : IsOrdered c) where
  none_dropped : c.reading ≢ read_ended → c.dropped ≡ []
  none_dropped going = elim h.given_up [ inl p ↦ p | inr (ended, s) ↦ absurd (going ended) ]

  none_lost : is_writing c.writing ≡ true → c.lost ≡ []
  none_lost going = elim h.no_loss [ inl p ↦ p | inr over ↦ cc ]

  -- A step of the reader that leaves the writer alone.
  reader-IsOrdered :
      (wg : ℕ) (reading : ReaderAt) (rch decoded dropped : List Message) (errc : List Error)
      → c.received ++ rch ++ held_in reading ++ dropped ≡ decoded
      → (dropped ≡ []) ⊎ ((reading ≡ read_ended) × (stopped c.closing ≡ true))
      → length rch ≤ rch_size
      → length errc ≤ ended_in reading + ended_out c.writing
      → IsOrdered (record c {
        rch = rch;
        errc = errc;
        reading = reading;
        wg = wg;
        decoded = decoded;
        dropped = dropped;
      })
  reader-IsOrdered wg reading rch decoded dropped errc order given fits errors = record {
    incoming = order;
    given_up = given;
    outgoing = h.outgoing;
    no_loss = h.no_loss;
    fits = fits;
    errors_fit = errors;
  }

  -- A step of the writer that leaves the reader alone.
  writer-IsOrdered :
      (wg : ℕ) (phase : WriterAt) (taken lost : List Message) (wire : List Sent) (errc : List Error)
      → queued_of wire ++ held_out phase ++ lost ≡ taken
      → (lost ≡ []) ⊎ (is_writing phase ≡ false)
      → length errc ≤ ended_in c.reading + ended_out phase
      → IsOrdered (record c {
        errc = errc;
        writing = phase;
        wg = wg;
        taken = taken;
        lost = lost;
        wire = wire;
      })
  writer-IsOrdered wg phase taken lost wire errc order loss errors = record {
    incoming = h.incoming;
    given_up = h.given_up;
    outgoing = order;
    no_loss = loss;
    fits = h.fits;
    errors_fit = errors;
  }

closing-IsOrdered :
    (c : Conn)
    → IsOrdered c
    → (k : Closing) → stopped k ≡ true
    → IsOrdered (record c { closing = k })
closing-IsOrdered c h k stop = record {
  incoming = h.incoming;
  given_up = elim h.given_up [ inl p ↦ inl p | inr (ended, s) ↦ inr (ended, stop) ];
  outgoing = h.outgoing;
  no_loss = h.no_loss;
  fits = h.fits;
  errors_fit = h.errors_fit;
}

one_more : (xs : List Error) (x : Error) → length (xs ++ x ∷ []) ≡ length xs + 1
one_more xs x = length-append xs (x ∷ [])

pub Run-IsOrdered : {c c' : Conn} → Run c c' → IsOrdered c → IsOrdered c'
unfolding queued_of
Run-IsOrdered {c} (decode_returns m at') h =
    let empty = none_dropped c h (λ p. absurd (cc)) in
    reader-IsOrdered c h c.wg (offering m) c.rch (c.decoded ++ m ∷ []) c.dropped c.errc
      (enter_last c.received c.rch c.dropped c.decoded m empty (rw at' at h.incoming)) (inl empty)
      h.fits (ground (arith, rw at' at h.errors_fit))
Run-IsOrdered {c} (decode_fails x at') h =
    reader-IsOrdered c h c.wg (read_failed x) c.rch c.decoded c.dropped c.errc
      (rw at' at h.incoming) (inl (none_dropped c h (λ p. absurd (cc)))) h.fits
      (ground (arith, rw at' at h.errors_fit))
Run-IsOrdered {c} (offer m at' room) h =
    let empty = none_dropped c h (λ p. absurd (cc)) in
    reader-IsOrdered c h c.wg decoding (c.rch ++ m ∷ []) c.decoded c.dropped c.errc
      (pass_on c.received c.rch c.dropped c.decoded m (rw at' at h.incoming)) (inl empty)
      (ground (arith, length-append c.rch (m ∷ []))) (ground (arith, rw at' at h.errors_fit))
Run-IsOrdered {c} (read_stops m at' stop) h =
    reader-IsOrdered c h (c.wg - 1) read_ended c.rch c.decoded (m ∷ c.dropped) c.errc
      (give_up c.received c.rch c.dropped c.decoded m (rw at' at h.incoming)) (inr (refl, stop))
      h.fits (ground (arith, rw at' at h.errors_fit))
Run-IsOrdered {c} (read_ends x at' room) h =
    reader-IsOrdered c h (c.wg - 1) read_ended c.rch c.decoded c.dropped (c.errc ++ x ∷ [])
      (rw at' at h.incoming) (inl (none_dropped c h (λ p. absurd (cc)))) h.fits
      (ground (arith, one_more c.errc x, rw at' at h.errors_fit))
Run-IsOrdered {c} (writer_takes m at') h =
    let empty = none_lost c h (rw at' refl) in
    writer-IsOrdered c h c.wg (encoding m) (c.taken ++ m ∷ []) c.lost c.wire c.errc
      (enter_last [] (queued_of c.wire) c.lost c.taken m empty (rw at' at h.outgoing)) (inl empty)
      (ground (arith, rw at' at h.errors_fit))
Run-IsOrdered {c} (encode_returns m at') h =
    let empty = none_lost c h (rw at' refl) in
    writer-IsOrdered c h c.wg waiting c.taken c.lost (c.wire ++ queued m ∷ []) c.errc
      (rw (queued_of-append c.wire (queued m ∷ []))
        (pass_on [] (queued_of c.wire) c.lost c.taken m (rw at' at h.outgoing)))
      (inl empty) (ground (arith, rw at' at h.errors_fit))
Run-IsOrdered {c} (encode_fails m x at') h =
    writer-IsOrdered c h c.wg (write_failed x) c.taken (m ∷ c.lost) c.wire c.errc
      (give_up [] (queued_of c.wire) c.lost c.taken m (rw at' at h.outgoing)) (inr refl)
      (ground (arith, rw at' at h.errors_fit))
Run-IsOrdered {c} (write_ends x at' room) h =
    writer-IsOrdered c h (c.wg - 1) write_ended c.taken c.lost c.wire (c.errc ++ x ∷ [])
      (rw at' at h.outgoing) (inr refl) (ground (arith, one_more c.errc x, rw at' at h.errors_fit))
Run-IsOrdered {c} (write_stops at' stop) h =
    writer-IsOrdered c h (c.wg - 1) write_ended c.taken c.lost c.wire c.errc (rw at' at h.outgoing)
      (inr refl) (ground (arith, rw at' at h.errors_fit))

Use-IsOrdered : {c c' : Conn} → Use c c' → IsOrdered c → IsOrdered c'
unfolding queued_of
Use-IsOrdered {c} (receive m rest at') h = record {
  incoming =
      take_first c.received rest c.dropped c.decoded m (held_in c.reading) (rw at' at h.incoming);
  given_up = h.given_up;
  outgoing = h.outgoing;
  no_loss = h.no_loss;
  fits = ground (arith, rw at' at h.fits);
  errors_fit = h.errors_fit;
}
Use-IsOrdered {c} (read_err x rest at') h = record {
  incoming = h.incoming;
  given_up = h.given_up;
  outgoing = h.outgoing;
  no_loss = h.no_loss;
  fits = h.fits;
  errors_fit = ground (arith, rw at' at h.errors_fit);
}
Use-IsOrdered {c} (send_sync m) h = record {
  incoming = h.incoming;
  given_up = h.given_up;
  outgoing = rw (queued_of-append c.wire (direct m ∷ [])) (rw append-nil h.outgoing);
  no_loss = h.no_loss;
  fits = h.fits;
  errors_fit = h.errors_fit;
}
Use-IsOrdered {c} (close_stop at') h = closing-IsOrdered c h stop_closed refl
Use-IsOrdered {c} (close_rwc at') h = closing-IsOrdered c h rwc_closed refl
Use-IsOrdered {c} (close_errc at' none_left) h = closing-IsOrdered c h errc_closed refl

new_conn-IsOrdered : IsOrdered new_conn
unfolding queued_of
new_conn-IsOrdered = record {
  incoming = refl;
  given_up = inl refl;
  outgoing = refl;
  no_loss = inl refl;
  fits = omega arith;
  errors_fit = omega arith;
}

-- In every state of a connection: what has been read from `Reader()`, then what waits in its buffer,
-- then the message that the reader holds or has given up, are the messages that `Decode` has returned,
-- in their order; the same holds of what the writer has written, holds or could not encode, and the
-- messages that it has taken; the reader gives up a message only after `close(c.stopc)`; and the buffers
-- hold at most 1024 messages and as many errors as goroutines have ended.
pub ConnReach-IsOrdered : {c : Conn} → ConnReach new_conn c → IsOrdered c
ConnReach-IsOrdered here = new_conn-IsOrdered
ConnReach-IsOrdered (run r s) = Run-IsOrdered s (ConnReach-IsOrdered r)
ConnReach-IsOrdered (use_it r s) = Use-IsOrdered s (ConnReach-IsOrdered r)
