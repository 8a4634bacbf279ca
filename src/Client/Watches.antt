-- ===== src/Client/Watches.antt =====
-- etcd_client.go: `monitorChannel`, the watches of a client and their contexts, and `Close`.
--
-- A context that `context.WithCancel` makes is a number. A goroutine of a watch runs until its
-- context is cancelled, or that of the client.
pub mod Laws
use etcdircd.Prelude.{
  ℕ, ◌+◌, Bool, true, false, not, ◌&&◌, ◌||◌, Option, none, some, List, [], ◌∷◌, Str, ◌==◌, nat_eq,
  str_eq, if◌then◌else◌,
}

-- The watch on the messages of a channel, and the one on the lists of its members.
pub data Kind : Type 0 where
  of_messages of_members : Kind

pub record Watch : Type 0 where
  pub channel : Str
  pub kind : Kind
  pub context : ℕ
  pub from_rev : ℕ

-- `chCancel`, the contexts that are cancelled, the next context, whether `ec.ctx` is cancelled, and the
-- goroutines that `ec.wg` counts.
pub record Watches : Type 0 where
  pub ch_cancel : Str → Option ℕ
  pub canceled : ℕ → Bool
  pub next : ℕ
  pub closed : Bool
  pub started : List Watch

-- The client as `newEtcdClient` makes it, without the watch on its own messages.
abbrev pub no_watches : Watches
no_watches = record {
  ch_cancel = λ ch. none;
  canceled = λ c. false;
  next = 0;
  closed = false;
  started = [];
}

-- `monitorChannel`
abbrev pub monitor_channel : Str → ℕ → Watches → Watches
monitor_channel ch rev ws = record ws {
  ch_cancel = λ d. if ch == d then some ws.next else ws.ch_cancel d;
  next = ws.next + 1;
  started =
      (record { channel = ch; kind = of_messages; context = ws.next; from_rev = rev })
      ∷ (record { channel = ch; kind = of_members; context = ws.next; from_rev = rev })
      ∷ ws.started;
}

-- `f := ec.chCancel[ch]; if f != nil { f(); delete(ec.chCancel, ch) }`
abbrev pub cancel_found : Str → Option ℕ → Watches → Watches
cancel_found ch none ws = ws
cancel_found ch (some f) ws = record ws {
  canceled = λ c. f == c || ws.canceled c;
  ch_cancel = λ d. if ch == d then none else ws.ch_cancel d;
}

abbrev pub leave_channel : Str → Watches → Watches
leave_channel ch ws = cancel_found ch (ws.ch_cancel ch) ws

-- `Close`, up to `ec.wg.Wait()`.
abbrev pub close_client : Watches → Watches
close_client ws = record ws { closed = true }

-- Whether the goroutine of a watch still passes on what it gets.
abbrev pub is_live : Watches → Watch → Bool
is_live ws w = not ws.closed && not (ws.canceled w.context)
