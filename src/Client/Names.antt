-- ===== src/Client/Names.antt =====
-- etcd_client.go: `nameModes`, `names`, `Names`, `Who`, and what `Join` does after its transaction.
pub mod Laws
use etcdircd.Prelude.{
  ℕ, ◌+◌, List, [], ◌∷◌, ◌++◌, map, Str, lit, Option, none, some, ◌==◌, nat_eq, str_eq, is_nil,
  if◌then◌else◌,
}
use etcdircd.Result.{Result, ok, and_then, must, err, panic}
use etcdircd.Exec.{Exec, pure, lift, ◌>>=◌, ◌>>◌}
use etcdircd.Text.{join}
use etcdircd.Etcd.{Etcd}
use etcdircd.Mode.{ModeValue, has}
use etcdircd.User.{UserValue}
use etcdircd.Channel.{ChannelNick, ChannelNicks}
use etcdircd.Key.{key_chan_nicks_pfx, is_chan}
use etcdircd.Reply.{
  rpl_namreply, rpl_endofnames, rpl_whoreply, rpl_endofwho, rpl_notopic, rpl_topic,
}
use etcdircd.Client.{Client, World, Fate, send_msg, send_host_msg}
use etcdircd.Client.Join.{join_msg, join_commit}
use etcdircd.Client.Query.{Read, Range, decode_all, users_from_mask}

abbrev pub sign : ModeValue → Str
sign m = if has m b'o' then lit "@" else if has m b'v' then lit "+" else []

-- The loops that fill the map; a nick that is not in it has the empty string.
unfoldable pub list_modes : ChannelNicks → (Str → Str) → Str → Str
list_modes [] mode_map = mode_map
list_modes (cn ∷ cns) mode_map =
    list_modes cns (λ n. if cn.nick == n then sign cn.mode else mode_map n)

unfoldable pub all_modes_of : List ChannelNicks → (Str → Str) → Str → Str
unfolding list_modes
all_modes_of [] mode_map = mode_map
all_modes_of (cns ∷ lists) mode_map = all_modes_of lists (list_modes cns mode_map)

-- `x.send…(…)` as a statement, which drops the error.
abbrev pub dropping_error : {S : Type 0} → Result (Unit {0}) × S → Result (Unit {0}) × S
dropping_error (ok x, w) = (ok x, w)
dropping_error (err x, w) = (ok tt, w)
dropping_error (panic, w) = (panic, w)

-- `u.User[1]`
abbrev pub second : List Str → Option Str
second (a ∷ b ∷ rest) = some b
second _ = none

module _ (e : Etcd) (range : Range e.View e.Blob) (ec : Client) where
  -- `nameModes`, which reads the latest revision whatever it is asked for.
  unfoldable pub name_modes : Str → Read e.View → Result (Str → Str)
  unfolding decode_all all_modes_of
  name_modes ch r = and_then (r 0) λ at.
      and_then (decode_all (λ b. e.nicks_codec.decode b) (range at.0 (key_chan_nicks_pfx ch)))
        λ lists. ok (all_modes_of lists (λ n. []))

  unfoldable pub names :
      Str → ℕ → Read e.View → Read e.View → Read e.View → Exec (World e.View) Unit
  unfolding ◌>>=◌ name_modes
  names ch rev r1 r2 r3 = do
    users ← lift (users_from_mask e range ec ch rev r1 r2)
    mode_map ← lift (name_modes ch r3)
    (λ w. dropping_error (
        send_host_msg ec rpl_namreply
          (lit "=" ∷ ch ∷ join b' ' (map (λ (u : UserValue). mode_map u.nick ++ u.nick) users) ∷ [])
          w))
    send_host_msg ec rpl_endofnames (ch ∷ lit "End of NAMES list" ∷ [])

  -- `Names`
  unfoldable pub names_now :
      Str → Read e.View → Read e.View → Read e.View → Exec (World e.View) Unit
  unfolding names
  names_now ch r1 r2 r3 = names ch 0 r1 r2 r3

  abbrev pub who_line : Str → (Str → Str) → UserValue → Str → Str
  who_line mask mode_map u user =
      join b' ' (mask ∷ user ∷ u.host ∷ u.server_name ∷ u.nick ∷ (lit "H" ++ mode_map u.nick) ∷ [])

  unfoldable pub who_lines : Str → (Str → Str) → List UserValue → Exec (World e.View) Unit
  unfolding ◌>>=◌
  who_lines mask mode_map [] = pure tt
  who_lines mask mode_map (u ∷ users) = do
    user ← lift (must (second u.user))
    send_host_msg ec rpl_whoreply (who_line mask mode_map u user ∷ (lit "0 " ++ u.real_name) ∷ [])
    who_lines mask mode_map users

  abbrev who_mask : List Str → Str
  who_mask [] = lit "*"
  who_mask (a ∷ rest) = if a == lit "0" then lit "*" else a

  unfoldable pub who : List Str → Read e.View → Read e.View → Read e.View → Exec (World e.View) Unit
  unfolding ◌>>=◌ name_modes who_lines
  who args r1 r2 r3 = do
    users ← lift (users_from_mask e range ec (who_mask args) 0 r1 r2)
    mode_map ←
        lift (if is_chan (who_mask args) then name_modes (who_mask args) r3 else ok (λ n. []))
    who_lines (who_mask args) mode_map users
    send_host_msg ec rpl_endofwho (who_mask args ∷ lit "End of WHO list" ∷ [])

  topic_line : Str → Str → Exec (World e.View) Unit
  topic_line ch topic =
      if is_nil topic
      then send_host_msg ec rpl_notopic (ch ∷ lit "No topic is set" ∷ [])
      else send_host_msg ec rpl_topic (ch ∷ topic ∷ [])

  -- What `Join` sends once its transaction has committed.
  unfoldable pub join_reply :
      Str → Str × ℕ → Read e.View → Read e.View → Read e.View → Exec (World e.View) Unit
  unfolding ◌>>=◌ names topic_line
  join_reply ch done r1 r2 r3 = do
    (λ w. dropping_error (send_msg (join_msg ec ch) w))
    (λ w. dropping_error (topic_line ch done.0 w))
    names ch done.1 r1 r2 r3

  -- `Join`; its value is the channel and the revision of the watches that `monitorChannel` starts,
  -- and `ctx` is the error of the client's context at its end.
  unfoldable pub join_chan :
      Str
      → ℕ
      → Result ℕ
      → Fate e.View
      → Read e.View
      → Read e.View
      → Read e.View
      → Result (Unit {0})
      → Exec (World e.View) (Str × ℕ)
  unfolding ◌>>=◌ join_reply join_commit
  join_chan ch now ses fate r1 r2 r3 ctx = do
    done ← join_commit e ec ch now ses fate
    join_reply ch done r1 r2 r3
    lift ctx
    pure (ch, done.1 + 1)
