-- ===== src/Client/Lists.antt =====
-- etcd_client.go: `List`, `Whois`, `Ping` and `Die`.
pub mod Laws
use etcdircd.Prelude.{
  ℕ, Bool, true, false, not, ◌&&◌, ◌||◌, List, [], ◌∷◌, ◌++◌, Str, lit, Option, none, some, ◌==◌,
  nat_eq, is_nil, if◌then◌else◌,
}
use etcdircd.Result.{Result, ok, and_then, must, decoded, exited}
use etcdircd.Exec.{Exec, pure, fail, lift, ◌>>=◌, ◌>>◌}
use etcdircd.Text.{join, decimal}
use etcdircd.Etcd.{Etcd}
use etcdircd.Mode.{has}
use etcdircd.User.{UserValue, in_chan}
use etcdircd.Channel.{ChannelCtl}
use etcdircd.Key.{key_user_ctl, key_chan_ctl}
use etcdircd.Reply.{
  cmd_pong, rpl_list, rpl_listend, rpl_whoisuser, rpl_whoischannels, rpl_endofwhois, err_nosuchnick,
  err_noprivileges,
}
use etcdircd.Client.{Client, World, send_msg, send_host_msg}
use etcdircd.Client.Query.{Read, Range}
use etcdircd.Client.Names.{dropping_error, second}

pub record ReplyList : Type 0 where
  pub channel : Str
  pub visible : ℕ
  pub topic : Str

abbrev first_value {ℓ} : {A : Type ℓ} → List A → Option A
first_value [] = none
first_value (a ∷ rest) = some a

module _ (e : Etcd) (range : Range e.View e.Blob) (ec : Client) where
  -- The values of one key: one, or none where the key is not there.
  abbrev pub value_at : e.View → Str → List e.Blob
  value_at v k = if e.rev v k == 0 then [] else e.get v k ∷ []

  unfoldable pub channel_values : e.View → List Str → List e.Blob
  channel_values v [] = []
  channel_values v (ch ∷ chs) = value_at v (key_chan_ctl ch) ++ channel_values v chs

  -- The reads of `List`: all channels, or those that are named.
  unfoldable pub listed_values : e.View → List Str → List e.Blob
  unfolding channel_values
  listed_values v [] = range v (key_chan_ctl [])
  listed_values v (ch ∷ chs) = channel_values v (ch ∷ chs)

  abbrev pub hidden : UserValue → ChannelCtl → Bool
  hidden uv c = has c.mode b's' && not (in_chan uv c.name)

  -- The loop over the values, which hides secret channels that the client has not joined.
  unfoldable pub list_replies : UserValue → List e.Blob → List ReplyList → Result (List ReplyList)
  list_replies uv [] repls = ok repls
  list_replies uv (b ∷ bs) repls = and_then (decoded (e.ctl_codec.decode b)) λ c.
      list_replies uv bs (
        if hidden uv c
        then repls
        else repls ++ (record { channel = c.name; visible = 100; topic = c.topic }) ∷ [])

  unfoldable pub list_lines : List ReplyList → Exec (World e.View) Unit
  unfolding ◌>>=◌
  list_lines [] = pure tt
  list_lines (r ∷ repls) = do
    (λ w.
        dropping_error
          (send_host_msg ec rpl_list (r.channel ∷ decimal r.visible ∷ (lit " " ++ r.topic) ∷ []) w))
    list_lines repls

  -- `List`; without the record of the client nothing is sent.
  unfoldable pub list_chans : List Str → Read e.View → Exec (World e.View) Unit
  unfolding ◌>>=◌ listed_values list_replies list_lines
  list_chans chs r = do
    at ← lift (r 0)
    if e.rev at.0 (key_user_ctl ec.nick) == 0 then pure tt else do
      uv ← lift (decoded (e.user_codec.decode (e.get at.0 (key_user_ctl ec.nick))))
      repls ← lift (list_replies uv (listed_values at.0 chs) [])
      list_lines repls
      send_host_msg ec rpl_listend (lit "End of LIST" ∷ [])

  abbrev pub whois_nick : Str → Str
  whois_nick n = if is_nil n then ec.nick else n

  abbrev pub no_value : e.View → Str → Bool
  no_value v k = e.rev v k == 0 || e.is_empty (e.get v k)

  -- What `Whois` sends of a user.
  unfoldable pub whois_lines : Str → UserValue → Exec (World e.View) Unit
  unfolding ◌>>=◌
  whois_lines n uv = do
    user ← lift (must (second uv.user))
    (λ w. dropping_error (
        send_host_msg ec rpl_whoisuser (n ∷ user ∷ lit "servername" ∷ lit "*" ∷ lit " norton" ∷ [])
          w))
    (if is_nil uv.channels then pure tt else (λ w.
        dropping_error (send_host_msg ec rpl_whoischannels (n ∷ join b' ' uv.channels ∷ []) w)))
    send_host_msg ec rpl_endofwhois (n ∷ [])

  unfoldable pub whois : Str → Read e.View → Exec (World e.View) Unit
  unfolding ◌>>=◌ whois_lines
  whois n r = do
    at ← lift (r 0)
    if no_value at.0 (key_user_ctl (whois_nick n))
        then send_host_msg ec err_nosuchnick (whois_nick n ∷ lit "No such nick/channel" ∷ [])
        else (do
          uv ← lift (decoded (e.user_codec.decode (e.get at.0 (key_user_ctl (whois_nick n)))))
          whois_lines (whois_nick n) uv)

  -- `Ping`; the host name of the configuration is the name of the host prefix.
  unfoldable pub ping : Str → Read e.View → Exec (World e.View) Unit
  unfolding ◌>>=◌
  ping msg r = do
    at ← lift (r 0)
    send_msg (record {
      prefix = some ec.host_pfx;
      command = cmd_pong;
      params = ec.host_pfx.name ∷ msg ∷ [];
    })

  -- `Die`; `exited` is the end of the process.
  unfoldable pub die : Read e.View → Exec (World e.View) Unit
  unfolding ◌>>=◌
  die r = do
    at ← lift (r 0)
    b ← lift (must (first_value (value_at at.0 (key_user_ctl ec.nick))))
    uv ← lift (decoded (e.user_codec.decode b))
    if not (has uv.mode b'o') && not (has uv.mode b'O')
        then send_host_msg ec err_noprivileges
            (lit "Permission Denied- You're not an IRC operator" ∷ [])
        else fail exited
