-- ===== src/Client/Modes.antt =====
-- etcd_client.go: `Mode`, `chanMode` and `userMode`.
pub mod Chan
pub mod Laws
use etcdircd.Client.{
  Client, World, Scope, Fate, send_msg, send_host_msg, do_stm, stm_get, stm_put, set_flags,
}
use etcdircd.Prelude.{
  ℕ, ◌+◌, ◌/◌, ◌%◌, Bool, true, false, not, Option, none, some, List, [], ◌∷◌, ◌++◌, Str, lit, ltb,
  ◌==◌, nat_eq, str_eq, if◌then◌else◌,
}
use etcdircd.Result.{decoded, must}
use etcdircd.Exec.{Exec, pure, lift, ◌>>=◌, ◌>>◌}
use etcdircd.Etcd.{Etcd, no_option, ignore_lease}
use etcdircd.Mode.{has, update_slice, user_mode_perms, chan_mode_perms}
use etcdircd.Channel.{ChannelCtl, ChannelNick, find_nick}
use etcdircd.Key.{key_user_ctl, key_chan_ctl, key_chan_nicks, is_chan}
use etcdircd.Reply.{
  cmd_mode, err_nochanmodes, err_notonchannel, err_chanoprivsneeded, rpl_umodeis,
  err_umodeunknownflag, err_usersdontmatch,
}

pub record ChanModeFlags : Type 0 where
  pub mode : Str
  pub no_chan : Bool
  pub not_on_chan : Bool
  pub not_op : Bool

pub record UserModeFlags : Type 0 where
  pub mode : Str
  pub bad : Str

abbrev pub has_args : List Str → Bool
has_args [] = false
has_args (m ∷ modes) = true

-- `string(m)` for a byte: the UTF-8 of the code point.
abbrev pub byte_string : ℕ → Str
byte_string m = if ltb m 128 then m ∷ [] else (192 + m / 64) ∷ (128 + m % 64) ∷ []

module _ (e : Etcd) (ec : Client) where
  -- The end of the closure of `chanMode`: report the modes, and store them if they were updated.
  chan_mode_store : Str → ChannelCtl → Bool → Exec (Scope ChanModeFlags e.View) Unit
  chan_mode_store ch cctl updated s =
      let s' : Scope ChanModeFlags e.View = record s {
        flags = record (s.flags) { mode = cctl.mode };
      } in
      if not updated
      then pure tt s'
      else stm_put e (key_chan_ctl ch) (e.ctl_codec.encode cctl) no_option s'

  -- gob makes a slice of the length that it reads, so nothing stands behind the modes of `cctl`.
  chan_mode_member :
      Str → List Str → ChannelCtl → Option ChannelNick → Exec (Scope ChanModeFlags e.View) Unit
  unfolding chan_mode_store
  chan_mode_member ch m cctl none s = set_flags e (record (s.flags) { not_on_chan = true }) s
  chan_mode_member ch m cctl (some n) s =
      let s' : Scope ChanModeFlags e.View = record s {
        flags = record (s.flags) { not_on_chan = false };
      } in
      if not (has_args m)
      then chan_mode_store ch cctl false s'
      else let s'' : Scope ChanModeFlags e.View = record s' {
        flags = record (s'.flags) { not_op = not (has n.mode b'o') };
      } in
        let new = update_slice cctl.mode [] m chan_mode_perms in
        if not (has n.mode b'o')
        then pure tt s''
        else chan_mode_store ch (record cctl { mode = new.0 }) new.2 s''

  -- The closure of `chanMode`.
  unfoldable pub chan_mode_tx : ℕ → Str → List Str → Exec (Scope ChanModeFlags e.View) Unit
  unfolding ◌>>=◌ chan_mode_member
  chan_mode_tx lid ch m = do
    cv ← stm_get e (key_chan_ctl ch)
    (λ s. set_flags e (record (s.flags) { no_chan = e.is_empty cv }) s)
    if e.is_empty cv then pure tt else do
      cctl ← lift (decoded (e.ctl_codec.decode cv))
      vn ← stm_get e (key_chan_nicks ch lid)
      nicks ← lift (decoded (e.nicks_codec.decode vn))
      chan_mode_member ch m cctl (find_nick nicks ec.nick)

  unfoldable pub chan_mode_reply : Str → ChanModeFlags → Exec (World e.View) Unit
  chan_mode_reply ch fl =
      if fl.no_chan
      then send_host_msg ec err_nochanmodes (ch ∷ lit "Channel doesn't support modes" ∷ [])
      else if fl.not_on_chan
      then send_host_msg ec err_notonchannel (ch ∷ lit "You're not on that channel" ∷ [])
      else if fl.not_op
      then send_host_msg ec err_chanoprivsneeded (ch ∷ lit "You're not channel operator" ∷ [])
      else send_msg
          (record { prefix = some ec.host_pfx; command = cmd_mode; params = ch ∷ fl.mode ∷ [] })

  -- `chanMode` reads the lease of the session without waiting for one.
  unfoldable pub chan_mode : Str → List Str → ℕ → Fate e.View → Exec (World e.View) Unit
  unfolding chan_mode_tx chan_mode_reply ◌>>=◌
  chan_mode ch m lid fate = do
    done ←
        do_stm e (chan_mode_tx lid ch m)
          (record { mode = []; no_chan = false; not_on_chan = false; not_op = false }) fate
    chan_mode_reply ch done.0

  -- The closure of `userMode`.
  unfoldable pub user_mode_tx : List Str → Exec (Scope UserModeFlags e.View) Unit
  unfolding ◌>>=◌
  user_mode_tx m = do
    v ← stm_get e (key_user_ctl ec.nick)
    uv ← lift (decoded (e.user_codec.decode v))
    set_flags e (record {
      mode = (update_slice uv.mode [] m user_mode_perms).0;
      bad = (update_slice uv.mode [] m user_mode_perms).1;
    })
    if not (update_slice uv.mode [] m user_mode_perms).2
        then pure tt
        else stm_put e (key_user_ctl ec.nick)
            (e.user_codec.encode
              (record uv { mode = (update_slice uv.mode [] m user_mode_perms).0 }))
            ignore_lease

  send_bad_modes : Str → Exec (World e.View) Unit
  unfolding ◌>>=◌
  send_bad_modes [] = pure tt
  send_bad_modes (b ∷ bad) = do
    send_host_msg ec err_umodeunknownflag
        ((byte_string b ++ lit " is unknown mode char to me") ∷ [])
    send_bad_modes bad

  unfoldable pub user_mode_reply : List Str → UserModeFlags → Exec (World e.View) Unit
  unfolding send_bad_modes ◌>>=◌
  user_mode_reply m fl =
      let told = do send_host_msg ec cmd_mode (fl.mode ∷ []); send_bad_modes fl.bad
      in if not (has_args m) then send_host_msg ec rpl_umodeis (fl.mode ∷ []) else told

  unfoldable pub user_mode : List Str → Fate e.View → Exec (World e.View) Unit
  unfolding user_mode_tx user_mode_reply ◌>>=◌
  user_mode m fate = do
    done ← do_stm e (user_mode_tx m) (record { mode = []; bad = [] }) fate
    user_mode_reply m done.0

  -- `Mode`; without an argument `m[0]` is out of range.
  unfoldable pub mode : List Str → ℕ → Fate e.View → Exec (World e.View) Unit
  unfolding chan_mode user_mode
  mode [] lid fate = lift (must none)
  mode (target ∷ m) lid fate =
      if is_chan target
      then chan_mode target m lid fate
      else if not (target == ec.nick)
      then send_host_msg ec err_usersdontmatch (lit "Cannot change mode for other users" ∷ [])
      else user_mode m fate
