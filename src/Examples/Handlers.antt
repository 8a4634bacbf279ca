-- ===== src/Examples/Handlers.antt =====
-- etcd_client.go: handlers at the store with two users on a moderated channel.
use mathlib.Core.Path.{subst}
use etcdircd.Prelude.{Bool, ◌≡◌, refl, sym, ◌⊎◌, false, [], ◌∷◌, lit, str_beq}
use etcdircd.Reply.{rpl_youreoper, err_cannotsendtochan}
use etcdircd.Result.{ok}
use etcdircd.Mode.{has}
use etcdircd.Mode.Semantics.{IsModeSet}
use etcdircd.User.{UserValue, in_chan}
use etcdircd.Key.{key_user_ctl, key_chan_nicks, key_chan_ctl, key_oper_ctl}
use etcdircd.Tables.Store.{tables}
use etcdircd.Client.{Scope, send_host_msg}
use etcdircd.Client.Part.{part_tx}
use etcdircd.Client.Kick.{KickFlags, kick_tx}
use etcdircd.Client.Kick.Laws.{HasOps, Kicked, kick_tx_needs_ops}
use etcdircd.Client.Oper.{oper_tx, oper}
use etcdircd.Client.Oper.Laws.{Granted, oper_tx-Granted, oper_stale_reply}
use etcdircd.Client.PrivMsg.{ChanFlags, chan_tx, priv_msg_chan}
use etcdircd.Client.PrivMsg.Chan.{MaySpeak, posted, chan_tx-MaySpeak, chan_stale_reply}
use etcdircd.Client.Modes.{user_mode}
use etcdircd.Client.Modes.Laws.{NotHeld, user_mode-NotHeld}
use etcdircd.Sample.{
  Memory, sample, harbour, harbour_master, open_harbour, sea_ctl, ann, bob, sea, user_named,
  ann_record, client_of, world_of, at_once,
}
use etcdircd.Examples.Stored.{ann_is}

abbrev parted : Scope Bool Memory
parted =
    (part_tx sample (client_of ann) 7 sea (lit "bye") (record { flags = false; view = harbour })).1

part_runs :
    part_tx sample (client_of ann) 7 sea (lit "bye") (record { flags = false; view = harbour })
    ≡ (ok tt, parted)
unfolding part_tx str_beq key_chan_nicks key_user_ctl key_chan_ctl etcdircd.User.part
    etcdircd.Text.hex
part_runs = refl

abbrev no_flags : KickFlags
no_flags = record { not_op = false; not_on_chan = false; user_not_on_chan = false }

abbrev kicked : Scope KickFlags Memory
kicked =
    (kick_tx sample (client_of ann) 7 sea bob (lit "out")
      (record { flags = no_flags; view = harbour })).1

kick_runs :
    kick_tx sample
      (client_of ann)
      7
      sea
      bob
      (lit "out")
      (record { flags = no_flags; view = harbour })
    ≡ (ok tt, kicked)
unfolding kick_tx str_beq key_chan_nicks etcdircd.Text.hex etcdircd.Channel.find_nick has
    key_user_ctl key_chan_ctl etcdircd.User.part
kick_runs = refl

kick_tx_needs_ops_example :
    (kicked.view ≡ harbour)
    ⊎ (HasOps sample (client_of ann) 7 sea harbour × Kicked sample sea bob harbour kicked.view)
kick_tx_needs_ops_example =
    kick_tx_needs_ops sample (client_of ann) 7 sea bob (lit "out") no_flags harbour kicked kick_runs

NotHeld-ann : NotHeld (client_of ann) b'o' (tables sample harbour)
unfolding has
NotHeld-ann uv h =
    subst (λ (u : UserValue). IsModeSet u.mode × (has u.mode b'o' ≡ false)) (sym (ann_is uv h))
      ((refl, tt), refl)

user_mode-NotHeld_example : NotHeld (client_of ann) b'o' (
    tables sample
      (user_mode sample (client_of ann) (lit "+o" ∷ []) at_once (world_of harbour)).1.db)
unfolding has
user_mode-NotHeld_example =
    user_mode-NotHeld sample (client_of ann) (lit "+o" ∷ []) b'o' at_once (world_of harbour) refl
      NotHeld-ann

abbrev fresh : ChanFlags
fresh = record { no_nick = false; no_send = false }

abbrev spoken : Scope ChanFlags Memory
spoken =
    (chan_tx sample (client_of ann) sea (lit "hi") (record { flags = fresh; view = harbour })).1

chan_runs :
    chan_tx sample (client_of ann) sea (lit "hi") (record { flags = fresh; view = harbour })
    ≡ (ok tt, spoken)
unfolding chan_tx str_beq key_chan_nicks key_chan_ctl key_user_ctl has etcdircd.Text.hex
    etcdircd.Channel.find_nick
chan_runs = refl

chan_tx-MaySpeak_example :
    (spoken.view ≡ harbour)
    ⊎ ((spoken.view ≡ posted sample (client_of ann) sea (lit "hi") harbour)
        × MaySpeak sample (client_of ann) sea harbour)
chan_tx-MaySpeak_example =
    chan_tx-MaySpeak sample (client_of ann) sea (lit "hi") fresh harbour spoken chan_runs

abbrev opered : Scope Bool Memory
opered =
    (oper_tx sample (client_of ann) (lit "root") (lit "secret")
      (record { flags = false; view = harbour_master })).1

oper_runs :
    oper_tx sample
      (client_of ann)
      (lit "root")
      (lit "secret")
      (record { flags = false; view = harbour_master })
    ≡ (ok tt, opered)
unfolding oper_tx str_beq key_oper_ctl key_user_ctl key_chan_nicks key_chan_ctl
oper_runs = refl

oper_tx-Granted_example :
    ((opered.flags ≡ false) × (opered.view ≡ harbour_master))
    ⊎ Granted sample (client_of ann) (lit "root") (lit "secret") false harbour_master opered
oper_tx-Granted_example =
    oper_tx-Granted sample (client_of ann) (lit "root") (lit "secret") false harbour_master opered
      oper_runs

-- The operator's record is deleted between the two attempts.
oper_stale_reply_example :
    oper sample
      (client_of ann)
      (lit "root")
      (lit "secret")
      (record { lost = harbour_master ∷ []; verdict = ok 9 })
      (world_of harbour)
    ≡ send_host_msg
        (client_of ann)
        rpl_youreoper
        (lit "You are now an IRC operator" ∷ [])
        (record (world_of harbour) { db = sample.commit 9 harbour })
unfolding oper_tx str_beq key_oper_ctl key_user_ctl key_chan_nicks key_chan_ctl
oper_stale_reply_example =
    oper_stale_reply sample (client_of ann) (lit "root") (lit "secret") harbour_master opered 9
      (world_of harbour) ann_record oper_runs refl refl refl

abbrev silenced : Scope ChanFlags Memory
silenced =
    (chan_tx sample (client_of bob) sea (lit "hi") (record { flags = fresh; view = harbour })).1

silenced_runs :
    chan_tx sample (client_of bob) sea (lit "hi") (record { flags = fresh; view = harbour })
    ≡ (ok tt, silenced)
unfolding chan_tx str_beq key_chan_nicks key_chan_ctl key_user_ctl has etcdircd.Text.hex
    etcdircd.Channel.find_nick
silenced_runs = refl

-- The channel is opened between the two attempts.
chan_stale_reply_example :
    priv_msg_chan sample
      (client_of bob)
      sea
      (lit "hi")
      (record { lost = harbour ∷ []; verdict = ok 9 })
      (world_of open_harbour)
    ≡ send_host_msg
        (client_of bob)
        err_cannotsendtochan
        (sea ∷ lit "Cannot send to channel" ∷ [])
        (record (world_of open_harbour) {
          db = sample.commit 9 (posted sample (client_of bob) sea (lit "hi") open_harbour);
        })
unfolding chan_tx str_beq key_chan_nicks key_chan_ctl key_user_ctl has etcdircd.Text.hex
    etcdircd.Channel.find_nick
chan_stale_reply_example =
    chan_stale_reply sample (client_of bob) sea (lit "hi") harbour silenced 9
      (world_of open_harbour) (user_named bob (sea ∷ []) []) (record sea_ctl { mode = [] })
      silenced_runs refl refl refl refl refl
