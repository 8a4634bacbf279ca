-- ===== src/Examples/Members.antt =====
-- etcd_client.go: a client joins a channel, quits, writes to a user, and sets a topic.
use etcdircd.Prelude.{◌≡◌, ◌⊎◌, false, refl, ap, some, [], Str, lit, str_beq}
use etcdircd.Result.{ok}
use etcdircd.Tables.Store.{tables}
use etcdircd.Client.{Scope}
use etcdircd.Client.Join.{join_tx}
use etcdircd.Client.Join.Effect.{Joined, join_tx-Joined}
use etcdircd.Client.Join.Laws.{OwnRecord}
use etcdircd.Client.Quit.{quit_tx}
use etcdircd.Client.Quit.Laws.{Gone, quit_tx-Gone}
use etcdircd.Client.PrivMsg.{UserFlags, user_tx}
use etcdircd.Client.PrivMsg.Direct.{delivered, MayReach, IsAway, user_tx-MayReach}
use etcdircd.Client.Topic.{TopicFlags, topic_tx}
use etcdircd.Client.Topic.Laws.{Set, topic_tx-Set}
use etcdircd.Key.{key_user_ctl, key_chan_nicks, key_chan_ctl}
use etcdircd.Mode.{has}
use etcdircd.Sample.{Memory, sample, harbour, ann, bob, sea, client_of, ann_record}
use etcdircd.Examples.Stored.{IsConsistent-harbour, OwnLease-ann, ann_is}

abbrev pub den : Str
den = lit "#den"

abbrev joined : Scope Str Memory
joined = (join_tx sample (client_of ann) 7 den 0 (record { flags = []; view = harbour })).1

join_runs :
    join_tx sample (client_of ann) 7 den 0 (record { flags = []; view = harbour }) ≡ (ok tt, joined)
unfolding join_tx str_beq key_chan_nicks key_user_ctl key_chan_ctl
join_runs = refl

join_tx-Joined_example : Joined sample (client_of ann) 7 den 0 [] harbour joined
join_tx-Joined_example = join_tx-Joined sample (client_of ann) 7 den 0 [] harbour joined join_runs

pub OwnRecord-ann : OwnRecord (client_of ann) (ok 7) (tables sample harbour)
OwnRecord-ann uv lid s h = (ap (λ u. u.nick) (ann_is uv h), OwnLease-ann uv lid s h)

abbrev gone : Scope (Unit {0}) Memory
gone = (quit_tx sample (client_of ann) (ok 7) (lit "bye") (record { flags = tt; view = harbour })).1

quit_runs :
    quit_tx sample (client_of ann) (ok 7) (lit "bye") (record { flags = tt; view = harbour })
    ≡ (ok tt, gone)
unfolding quit_tx str_beq key_chan_nicks key_user_ctl key_chan_ctl etcdircd.Text.hex
quit_runs = refl

quit_tx-Gone_example : Gone sample (client_of ann) (lit "bye") harbour 7 (tables sample gone.view)
unfolding str_beq key_chan_nicks key_user_ctl key_chan_ctl
quit_tx-Gone_example =
    quit_tx-Gone sample (client_of ann) (lit "bye") harbour 7 ann_record gone quit_runs refl refl
      IsConsistent-harbour

-- A message to a user, and a topic on a channel that is not restricted.
abbrev messaged : Scope UserFlags Memory
messaged =
    (user_tx sample (client_of ann) bob (lit "?OTR:x")
      (record { flags = record { no_nick = false; bad_otr = false }; view = harbour })).1

message_runs :
    user_tx sample
      (client_of ann)
      bob
      (lit "?OTR:x")
      (record { flags = record { no_nick = false; bad_otr = false }; view = harbour })
    ≡ (ok tt, messaged)
unfolding user_tx str_beq key_chan_nicks key_user_ctl key_chan_ctl has lit
    etcdircd.Client.PrivMsg.is_otr_msg
message_runs = refl

user_tx-MayReach_example :
    (messaged.view ≡ harbour)
    ⊎ (((messaged.view ≡ delivered sample (client_of ann) bob (lit "?OTR:x") harbour)
          × MayReach sample (client_of ann) bob (lit "?OTR:x") harbour)
        ⊎ IsAway sample (client_of ann) bob harbour messaged.view)
user_tx-MayReach_example =
    user_tx-MayReach sample (client_of ann) bob (lit "?OTR:x")
      (record { no_nick = false; bad_otr = false }) harbour messaged message_runs

abbrev no_topic : TopicFlags
no_topic = record { topic = []; no_chan = false; not_on_chan = false; not_op = false }

abbrev titled : Scope TopicFlags Memory
titled =
    (topic_tx sample (client_of ann) 7 sea (some (lit "ships"))
      (record { flags = no_topic; view = harbour })).1

topic_runs :
    topic_tx sample
      (client_of ann)
      7
      sea
      (some (lit "ships"))
      (record { flags = no_topic; view = harbour })
    ≡ (ok tt, titled)
unfolding topic_tx str_beq key_chan_nicks key_user_ctl key_chan_ctl has etcdircd.Text.hex
topic_runs = refl

topic_tx-Set_example :
    (titled.view ≡ harbour)
    ⊎ Set sample (client_of ann) 7 sea (some (lit "ships")) harbour titled.view
topic_tx-Set_example =
    topic_tx-Set sample (client_of ann) 7 sea (some (lit "ships")) no_topic harbour titled
      topic_runs
