-- ===== src/Examples/Commands.antt =====
-- client.go at concrete messages.
use etcdircd.Prelude.{◌≡◌, ◌≢◌, refl, true, none, [], ◌∷◌, lit, str_beq}
use etcdircd.Result.{ok, panic}
use etcdircd.Etcd.{Message}
use etcdircd.Text.{split}
use etcdircd.Key.{is_chan}
use etcdircd.Command.{Call, call_join, client_do}
use etcdircd.Command.Laws.{on_channels, client_do-on_channels, client_do_unpanicked}
use etcdircd.Sample.{bob}

abbrev two_joins : Call
two_joins = call_join (lit "#a" ∷ lit "#b" ∷ [])

abbrev join_two : Message
join_two = record { prefix = none; command = lit "JOIN"; params = lit "#a,#b" ∷ [] }

join_two_runs : client_do join_two ≡ ok two_joins
unfolding client_do str_beq lit split is_chan
join_two_runs = refl

client_do-on_channels_example : on_channels two_joins ≡ true
client_do-on_channels_example = client_do-on_channels join_two two_joins join_two_runs

client_do_unpanicked_example :
    client_do (record { prefix = none; command = lit "PRIVMSG"; params = bob ∷ lit "hi" ∷ [] })
    ≢ panic
client_do_unpanicked_example = client_do_unpanicked (lit "PRIVMSG") none bob (lit "hi") []
