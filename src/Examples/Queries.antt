-- ===== src/Examples/Queries.antt =====
-- etcd_client.go: a client joins, and asks for users and channels.
use etcdircd.Prelude.{◌≡◌, refl, [], ◌∷◌, ◌++◌, map, lit, str_beq}
use etcdircd.Result.{ok}
use etcdircd.User.{UserValue}
use etcdircd.Mode.{has}
use etcdircd.Reply.{rpl_listend}
use etcdircd.Key.{key_user_ctl, key_chan_nicks, key_chan_ctl}
use etcdircd.Client.Query.{Read, Range, users_from_mask}
use etcdircd.Client.Query.Laws.{Disclosed, users_from_mask-Disclosed}
use etcdircd.Client.Lists.{list_chans}
use etcdircd.Client.Lists.Laws.{seen_channels, list_line, host_msg, list_chans-seen_channels}
use etcdircd.Sample.{
  Memory, Blob, sample, harbour, ann, bob, sea, sea_ctl, ann_record, user_named, client_of,
  world_of,
}

abbrev nothing_there : Range Memory Blob
nothing_there v pfx = []

abbrev answer : Read Memory
answer rev = ok (harbour, 9)

bob_seen :
    users_from_mask sample nothing_there (client_of ann) bob 0 answer answer
    ≡ ok (user_named bob (sea ∷ []) [] ∷ [])
unfolding users_from_mask str_beq lit key_user_ctl key_chan_nicks key_chan_ctl has
    etcdircd.Key.is_chan etcdircd.User.prune_invisible
bob_seen = refl

users_from_mask-Disclosed_example :
    Disclosed sample (client_of ann) answer answer (user_named bob (sea ∷ []) [] ∷ [])
users_from_mask-Disclosed_example =
    users_from_mask-Disclosed sample nothing_there (client_of ann) bob 0 answer answer
      (user_named bob (sea ∷ []) [] ∷ []) bob_seen

list_chans-seen_channels_example :
    ((list_chans sample nothing_there (client_of ann) (sea ∷ []) answer (world_of harbour)).0
      ≡ ok tt)
    × ((list_chans sample nothing_there (client_of ann) (sea ∷ []) answer (world_of harbour)).1.sent
        ≡ []
          ++ (map (list_line (client_of ann)) (seen_channels ann_record (sea_ctl ∷ []))
              ++ host_msg (client_of ann) rpl_listend (lit "End of LIST" ∷ []) ∷ []))
unfolding str_beq lit key_user_ctl key_chan_nicks key_chan_ctl list_chans
    etcdircd.Client.Query.decode_all
list_chans-seen_channels_example =
    list_chans-seen_channels sample nothing_there (client_of ann) (sea ∷ []) answer
      (world_of harbour) (harbour, 9) ann_record (sea_ctl ∷ []) refl refl refl refl (λ n. refl)
