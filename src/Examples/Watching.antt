-- ===== src/Examples/Watching.antt =====
-- A client watches two channels and leaves one.
use etcdircd.Prelude.{Str, lit, str_eq}
use etcdircd.Client.Watches.{Watch, of_members, Watches, no_watches, monitor_channel}
use etcdircd.Sample.{sea}

abbrev lake : Str
lake = lit "#lake"

abbrev two_channels : Watches
two_channels = monitor_channel lake 9 (monitor_channel sea 5 no_watches)

abbrev sea_members : Watch
sea_members = record { channel = sea; kind = of_members; context = 0; from_rev = 5 }

-- The first channel is joined again.
abbrev joined_again : Watches
joined_again = monitor_channel sea 12 two_channels
