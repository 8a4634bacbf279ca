-- ===== src/Examples/Parts.antt =====
-- mode.go and user.go at concrete values.
use etcdircd.Prelude.{◌≡◌, refl, false, List, [], ◌∷◌, Str, lit, map, str_eq}
use etcdircd.Mode.{ModeValue, has, user_mode_perms, chan_mode_perms, update_slice}
use etcdircd.Mode.Semantics.{IsModeSet, after_updates, update_slice-has}
use etcdircd.Mode.Change.{update_slice_unreported}
use etcdircd.User.{UserValue, prune_invisible}
use etcdircd.User.Visibility.{
  All, MayShow, seen_nicks, prune_invisible-MayShow, prune_invisible-nicks,
}
use etcdircd.Sample.{ann, bob, sea, user_named}

abbrev away_and_hidden : ModeValue
away_and_hidden = b'a' ∷ b'i' ∷ []

hidden-IsModeSet : IsModeSet away_and_hidden
unfolding has
hidden-IsModeSet = (refl, (refl, tt))

abbrev arguments : List Str
arguments = lit "-a" ∷ lit "+Eo" ∷ lit "w" ∷ []

update_slice-has_example :
    has (update_slice away_and_hidden [] arguments user_mode_perms).0 b'E'
    ≡ after_updates user_mode_perms arguments (has away_and_hidden) b'E'
update_slice-has_example =
    update_slice-has user_mode_perms away_and_hidden [] arguments hidden-IsModeSet b'E'

update_slice_unreported_example :
    update_slice (b'm' ∷ []) [] ((b'-' ∷ b'm' ∷ []) ∷ (b'+' ∷ b't' ∷ []) ∷ []) chan_mode_perms
    ≡ (b't' ∷ [], [], false)
unfolding has
update_slice_unreported_example =
    update_slice_unreported chan_mode_perms b'm' b't' [] [] refl refl refl

abbrev viewer : UserValue
viewer = user_named ann (sea ∷ []) []

abbrev hidden_users : List UserValue
hidden_users =
    user_named bob (sea ∷ lit "#den" ∷ []) (b'i' ∷ []) ∷ user_named (lit "eve") [] (b'i' ∷ []) ∷ []

prune_invisible-MayShow_example : All (MayShow viewer) (prune_invisible hidden_users viewer)
unfolding has
prune_invisible-MayShow_example = prune_invisible-MayShow viewer hidden_users refl

prune_invisible-nicks_example :
    map (λ (u : UserValue). u.nick) (prune_invisible hidden_users viewer)
    ≡ seen_nicks viewer hidden_users
prune_invisible-nicks_example = prune_invisible-nicks viewer hidden_users
