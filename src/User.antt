-- ===== src/User.antt =====
-- user.go: the record kept for a user, and which users a reply may show.
pub mod Visibility
use etcdircd.Prelude.{
  ℕ, Bool, true, false, not, ◌&&◌, ◌||◌, List, [], ◌∷◌, ◌++◌, Str, any, delete_first, is_nil, ◌==◌,
  str_eq, if◌then◌else◌,
}
use etcdircd.Mode.{ModeValue, has}

pub record UserValue : Type 0 where
  pub nick : Str
  pub user : List Str
  pub server_name : Str
  pub mode : ModeValue
  pub host : Str
  pub real_name : Str
  pub created : ℕ
  pub channels : List Str
  pub away_msg : Str
  pub lease : ℕ

unfoldable pub in_chan : UserValue → Str → Bool
unfolding any
in_chan uv ch = any (λ c. c == ch) uv.channels

-- The user without the first entry for the channel, and whether there was one.
unfoldable pub part : UserValue → Str → UserValue × Bool
unfolding any delete_first
part uv ch = (
  record uv { channels = delete_first (λ c. c == ch) uv.channels },
  any (λ c. c == ch) uv.channels,
)

-- A Go map to `struct{}` is the set of its keys.
insert_all : List Str → (Str → Bool) → Str → Bool
insert_all [] m = m
insert_all (s ∷ ss) m = insert_all ss (λ k. s == k || m k)

unfoldable pub string_slice_to_map : List Str → Str → Bool
unfolding insert_all
string_slice_to_map ss = insert_all ss (λ k. false)

shared_channels : (Str → Bool) → List Str → List Str → List Str
shared_channels uchan [] acc = acc
shared_channels uchan (ch ∷ chs) acc =
    shared_channels uchan chs (if uchan ch then acc ++ ch ∷ [] else acc)

abbrev has_any : List Str → Bool
has_any [] = false
has_any (ch ∷ chs) = true

-- One round of the loop over the users.
prune_round : UserValue → (Str → Bool) → Bool → UserValue → List UserValue → List UserValue
unfolding shared_channels
prune_round me uchan is_local_op user ret =
    if not (has user.mode b'i') || (is_local_op && user.server_name == me.server_name)
    then ret ++ user ∷ []
    else let shared = shared_channels uchan user.channels [] in
      if has_any shared then ret ++ (record user { channels = shared }) ∷ [] else ret

prune_loop : UserValue → (Str → Bool) → Bool → List UserValue → List UserValue → List UserValue
unfolding prune_round
prune_loop me uchan is_local_op [] ret = ret
prune_loop me uchan is_local_op (user ∷ users) ret =
    prune_loop me uchan is_local_op users (prune_round me uchan is_local_op user ret)

unfoldable pub prune_invisible : List UserValue → UserValue → List UserValue
unfolding prune_loop string_slice_to_map
prune_invisible users me =
    if has me.mode b'O'
    then users
    else prune_loop me (string_slice_to_map me.channels) (has me.mode b'o') users []
