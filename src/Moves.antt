-- ===== src/Moves.antt =====
-- What the handlers may do to the tables, as an abstract specification: the moves of one user, with
-- the rights that they need. The transactions of etcd_client.go are its implementations.
pub mod Sound
pub mod Members
pub mod Channels
pub mod Users
pub mod Sends
pub mod Changes
pub mod Under
use etcdircd.Prelude.{
  ℕ, ◌≡◌, ◌⊎◌, Bool, true, false, Option, none, some, List, [], ◌∷◌, Str, ◌==◌, str_eq, is_nil,
  if◌then◌else◌,
}
use etcdircd.Mode.{ModeValue, has, add, del, user_mode_perms}
use etcdircd.Mode.Semantics.{IsModeSet, after_updates}
use etcdircd.User.{UserValue, part, in_chan}
use etcdircd.Channel.{ChannelCtl, ChannelNick, OperValue, find_nick}
use etcdircd.Tables.{Tables, leave, enter, set_user, set_ctl}
use etcdircd.Client.Kick.{lacks_op}
use etcdircd.Client.Quit.Lists.{leave_lists}

-- The operator records of the store, by their logins.
abbrev pub Opers : Type 0
Opers = Str → Option OperValue

-- A channel that nobody has set a topic or a mode of.
pub record IsNew (ch : Str) (c : ChannelCtl) : Type 0 where
  pub named : c.name ≡ ch
  pub no_topic : c.topic ≡ []
  pub no_mode : c.mode ≡ []

-- The user is listed on the channel with one of the operator modes.
pub record IsOperator (n ch : Str) (t : Tables) : Type 0 where
  pub lease : ℕ
  pub member : ChannelNick
  pub found : find_nick (t.members ch lease) n ≡ some member
  pub ops : lacks_op member.mode ≡ false

-- What the user may make of the state of a channel: another topic, on a channel that is not restricted
-- or as an operator, and other modes as an operator.
pub data Ruling (n ch : Str) (t : Tables) (c c' : ChannelCtl) : Type 0 where
  titled :
      (topic : Str)
      → (has c.mode b't' ≡ false) ⊎ IsOperator n ch t
      → c' ≡ record c { topic = topic }
      → Ruling n ch t c c'
  moded : (m : ModeValue) → IsOperator n ch t → c' ≡ record c { mode = m } → Ruling n ch t c c'

-- The modes of a new member: none, or `O` and `o` on a channel that there was not.
pub data EntersWith (ch : Str) (t : Tables) (m : ModeValue) : Type 0 where
  with_none : m ≡ [] → EntersWith ch t m
  as_owner : t.ctl ch ≡ none → m ≡ b'O' ∷ b'o' ∷ [] → EntersWith ch t m

-- What a user may make of the own record: modes by arguments, each of which adds and deletes the modes
-- that users may add and delete; the mode of an operator record of the store; and the away message, with the
-- mode `a` as long as it is not empty.
pub data Revising (opers : Opers) (uv : UserValue) : UserValue → Type 0 where
  remoded :
      (m : ModeValue) (args : List Str)
      → (IsModeSet uv.mode → (c : ℕ) → has m c ≡ after_updates user_mode_perms args (has uv.mode) c)
      → Revising opers uv (record uv { mode = m })
  opered :
      (login : Str) (ov : OperValue)
      → opers login ≡ some ov
      → Revising opers uv (record uv { mode = add uv.mode (if ov.is_global then b'O' else b'o') })
  away_set :
      (msg : Str)
      → Revising opers uv (record uv {
        mode = if is_nil msg then del uv.mode b'a' else add uv.mode b'a';
        away_msg = msg;
      })

-- The moves of a user. A channel is entered as it is, or as a new one; others are put off a channel by
-- an operator only.
pub data Move (opers : Opers) (n : Str) (t t' : Tables) : Type 0 where
  entered :
      (uv : UserValue) (ch : Str) (c : ChannelCtl) (cn : ChannelNick)
      → t.user n ≡ some uv
      → (t.ctl ch ≡ some c) ⊎ ((t.ctl ch ≡ none) × IsNew ch c)
      → cn.nick ≡ uv.nick
      → EntersWith ch t cn.mode
      → t' ≡ enter n uv ch uv.lease c cn t
      → Move opers n t t'
  parted :
      (uv : UserValue) (ch : Str)
      → t.user n ≡ some uv
      → in_chan uv ch ≡ true
      → t' ≡ leave n uv ch uv.lease t
      → Move opers n t t'
  kicked :
      (m : Str) (uv : UserValue) (ch : Str)
      → IsOperator n ch t
      → t.user m ≡ some uv
      → t' ≡ leave m uv ch uv.lease t
      → Move opers n t t'
  revised :
      (uv uv' : UserValue)
      → t.user n ≡ some uv
      → Revising opers uv uv'
      → t' ≡ set_user n (some uv') t
      → Move opers n t t'
  ruled :
      (ch : Str) (c c' : ChannelCtl)
      → t.ctl ch ≡ some c
      → Ruling n ch t c c'
      → t' ≡ set_ctl ch c' t
      → Move opers n t t'
  gone :
      (uv : UserValue)
      → t.user n ≡ some uv
      → t' ≡ set_user n none (leave_lists n uv.lease uv.channels t)
      → Move opers n t t'

-- Moves of one user, one after the other.
pub data Moves (opers : Opers) (n : Str) (t : Tables) : Tables → Type 0 where
  stay : Moves opers n t t
  after : {mid t' : Tables} → Moves opers n t mid → Move opers n mid t' → Moves opers n t t'
