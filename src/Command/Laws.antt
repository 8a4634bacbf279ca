-- ===== src/Command/Laws.antt =====
-- client.go: which messages reach a handler.
use etcdircd.Prelude.{
  ◌≡◌, refl, ap, ◌∙◌, sym, Bool, true, false, not, Option, none, some, List, [], ◌∷◌, Str, any,
  find, Option-cases, ◌≢◌, Bool-cases, inl, inr, arith,
}
use etcdircd.Result.{Result, ok, panic}
use etcdircd.Text.{split}
use etcdircd.Etcd.{Message, Prefix}
use etcdircd.Key.{is_chan}
use etcdircd.Command.{
  Command, Call, do_kick, do_die, do_away, do_oper, do_cap, do_whois, do_who, do_join, do_mode,
  do_list, do_names, do_ping, do_part, do_quit, do_privmsg, do_topic, call_kick, call_join,
  call_part, call_topic, call_whois, dispatch, client_do, lookup, commands, join_checked,
  known_command,
}

-- The channels of a call are channel names, and the nick of a whois is not one.
abbrev pub on_channels : Call → Bool
on_channels (call_kick ch nicks msg) = is_chan ch
on_channels (call_join chs) = not (any (λ ch. not (is_chan ch)) chs)
on_channels (call_part ch msg) = is_chan ch
on_channels (call_topic ch msg) = is_chan ch
on_channels (call_whois n) = not (is_chan n)
on_channels _ = true

abbrev sound : Result Call → Bool
sound (ok c) = on_channels c
sound _ = true

not_none : {s : Str} → some s ≡ none → ⊥
not_none h = cc

find-any : (p : Str → Bool) (chs : List Str) → find p chs ≡ none → any p chs ≡ false
unfolding find any
find-any p [] h = refl
find-any p (ch ∷ chs) h = elim (Bool-cases (p ch)) [
  | inl t ↦ absurd (not_none {s = ch} (sym (rw t) ∙ h))
  | inr f ↦ rw f (find-any p chs (sym (rw f) ∙ h))
]

join_checked_sound :
    (chs : List Str) → on_channels (join_checked chs (find (λ ch. not (is_chan ch)) chs)) ≡ true
join_checked_sound chs = elim (Option-cases (find (λ ch. not (is_chan ch)) chs)) [
  | inl all_channels ↦ rw all_channels (rw (find-any _ chs all_channels))
  | inr (ch, other) ↦ rw other
]

empty_name : is_chan [] ≡ false
unfolding is_chan
empty_name = refl

dispatch-sound : (c : Command) (ps : List Str) → sound (dispatch c ps) ≡ true
unfolding dispatch
dispatch-sound do_kick [] = refl
dispatch-sound do_kick (ch ∷ []) = refl
dispatch-sound do_kick (ch ∷ ns ∷ rest) = ground arith
dispatch-sound do_die ps = refl
dispatch-sound do_away [] = refl
dispatch-sound do_away (m ∷ rest) = refl
dispatch-sound do_oper [] = refl
dispatch-sound do_oper (l ∷ []) = refl
dispatch-sound do_oper (l ∷ p ∷ rest) = refl
dispatch-sound do_cap ps = refl
dispatch-sound do_whois [] = rw empty_name
dispatch-sound do_whois (n ∷ rest) = ground arith
dispatch-sound do_who ps = refl
dispatch-sound do_join [] = refl
dispatch-sound do_join (chs ∷ rest) = join_checked_sound (split b',' chs)
dispatch-sound do_mode [] = refl
dispatch-sound do_mode (t ∷ m) = refl
dispatch-sound do_list [] = refl
dispatch-sound do_list (chs ∷ rest) = refl
dispatch-sound do_names [] = refl
dispatch-sound do_names (ch ∷ rest) = refl
dispatch-sound do_ping [] = refl
dispatch-sound do_ping (m ∷ rest) = refl
dispatch-sound do_part [] = refl
dispatch-sound do_part (ch ∷ rest) = ground arith
dispatch-sound do_quit [] = refl
dispatch-sound do_quit (m ∷ rest) = refl
dispatch-sound do_privmsg [] = refl
dispatch-sound do_privmsg (t ∷ []) = refl
dispatch-sound do_privmsg (t ∷ m ∷ rest) = refl
dispatch-sound do_topic [] = refl
dispatch-sound do_topic (ch ∷ rest) = ground arith

-- If `ClientDo` calls the handler of a kick, a join, a part or a topic, every channel of the call is a
-- channel name; and if it calls the handler of a whois, the nick is no channel name. Of the names that
-- the handlers of NAMES, LIST and MODE get it says nothing.
pub client_do-on_channels :
    (m : Message) (call : Call) → client_do m ≡ ok call → on_channels call ≡ true
unfolding client_do
client_do-on_channels m call h = elim (Option-cases (lookup m.command commands)) [
  | inl unknown ↦ transfer_sound (sym h ∙ ap (λ o. known_command o m.params) unknown) refl
  | inr (c, known) ↦
      transfer_sound (sym h ∙ ap (λ o. known_command o m.params) known) (dispatch-sound c m.params)
]
  where
    transfer_sound : {r : Result Call} → ok call ≡ r → sound r ≡ true → on_channels call ≡ true
    transfer_sound p q = ap sound p ∙ q

abbrev is_panic : Result Call → Bool
is_panic panic = true
is_panic _ = false

dispatch_unpanicked :
    (c : Command) (p q : Str) (ps : List Str) → is_panic (dispatch c (p ∷ q ∷ ps)) ≡ false
unfolding dispatch
dispatch_unpanicked do_kick p q ps = ground arith
dispatch_unpanicked do_whois p q ps = ground arith
dispatch_unpanicked do_part p q ps = ground arith
dispatch_unpanicked do_topic p q ps = ground arith
dispatch_unpanicked do_die p q ps = refl
dispatch_unpanicked do_away p q ps = refl
dispatch_unpanicked do_oper p q ps = refl
dispatch_unpanicked do_cap p q ps = refl
dispatch_unpanicked do_who p q ps = refl
dispatch_unpanicked do_join p q ps = refl
dispatch_unpanicked do_mode p q ps = refl
dispatch_unpanicked do_list p q ps = refl
dispatch_unpanicked do_names p q ps = refl
dispatch_unpanicked do_ping p q ps = refl
dispatch_unpanicked do_quit p q ps = refl
dispatch_unpanicked do_privmsg p q ps = refl

-- `ClientDo` does not panic before it calls a handler, on a message with two parameters or more and
-- whatever its command. The handler that it calls may panic.
pub client_do_unpanicked :
    (command : Str) (prefix : Option Prefix) (p q : Str) (ps : List Str)
    → client_do (record { prefix = prefix; command = command; params = p ∷ q ∷ ps }) ≢ panic
unfolding client_do
client_do_unpanicked command prefix p q ps h = elim (Option-cases (lookup command commands)) [
  | inl unknown ↦ not_true (sym (rw unknown) ∙ ap is_panic h)
  | inr (c, known) ↦ not_true (sym (dispatch_unpanicked c p q ps) ∙ sym (rw known) ∙ ap is_panic h)
]
  where
    not_true : false ≡ true → ⊥
    not_true e = cc
