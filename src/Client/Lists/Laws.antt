-- ===== src/Client/Lists/Laws.antt =====
-- etcd_client.go: what `List` shows.
use etcdircd.Prelude.{
  ℕ, ◌+◌, ◌≡◌, refl, sym, ap, ◌∙◌, Bool, true, false, not, ◌&&◌, some, List, [], ◌∷◌, ◌++◌, map,
  append_assoc, append-nil, Str, lit, ◌==◌, nat_eq, if◌then◌else◌,
}
use etcdircd.Result.{ok, decoded, bind_ok, ok_eq}
use etcdircd.Exec.{◌>>=◌}
use etcdircd.Text.{decimal}
use etcdircd.Etcd.{Etcd, Message}
use etcdircd.Mode.{has}
use etcdircd.User.{UserValue, in_chan}
use etcdircd.Channel.{ChannelCtl}
use etcdircd.Key.{key_user_ctl}
use etcdircd.Reply.{rpl_list, rpl_listend}
use etcdircd.Client.{Client, World, send_msg, send_host_msg}
use etcdircd.Client.Query.{Read, Range, decode_all}
use etcdircd.Client.Quiet.{Takes}
use etcdircd.Client.Lists.{ReplyList, list_replies, list_lines, listed_values, list_chans}

-- The channels that a user may see, in order.
abbrev pub seen_channels : UserValue → List ChannelCtl → List ChannelCtl
seen_channels uv [] = []
seen_channels uv (c ∷ cs) =
    let rest = seen_channels uv cs in
    if has c.mode b's' && not (in_chan uv c.name) then rest else c ∷ rest

abbrev pub list_entry : ChannelCtl → ReplyList
list_entry c = record { channel = c.name; visible = 100; topic = c.topic }

-- A message of the server to the client.
abbrev pub host_msg : Client → Str → List Str → Message
host_msg ec cmd params = record {
  prefix = some ec.host_pfx;
  command = cmd;
  params = ec.nick ∷ params;
}

abbrev pub list_line : Client → ChannelCtl → Message
list_line ec c = host_msg ec rpl_list (c.name ∷ decimal 100 ∷ (lit " " ++ c.topic) ∷ [])

-- A world after messages have been sent.
abbrev sending : {V : Type 0} → World V → List Message → World V
sending w [] = w
sending w (m ∷ ms) = sending (record w { tried = w.tried + 1; sent = w.sent ++ m ∷ [] }) ms

module _ {V : Type 0} where
  sending-sent : (ms : List Message) (w : World V) → (sending w ms).sent ≡ w.sent ++ ms
  sending-sent [] w = sym (append-nil w.sent)
  sending-sent (m ∷ ms) w = sending-sent ms _ ∙ append_assoc w.sent (m ∷ []) ms

  sending-taken : (ms : List Message) (w : World V) → (sending w ms).taken ≡ w.taken
  sending-taken [] w = refl
  sending-taken (m ∷ ms) w = sending-taken ms _

  send_host_msg_taken :
      (ec : Client) (cmd : Str) (params : List Str) (w : World V)
      → Takes w
      → send_host_msg ec cmd params w ≡ (ok tt, sending w (host_msg ec cmd params ∷ []))
  unfolding send_host_msg send_msg
  send_host_msg_taken ec cmd params w takes = rw (takes w.tried)

-- One turn of the loop adds a reply for a channel that is seen, and nothing for one that is hidden.
seen_step :
    (uv : UserValue) (c : ChannelCtl) (cs : List ChannelCtl) (repls : List ReplyList) (b : Bool)
    → (if b then repls else repls ++ list_entry c ∷ []) ++ map list_entry (seen_channels uv cs)
      ≡ repls ++ map list_entry (let rest = seen_channels uv cs in if b then rest else c ∷ rest)
seen_step uv c cs repls true = refl
seen_step uv c cs repls false =
    append_assoc repls (list_entry c ∷ []) (map list_entry (seen_channels uv cs))

module _ (e : Etcd) (range : Range e.View e.Blob) (ec : Client) where
  list_replies-seen_channels :
      (uv : UserValue) (bs : List e.Blob) (cs : List ChannelCtl) (repls : List ReplyList)
      → decode_all (λ b. e.ctl_codec.decode b) bs ≡ ok cs
      → list_replies e range ec uv bs repls ≡ ok (repls ++ map list_entry (seen_channels uv cs))
  unfolding list_replies decode_all
  list_replies-seen_channels uv [] cs repls h = rw (sym (ok_eq h)) (ap ok (sym (append-nil repls)))
  list_replies-seen_channels uv (b ∷ bs) cs repls h =
      let (c, hb, k) = bind_ok (decoded (e.ctl_codec.decode b)) _ h in
      let (rest, hs, k') = bind_ok (decode_all (λ b. e.ctl_codec.decode b) bs) _ k in
      let turn =
        if has c.mode b's' && not (in_chan uv c.name) then repls else repls ++ list_entry c ∷ [] in
      rw (hb, sym (ok_eq k'))
        (list_replies-seen_channels uv bs rest turn hs
          ∙ ap ok (seen_step uv c rest repls (has c.mode b's' && not (in_chan uv c.name))))

  list_lines_taken :
      (cs : List ChannelCtl) (w : World e.View)
      → Takes w
      → list_lines e range ec (map list_entry cs) w ≡ (ok tt, sending w (map (list_line ec) cs))
  unfolding list_lines ◌>>=◌
  list_lines_taken [] w takes = refl
  list_lines_taken (c ∷ cs) w takes =
      rw
        (send_host_msg_taken ec rpl_list (c.name ∷ decimal 100 ∷ (lit " " ++ c.topic) ∷ []) w takes)
        (list_lines_taken cs _ takes)

  -- If the store that `List` reads has the record of the client, and the values it reads are channels,
  -- it sends, over a connection that takes every message, a line for each of these channels that is
  -- not secret or that the client has joined, in order, and then the end of the list.
  pub list_chans-seen_channels :
      (chs : List Str) (r : Read e.View) (w : World e.View) (at : e.View × ℕ) (uv : UserValue)
      (cs : List ChannelCtl)
      → r 0 ≡ ok at
      → (e.rev at.0 (key_user_ctl ec.nick) == 0) ≡ false
      → e.user_codec.decode (e.get at.0 (key_user_ctl ec.nick)) ≡ some uv
      → decode_all (λ b. e.ctl_codec.decode b) (listed_values e range ec at.0 chs) ≡ ok cs
      → Takes w
      → ((list_chans e range ec chs r w).0 ≡ ok tt)
        × ((list_chans e range ec chs r w).1.sent
            ≡ w.sent
              ++ (map (list_line ec) (seen_channels uv cs)
                  ++ host_msg ec rpl_listend (lit "End of LIST" ∷ []) ∷ []))
  unfolding list_chans ◌>>=◌
  list_chans-seen_channels chs r w at uv cs answered here stored values takes =
      let shown = seen_channels uv cs in
      let sent = sending w (map (list_line ec) shown) in
      rw
        (
          answered,
          here,
          stored,
          list_replies-seen_channels uv (listed_values e range ec at.0 chs) cs [] values,
          list_lines_taken shown w takes,
        )
        rw
        (send_host_msg_taken ec rpl_listend (lit "End of LIST" ∷ []) sent
          λ n. ap (λ f. f n) (sending-taken (map (list_line ec) shown) w) ∙ takes n)
        (
          refl,
          ap (λ ms. ms ++ host_msg ec rpl_listend (lit "End of LIST" ∷ []) ∷ [])
                (sending-sent (map (list_line ec) shown) w)
              ∙ append_assoc w.sent (map (list_line ec) shown)
                  (host_msg ec rpl_listend (lit "End of LIST" ∷ []) ∷ []),
        )
