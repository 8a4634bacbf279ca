-- ===== src/Server/Handshake/Laws.antt =====
-- server.go: what a `handshake` that succeeds has done.
use mathlib.Core.Path.{subst}
use etcdircd.Prelude.{
  ℕ, ◌≡◌, refl, sym, ap, ◌∙◌, Option, none, some, List, [], ◌∷◌, Str, ◌==◌, str_eq, ==-self,
  Bool-cases, inl, inr, some_eq, none_not_some,
}
use etcdircd.Result.{Result, ok, must, and_then, ok_eq, err_not_ok, panic_not_ok}
use etcdircd.Exec.{Exec, lift, run_ok}
use etcdircd.Etcd.{Etcd, Message}
use etcdircd.User.{UserValue}
use etcdircd.Key.{key_user_ctl, key_user_msg}
use etcdircd.Tables.{Tables, set_user}
use etcdircd.Tables.Store.{tables}
use etcdircd.Client.{World}
use etcdircd.Client.Quiet.{IsQuiet, quiet_laws}
use etcdircd.Server.{Config, ConnectRequest}
use etcdircd.Server.Register.{Connected, new_user, new_etcd_client}
use etcdircd.Server.Register.Laws.{Made, new_etcd_client-Made}
use etcdircd.Server.Handshake.{
  Round, tell, motd, greet, retry, end_round, welcome, register, handshake, of_host,
}
use etcdircd.Server.Request.{first_param}
use etcdircd.Reply.{cmd_cap, cmd_nick, err_nicknameinuse}

module _ {V : Type 0} (cfg : Config) where
  pub motd-IsQuiet : (nick : Str) → IsQuiet {V = V} (motd cfg nick)
  unfolding motd
  motd-IsQuiet nick = search quiet_laws

  greet-IsQuiet : (date : Str) (cr : ConnectRequest) → IsQuiet {V = V} (greet cfg date cr)
  unfolding greet
  greet-IsQuiet date cr = search (quiet_laws, motd-IsQuiet) depth 12

module _ (e : Etcd) (cfg : Config) (now : ℕ) where
  -- The store holds the record of a client, as `newEtcdClient` writes it, and its empty mailbox, bound
  -- to the lease of a session.
  pub record IsRegistered (user : List Str) (c : Connected) (v : e.View) : Type 0 where
    pub lease : ℕ
    pub stored :
        (tables e v).user c.client.nick
        ≡ some (new_user cfg (record { nick = c.client.nick; user = user }) now lease)
    pub bound : e.lease_of v (key_user_ctl c.client.nick) ≡ lease
    pub mailbox : e.get v (key_user_msg c.client.nick) ≡ e.empty
    pub mailbox_bound : e.lease_of v (key_user_msg c.client.nick) ≡ lease

  found : (n : Str) (uv : UserValue) (t : Tables) → (set_user n (some uv) t).user n ≡ some uv
  found n uv t = rw (==-self n)

  Made-IsRegistered :
      (cr : ConnectRequest) (w w' : World e.View) (ses verdict : Result ℕ) (c : Connected)
      → Made e cfg cr now w ses verdict c w'
      → IsRegistered cr.user c w'.db
  Made-IsRegistered cr w w' ses verdict c m = record {
    lease = m.lease;
    stored = rw (m.nick, m.after) (found cr.nick _ (tables e w.db));
    bound = rw m.nick m.bound;
    mailbox = rw m.nick m.mailbox;
    mailbox_bound = rw m.nick m.mailbox_bound;
  }

  -- The next round keeps the parameters of the `USER`.
  nick_user :
      (cr cr' : ConnectRequest) (p : Option Str)
      → and_then (must p) (λ n. ok (record { nick = n; user = cr.user })) ≡ ok cr'
      → cr'.user ≡ cr.user
  nick_user cr cr' none h = absurd (panic_not_ok h)
  nick_user cr cr' (some n) h = ap (λ c. c.user) (sym (ok_eq h))

  retry_user :
      (cr cr' : ConnectRequest) (next : Option Message)
      → retry cr next ≡ ok cr'
      → cr'.user ≡ cr.user
  unfolding retry
  retry_user cr cr' none h = absurd (err_not_ok h)
  retry_user cr cr' (some msg) h = elim (Bool-cases (msg.command == cmd_cap)) [
    | inl cap ↦ ap (λ c. c.user) (sym (ok_eq (rw cap at h)))
    | inr no_cap ↦ elim (Bool-cases (msg.command == cmd_nick)) [
      | inl nick ↦ nick_user cr cr' (first_param msg.params) (rw (no_cap, nick) at h)
      | inr no_nick ↦ absurd (err_not_ok (rw (no_cap, no_nick) at h))
    ]
  ]

  abbrev Found : List Str → Result (Option (ConnectRequest × Connected)) × World e.View → Type 0
  Found user out =
      (r : ConnectRequest × Connected) (w' : World e.View)
      → out ≡ (ok (some r), w')
      → IsRegistered user r.1 w'.db

  end_round-Found :
      (cr : ConnectRequest) (next : Option Message)
      (more : ConnectRequest → Exec (World e.View) (Option (ConnectRequest × Connected)))
      (w1 : World e.View)
      → ((cr' : ConnectRequest) (w2 : World e.View) → Found cr'.user (more cr' w2))
      → Found cr.user (end_round e cfg now cr next more none w1)
  unfolding end_round
  end_round-Found cr next more w1 later r w' run =
      let (told, w2, h2, then2) =
        run_ok (tell (of_host cfg err_nicknameinuse (cr.nick ∷ []))) _ w1 run in
      let (cr', w3, h3, then3) = run_ok (lift (retry cr next)) _ w2 then2 in
      subst (λ u. IsRegistered u r.1 w'.db) (retry_user cr cr' next (ap (λ x. x.0) h3))
        (later cr' w3 r w' then3)

  end_made-Found :
      (cr : ConnectRequest) (next : Option Message)
      (more : ConnectRequest → Exec (World e.View) (Option (ConnectRequest × Connected)))
      (w1 : World e.View) (c : Connected)
      → IsRegistered cr.user c w1.db
      → Found cr.user (end_round e cfg now cr next more (some c) w1)
  unfolding end_round
  end_made-Found cr next more w1 c here r w' run =
      subst (λ w. IsRegistered cr.user r.1 w.db) (ap (λ x. x.1) run)
        (subst (λ (q : ConnectRequest × Connected). IsRegistered cr.user q.1 w1.db)
          (some_eq (ok_eq (ap (λ x. x.0) run))) here)

  register-Found :
      (rds : List (Round e.View)) (cr : ConnectRequest) (w : World e.View)
      → Found cr.user (register e cfg now cr rds w)
  unfolding register
  register-Found [] cr w r w' run = absurd (none_not_some (ok_eq (ap (λ x. x.0) run)))
  register-Found (rd ∷ rds) cr w r w' run =
      let more = λ (cr' : ConnectRequest). register e cfg now cr' rds in
      let (made, w1, h1, then1) =
        run_ok (new_etcd_client e cfg cr now rd.session rd.verdict)
          (end_round e cfg now cr rd.next more) (record w { db = rd.store }) run in
      elim (new_etcd_client-Made e cfg cr now (record w { db = rd.store }) rd.session rd.verdict
        made w1 h1) [
          | inl (refused, same, used) ↦
              end_round-Found cr rd.next more w1 (λ cr' w2. register-Found rds cr' w2) r w'
                (rw refused at then1)
          | inr (c, is_c, m) ↦
              end_made-Found cr rd.next more w1 c
                (Made-IsRegistered cr (record w { db = rd.store }) w1 rd.session rd.verdict c m) r
                w' (rw is_c at then1)
        ]

  welcome-IsRegistered :
      (date : Str) (ctx : Result (Unit {0})) (user : List Str) (w1 w' : World e.View)
      (c : Connected) (done : Option (ConnectRequest × Connected))
      → ((r : ConnectRequest × Connected) → done ≡ some r → IsRegistered user r.1 w1.db)
      → welcome e cfg now date ctx done w1 ≡ (ok (some c), w')
      → IsRegistered user c w'.db
  unfolding welcome
  welcome-IsRegistered date ctx user w1 w' c none h run =
      absurd (none_not_some (ok_eq (ap (λ x. x.0) run)))
  welcome-IsRegistered date ctx user w1 w' c (some r) h run =
      let (told, w2, h2, then2) = run_ok (greet cfg date r.0) _ w1 run in
      let (on, w3, h3, then3) = run_ok (lift ctx) _ w2 then2 in
      let same : w'.db ≡ w1.db =
        ap (λ x. x.1.db) (sym then3)
        ∙ ap (λ x. x.1.db) (sym h3)
        ∙ ap (λ x. x.1.db) (sym h2)
        ∙ (greet-IsQuiet cfg date r.0).keeps w1 in
      subst (IsRegistered user c) (sym same)
        (subst (λ k. IsRegistered user k w1.db) (some_eq (ok_eq (ap (λ x. x.0) then3))) (h r refl))

  -- If the handshake ends with a client, after any number of rounds in which the nick was in use, the
  -- store holds the record of this client under its nick, with the pinned modes, on no channel, and its
  -- mailbox, both bound to the lease of one session.
  pub handshake-IsRegistered :
      (date : Str) (ctx : Result (Unit {0})) (cr : ConnectRequest) (rds : List (Round e.View))
      (w w' : World e.View) (c : Connected)
      → handshake e cfg now date ctx cr rds w ≡ (ok (some c), w')
      → IsRegistered cr.user c w'.db
  unfolding handshake
  handshake-IsRegistered date ctx cr rds w w' c run =
      let (done, w1, h1, then1) =
        run_ok (register e cfg now cr rds) (welcome e cfg now date ctx) w run in
      welcome-IsRegistered date ctx cr.user w1 w' c done
        (λ r is_r. register-Found rds cr w r w1 (rw is_r at h1)) then1
