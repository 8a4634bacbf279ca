-- ===== src/Ctl.antt =====
-- cmd/ircdctl/oper.go and cmd/ircdctl/notice.go: the commands of an administrator, which write to the
-- same store. `exitOnErr` ends the process.
pub mod Laws
pub mod Notices
use etcdircd.Prelude.{
  ℕ, Bool, not, Option, none, some, List, [], ◌∷◌, ◌++◌, Str, lit, is_nil, ◌==◌, nat_eq,
  if◌then◌else◌,
}
use etcdircd.Result.{Result, ok, err, panic, must, exited}
use etcdircd.Exec.{Exec, pure, fail, lift, ◌>>=◌, ◌>>◌}
use etcdircd.Text.{split}
use etcdircd.Etcd.{Etcd, Message, no_option, ignore_lease}
use etcdircd.Channel.{OperValue}
use etcdircd.Key.{slash, is_chan, key_oper_ctl, key_user_msg, key_chan_msg}
use etcdircd.Reply.{cmd_notice}

-- The store, and the lines that a command has printed.
pub record Console (V : Type 0) : Type 0 where
  pub db : V
  pub printed : List Str

-- `ks[len(ks)-1]`
abbrev pub last_part : List Str → Option Str
last_part [] = none
last_part (k ∷ []) = some k
last_part (k ∷ j ∷ ks) = last_part (j ∷ ks)

abbrev pub notice_msg : Str → Str → Message
notice_msg nick text = record {
  prefix = some (record { name = lit "ircdctl"; user = []; host = [] });
  command = cmd_notice;
  params = nick ∷ text ∷ [];
}

module _ (e : Etcd) where
  -- A write outside of a transaction; `verdict` is its revision or its error.
  abbrev pub write_now : (e.View → e.View) → Result ℕ → Exec (Console e.View) Unit
  write_now f (ok r) c = (ok tt, record c { db = e.commit r (f c.db) })
  write_now f (err x) c = (err exited, c)
  write_now f panic c = (panic, c)

  -- `runOperMk`
  unfoldable pub run_oper_mk : Bool → List Str → Result ℕ → Exec (Console e.View) Unit
  run_oper_mk global (login ∷ pass ∷ []) verdict =
      write_now
        (λ v.
          e.put (key_oper_ctl login)
            (e.oper_codec.encode (record { pass = pass; is_global = global })) no_option v)
        verdict
  run_oper_mk global _ verdict = fail exited

  -- `runOperRm`
  unfoldable pub run_oper_rm : List Str → Result ℕ → Exec (Console e.View) Unit
  run_oper_rm (login ∷ []) verdict = write_now (λ v. e.del (key_oper_ctl login) v) verdict
  run_oper_rm _ verdict = fail exited

  -- The transaction of `msgf`.
  unfoldable pub notice_txn : Str → Str → Str → Result ℕ → Exec (Console e.View) Unit
  notice_txn k nick text (ok r) c =
      if e.rev c.db k == 0
      then (ok tt, record c { printed = c.printed ++ (k ++ lit " does not exist") ∷ [] })
      else (
        ok tt,
        record c {
          db = e.commit r (e.put k (e.msg_codec.encode (notice_msg nick text)) ignore_lease c.db);
        },
      )
  notice_txn k nick text (err x) c = (err exited, c)
  notice_txn k nick text panic c = (panic, c)

  -- `msgf`
  unfoldable pub notice_to : Str → Str → Result ℕ → Exec (Console e.View) Unit
  unfolding notice_txn ◌>>=◌
  notice_to text k verdict = do
    nick ← lift (must (last_part (split slash k)))
    notice_txn k nick text verdict

  -- The goroutines for all users, in the order in which their transactions run.
  unfoldable pub notice_all : Str → List (Str × Result ℕ) → Exec (Console e.View) Unit
  unfolding notice_to ◌>>=◌
  notice_all text [] = pure tt
  notice_all text ((k, verdict) ∷ ks) = do notice_to text k verdict; notice_all text ks

  -- `runNotice`: to the target, or to the keys that the range of the users' messages has.
  unfoldable pub run_notice :
      Str → List Str → Result ℕ → Result (List (Str × Result ℕ)) → Exec (Console e.View) Unit
  unfolding notice_to notice_all ◌>>=◌
  run_notice target (text ∷ []) verdict users =
      if is_nil target
      then (do ks ← lift users; notice_all text ks)
      else if not (is_chan target)
      then notice_to text (key_user_msg target) verdict
      else notice_to text (key_chan_msg target) verdict
  run_notice target _ verdict users = fail exited
