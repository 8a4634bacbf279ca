-- ===== src/Examples/Operators.antt =====
-- cmd/ircdctl: an operator is made, and logs in.
use etcdircd.Prelude.{◌≡◌, refl, true, false, some, [], lit, str_beq}
use etcdircd.Result.{ok}
use etcdircd.Etcd.{ignore_lease}
use etcdircd.Key.{key_user_ctl, key_chan_nicks, key_chan_ctl}
use etcdircd.Client.Oper.{oper_tx}
use etcdircd.Ctl.{Console}
use etcdircd.Ctl.Laws.{made, removed, grown, oper_mk-oper}
use etcdircd.Sample.{Memory, sample, harbour, ann, client_of, ann_record}

abbrev desk : Console Memory
desk = record { db = harbour; printed = [] }

ann_there : sample.user_codec.decode (sample.get harbour (key_user_ctl ann)) ≡ some ann_record
unfolding str_beq key_user_ctl key_chan_nicks key_chan_ctl
ann_there = refl

abbrev master : Memory
master = made sample (client_of ann) (lit "root") (lit "secret") true 9 desk ann_record ann_there

abbrev demoted : Memory
demoted =
    removed sample (client_of ann) (lit "root") (lit "secret") true 9 desk ann_record ann_there

oper_mk-oper_example :
    (oper_tx sample
        (client_of ann)
        (lit "root")
        (lit "secret")
        (record { flags = false; view = master })
      ≡ (
        ok tt,
        record {
          flags = true;
          view =
              sample.put
                (key_user_ctl ann)
                (sample.user_codec.encode (
                  grown sample
                    (client_of ann)
                    (lit "root")
                    (lit "secret")
                    true
                    9
                    desk
                    ann_record
                    ann_there))
                ignore_lease
                master;
        },
      ))
    × (oper_tx sample
          (client_of ann)
          (lit "root")
          (lit "guess")
          (record { flags = false; view = master })
        ≡ (ok tt, record { flags = false; view = master }))
    × (oper_tx sample
          (client_of ann)
          (lit "root")
          (lit "secret")
          (record { flags = false; view = demoted })
        ≡ (ok tt, record { flags = false; view = demoted }))
unfolding str_beq lit
oper_mk-oper_example =
    oper_mk-oper sample (client_of ann) (lit "root") (lit "secret") true 9 desk ann_record ann_there
      false (lit "guess") (lit "secret") refl
