-- ===== src/Examples/Encoded.antt =====
-- keyencode/kv.go: a transaction on a store behind the encoder of keys.
use etcdircd.Prelude.{◌≡◌, refl, Bool, true, none, some, List, [], ◌∷◌, ◌++◌, Str, lit}
use etcdircd.Result.{Result, ok, ◌>>=◌}
use etcdircd.Text.{hex}
use etcdircd.Text.Parts.{Lacks}
use etcdircd.Key.{slash, encode, key_chan_nicks, key_chan_nicks_pfx}
use etcdircd.Key.RoundTrip.{encoded, encode_lem}
use etcdircd.Key.Prefix.{encode-nicks_prefix}
use etcdircd.Keyencode.{hmac_encoder}
use etcdircd.Keyencode.RoundTrip.{IsKeyEncoder-hmac}
use etcdircd.Keyencode.Kv.{Op, Cmp, KeyValue, Response, got, enc_op, enc_ops, enc_cmps, do_txn}
use etcdircd.Keyencode.Kv.Laws.{
  key_xfm, Behind, more_pairs, no_pairs, got_behind, more_answers, no_answers, do_txn-AnswersBehind,
}
use etcdircd.Sample.{sea}
use etcdircd.Examples.Crypto.{toy, IsCrypto-toy, sea_parts, split_key-sea}

abbrev sea_encoded : Str
sea_encoded = encoded (hmac_encoder toy) sea_parts

encode-sea : encode (hmac_encoder toy) (key_chan_nicks sea 7) ≡ ok sea_encoded
unfolding lit
encode-sea = encode_lem (hmac_encoder toy) (key_chan_nicks sea 7) sea_parts split_key-sea refl

abbrev pair : Str → KeyValue Str
pair k = record { key = k; value = lit "crew" }

abbrev ask : Str → Op Bool
ask k = record { key = some k; range_end = none; payload = true }

abbrev is_there : Str → Cmp Bool
is_there k = record { key = k; target = true }

-- The store behind has the one pair.
abbrev commit_all :
    List (Cmp Bool) → List (Op Bool) → List (Op Bool) → Result (Bool × List (Response Str))
commit_all cs ts es = ok (true, got (pair sea_encoded ∷ []) ∷ [])

pair-Behind : Behind (hmac_encoder toy) (pair (key_chan_nicks sea 7)) (pair sea_encoded)
unfolding lit
pair-Behind = record {
  store_key = record { parts = sea_parts; split = split_key-sea; top = refl; named = refl };
  key = encode-sea;
  value = refl;
}

end_of : Str → Str
end_of s = s ++ 0 ∷ []

cmps_encoded :
    enc_cmps (key_xfm (hmac_encoder toy)) (is_there (key_chan_nicks sea 7) ∷ [])
    ≡ ok (is_there sea_encoded ∷ [])
unfolding enc_cmps
cmps_encoded = rw encode-sea

ops_encoded :
    enc_ops (key_xfm (hmac_encoder toy)) end_of (ask (key_chan_nicks sea 7) ∷ [])
    ≡ ok (ask sea_encoded ∷ [])
unfolding enc_ops enc_op
ops_encoded = rw encode-sea

no_ops_encoded : enc_ops (key_xfm (hmac_encoder toy)) end_of {P = Bool} [] ≡ ok []
unfolding enc_ops
no_ops_encoded = refl

do_txn-AnswersBehind_example :
    do_txn
      (key_xfm (hmac_encoder toy))
      end_of
      commit_all
      (is_there (key_chan_nicks sea 7) ∷ [])
      (ask (key_chan_nicks sea 7) ∷ [])
      []
    ≡ ok (true, got (pair (key_chan_nicks sea 7) ∷ []) ∷ [])
do_txn-AnswersBehind_example =
    do_txn-AnswersBehind (hmac_encoder toy) (IsKeyEncoder-hmac toy IsCrypto-toy) end_of commit_all
      (is_there (key_chan_nicks sea 7) ∷ []) (is_there sea_encoded ∷ [])
      (ask (key_chan_nicks sea 7) ∷ []) (ask sea_encoded ∷ []) [] [] true
      (got (pair (key_chan_nicks sea 7) ∷ []) ∷ []) (got (pair sea_encoded ∷ []) ∷ []) cmps_encoded
      ops_encoded no_ops_encoded refl
      (more_answers (got (pair (key_chan_nicks sea 7) ∷ [])) (got (pair sea_encoded ∷ []))
        (got_behind
          (more_pairs (pair (key_chan_nicks sea 7)) (pair sea_encoded) pair-Behind no_pairs))
        no_answers)

sea-Lacks : Lacks slash sea
unfolding lit
sea-Lacks = (refl, (refl, (refl, (refl, tt))))

encode-nicks_prefix_example :
    encode (hmac_encoder toy) (key_chan_nicks sea 7)
    ≡ (encode (hmac_encoder toy) (key_chan_nicks_pfx sea) >>= λ p. ok (p ++ hex 7))
unfolding lit
encode-nicks_prefix_example = encode-nicks_prefix (hmac_encoder toy) sea 7 sea-Lacks refl
