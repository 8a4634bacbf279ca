-- ===== src/Keyencode/Kv/Laws.antt =====
-- keyencode/kv.go: a client of the store behind the encoder of key.go sees its own keys.
use etcdircd.Prelude.{◌≡◌, refl, sym, ap, ◌∙◌, Bool, false, none, some, List, [], ◌∷◌, Str, is_nil}
use etcdircd.Result.{Result, ok, ◌>>=◌}
use etcdircd.Key.{KeyEncoder, KeyParts, split_key, encode, decode}
use etcdircd.Key.RoundTrip.{IsKeyEncoder, decode-encode}
use etcdircd.Keyencode.Kv.{
  Xfm, Op, KeyValue, Cmp, Response, got, done_put, done_delete, dec_kv, dec_kvs, dec_prev,
  dec_response, dec_known, dec_responses, enc_op, enc_ops, enc_cmps, do_op, do_txn,
}

-- The encoder that `MustCrypto` gives the store.
abbrev pub key_xfm : KeyEncoder → Xfm
key_xfm ke = record { enc = encode ke; dec = decode ke }

-- A key of the program, of a user, a channel or an operator with a name.
pub record IsStoreKey (s : Str) : Type 0 where
  pub parts : KeyParts
  pub split : split_key s ≡ some parts
  pub top : parts.root ≡ []
  pub named : is_nil parts.content ≡ false

module _ (ke : KeyEncoder) {B : Type 0} where
  -- A pair that the store behind holds for one that the program has put.
  pub record Behind (kv kv' : KeyValue B) : Type 0 where
    pub store_key : IsStoreKey kv.key
    pub key : encode ke kv.key ≡ ok kv'.key
    pub value : kv'.value ≡ kv.value

  pub data AllBehind : List (KeyValue B) → List (KeyValue B) → Type 0 where
    no_pairs : AllBehind [] []
    more_pairs :
        {kvs kvs' : List (KeyValue B)} (kv kv' : KeyValue B)
        → Behind kv kv'
        → AllBehind kvs kvs'
        → AllBehind (kv ∷ kvs) (kv' ∷ kvs')

  pub data AnswerBehind : Response B → Response B → Type 0 where
    got_behind :
        {kvs kvs' : List (KeyValue B)} → AllBehind kvs kvs' → AnswerBehind (got kvs) (got kvs')
    put_behind_none : AnswerBehind (done_put none) (done_put none)
    put_behind :
        (kv kv' : KeyValue B)
        → Behind kv kv'
        → AnswerBehind (done_put (some kv)) (done_put (some kv'))
    delete_behind :
        {kvs kvs' : List (KeyValue B)}
        → AllBehind kvs kvs'
        → AnswerBehind (done_delete kvs) (done_delete kvs')

  pub data AnswersBehind : List (Response B) → List (Response B) → Type 0 where
    no_answers : AnswersBehind [] []
    more_answers :
        {rs rs' : List (Response B)} (r r' : Response B)
        → AnswerBehind r r'
        → AnswersBehind rs rs'
        → AnswersBehind (r ∷ rs) (r' ∷ rs')

  module _ (law : IsKeyEncoder ke) where
    dec_kv-Behind : (kv kv' : KeyValue B) → Behind kv kv' → dec_kv (key_xfm ke) kv' ≡ ok kv
    unfolding dec_kv
    dec_kv-Behind kv kv' b =
        let seen : decode ke kv'.key ≡ ok kv.key =
          ap (λ r. r >>= decode ke) (sym b.key)
          ∙ decode-encode ke kv.key b.store_key.parts law b.store_key.split b.store_key.top
              b.store_key.named in
        rw seen (ap ok (λ i. record { key = kv.key; value = b.value i }))

    dec_kvs-AllBehind :
        (kvs kvs' : List (KeyValue B)) → AllBehind kvs kvs' → dec_kvs (key_xfm ke) kvs' ≡ ok kvs
    unfolding dec_kvs
    dec_kvs-AllBehind kvs kvs' no_pairs = refl
    dec_kvs-AllBehind kvs kvs' (more_pairs kv kv' b bs) =
        rw (dec_kv-Behind kv kv' b, dec_kvs-AllBehind _ _ bs)

    dec_response-AnswerBehind :
        (r r' : Response B) → AnswerBehind r r' → dec_response (key_xfm ke) r' ≡ ok r
    unfolding dec_response dec_prev
    dec_response-AnswerBehind r r' (got_behind bs) = rw (dec_kvs-AllBehind _ _ bs)
    dec_response-AnswerBehind r r' put_behind_none = refl
    dec_response-AnswerBehind r r' (put_behind kv kv' b) = rw (dec_kv-Behind kv kv' b)
    dec_response-AnswerBehind r r' (delete_behind bs) = rw (dec_kvs-AllBehind _ _ bs)

    dec_known-AnswerBehind :
        (r r' : Response B) → AnswerBehind r r' → dec_known (key_xfm ke) r' ≡ ok r
    unfolding dec_known
    dec_known-AnswerBehind r r' (got_behind bs) = dec_response-AnswerBehind _ _ (got_behind bs)
    dec_known-AnswerBehind r r' put_behind_none = dec_response-AnswerBehind _ _ put_behind_none
    dec_known-AnswerBehind r r' (put_behind kv kv' b) =
        dec_response-AnswerBehind _ _ (put_behind kv kv' b)
    dec_known-AnswerBehind r r' (delete_behind bs) =
        dec_response-AnswerBehind _ _ (delete_behind bs)

    dec_responses-AnswersBehind :
        (rs rs' : List (Response B)) → AnswersBehind rs rs' → dec_responses (key_xfm ke) rs' ≡ ok rs
    unfolding dec_responses
    dec_responses-AnswersBehind rs rs' no_answers = refl
    dec_responses-AnswersBehind rs rs' (more_answers r r' b bs) =
        rw (dec_known-AnswerBehind r r' b, dec_responses-AnswersBehind _ _ bs)

    -- If the store behind answers an operation with encoded keys by pairs whose keys are the encodings of
    -- keys of the program, the wrapped store answers it with these keys.
    pub do_op-AnswerBehind :
        {P : Type 0} (prefix_end : Str → Str) (inner : Op P → Result (Response B)) (op op' : Op P)
        (r r' : Response B)
        → enc_op (key_xfm ke) prefix_end op ≡ ok op'
        → inner op' ≡ ok r'
        → AnswerBehind r r'
        → do_op (key_xfm ke) prefix_end inner op ≡ ok r
    unfolding do_op
    do_op-AnswerBehind prefix_end inner op op' r r' sent answer b =
        rw (sent, answer) (dec_response-AnswerBehind r r' b)

    -- The same for a transaction: it succeeds as that of the store behind, and answers with these keys.
    pub do_txn-AnswersBehind :
        {C P : Type 0} (prefix_end : Str → Str)
        (commit : List (Cmp C) → List (Op P) → List (Op P) → Result (Bool × List (Response B)))
        (cs cs' : List (Cmp C)) (ts ts' es es' : List (Op P)) (succeeded : Bool)
        (rs rs' : List (Response B))
        → enc_cmps (key_xfm ke) cs ≡ ok cs'
        → enc_ops (key_xfm ke) prefix_end ts ≡ ok ts'
        → enc_ops (key_xfm ke) prefix_end es ≡ ok es'
        → commit cs' ts' es' ≡ ok (succeeded, rs')
        → AnswersBehind rs rs'
        → do_txn (key_xfm ke) prefix_end commit cs ts es ≡ ok (succeeded, rs)
    unfolding do_txn
    do_txn-AnswersBehind prefix_end commit cs cs' ts ts' es es' succeeded rs rs' hc ht he answer b =
        rw (hc, ht, he, answer, dec_responses-AnswersBehind rs rs' b)
