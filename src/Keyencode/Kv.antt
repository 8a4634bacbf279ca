-- ===== src/Keyencode/Kv.antt =====
-- keyencode/kv.go and keyencode/watch.go: a key-value store and a watcher behind an encoder of keys.
--
-- The store, the watcher and `GetPrefixRangeEnd` are etcd's: they are parameters.
pub mod Laws
use etcdircd.Prelude.{
  Bool, Option, none, some, List, [], ◌∷◌, Str, ◌==◌, str_eq, is_nil, if◌then◌else◌, map,
}
use etcdircd.Result.{Result, ok, err, panic, ◌>>=◌}

-- A `KeyEncoder` whose `Encode` may panic, as that of key.go.
pub record Xfm : Type 0 where
  pub enc : Str → Result Str
  pub dec : Str → Result Str

-- `etcd.Op`: its key and the end of its range, either of which may be `nil`, and what else it holds.
pub record Op (P : Type 0) : Type 0 where
  pub key : Option Str
  pub range_end : Option Str
  pub payload : P

pub record KeyValue (B : Type 0) : Type 0 where
  pub key : Str
  pub value : B

pub record Cmp (P : Type 0) : Type 0 where
  pub key : Str
  pub target : P

-- The response to one operation.
pub data Response (B : Type 0) : Type 0 where
  got : List (KeyValue B) → Response B
  done_put : Option (KeyValue B) → Response B
  done_delete : List (KeyValue B) → Response B
  other : Response B

-- `if err != nil { panic(err) }`
abbrev pub or_panic : {A : Type 0} → Result A → Result A
or_panic (ok a) = ok a
or_panic (err x) = panic
or_panic panic = panic

module _ (x : Xfm) {B : Type 0} where
  unfoldable pub dec_kv : KeyValue B → Result (KeyValue B)
  dec_kv kv = do k ← or_panic (x.dec kv.key); ok (record kv { key = k })

  -- `decGetResponse`, and `decDeleteResponse` on the previous values.
  unfoldable pub dec_kvs : List (KeyValue B) → Result (List (KeyValue B))
  unfolding dec_kv
  dec_kvs [] = ok []
  dec_kvs (kv ∷ kvs) = do kv' ← dec_kv kv; kvs' ← dec_kvs kvs; ok (kv' ∷ kvs')

  -- `decPutResponse`
  unfoldable pub dec_prev : Option (KeyValue B) → Result (Option (KeyValue B))
  unfolding dec_kv
  dec_prev none = ok none
  dec_prev (some kv) = do kv' ← dec_kv kv; ok (some kv')

  -- The `switch` of `Do` on its response.
  unfoldable pub dec_response : Response B → Result (Response B)
  unfolding dec_kvs dec_prev
  dec_response (got kvs) = do kvs' ← dec_kvs kvs; ok (got kvs')
  dec_response (done_put prev) = do prev' ← dec_prev prev; ok (done_put prev')
  dec_response (done_delete kvs) = do kvs' ← dec_kvs kvs; ok (done_delete kvs')
  dec_response other = ok other

  -- The `switch` of `decTxnResponse`, which knows no other response.
  unfoldable pub dec_known : Response B → Result (Response B)
  unfolding dec_response
  dec_known other = panic
  dec_known (got kvs) = dec_response (got kvs)
  dec_known (done_put prev) = dec_response (done_put prev)
  dec_known (done_delete kvs) = dec_response (done_delete kvs)

  -- `decTxnResponse`
  unfoldable pub dec_responses : List (Response B) → Result (List (Response B))
  unfolding dec_known
  dec_responses [] = ok []
  dec_responses (r ∷ rs) = do r' ← dec_known r; rs' ← dec_responses rs; ok (r' ∷ rs')

-- The `switch` of `encOp` on the end of a range.
abbrev pub enc_end : (Str → Str) → Str → Str → Str → Result Str
enc_end prefix_end key enc_key e =
    if e == prefix_end key then ok (prefix_end enc_key) else if e == 0 ∷ [] then ok e else panic

-- `If`
unfoldable pub enc_cmps : {C : Type 0} → Xfm → List (Cmp C) → Result (List (Cmp C))
enc_cmps x [] = ok []
enc_cmps x (c ∷ cs) = do k ← x.enc c.key; cs' ← enc_cmps x cs; ok (record c { key = k } ∷ cs')

module _ (x : Xfm) (prefix_end : Str → Str) {P : Type 0} where
  unfoldable pub enc_op : Op P → Result (Op P)
  enc_op op = elim op.key [
    | none ↦ ok op
    | some key ↦ (do
      enc_key ← x.enc key
      elim op.range_end [
        | none ↦ ok (record op { key = some enc_key })
        | some e ↦ (do
          e' ← enc_end prefix_end key enc_key e
          ok (record op { key = some enc_key; range_end = some e' }))
      ])
  ]

  unfoldable pub enc_ops : List (Op P) → Result (List (Op P))
  unfolding enc_op
  enc_ops [] = ok []
  enc_ops (op ∷ ops) = do op' ← enc_op op; ops' ← enc_ops ops; ok (op' ∷ ops')

  -- `Do`, and `Get`, `Put` and `Delete`, which are `Do` on their operations. `inner` is the `Do` of the
  -- store behind.
  unfoldable pub do_op : {B : Type 0} → (Op P → Result (Response B)) → Op P → Result (Response B)
  unfolding enc_op dec_response
  do_op inner op = do op' ← enc_op op; r ← inner op'; dec_response x r

  -- `Txn(…).If(…).Then(…).Else(…).Commit()`: whether it succeeded, and the responses.
  unfoldable pub do_txn :
      {C B : Type 0}
      → (List (Cmp C) → List (Op P) → List (Op P) → Result (Bool × List (Response B)))
      → List (Cmp C)
      → List (Op P)
      → List (Op P)
      → Result (Bool × List (Response B))
  unfolding enc_cmps enc_ops dec_responses
  do_txn commit cs ts es = do
    cs' ← enc_cmps x cs
    ts' ← enc_ops ts
    es' ← enc_ops es
    r ← commit cs' ts' es'
    rs ← dec_responses x r.1
    ok (r.0, rs)

-- The keys of a watch event: that of the pair, and that of the pair before it, which may be `nil`.
pub record WatchEvent (B : Type 0) : Type 0 where
  pub pair : KeyValue B
  pub previous : Option (KeyValue B)

module _ (x : Xfm) {B : Type 0} where
  -- An empty key is left as it is.
  unfoldable pub dec_pair : KeyValue B → Result (KeyValue B)
  unfolding dec_kv
  dec_pair kv = if is_nil kv.key then ok kv else dec_kv x kv

  abbrev pub dec_previous : Option (KeyValue B) → Result (Option (KeyValue B))
  dec_previous none = ok none
  dec_previous (some kv) = do kv' ← dec_pair kv; ok (some kv')

  -- The events of a response of the watch, as `Watch` passes them on.
  unfoldable pub dec_events : List (WatchEvent B) → Result (List (WatchEvent B))
  unfolding dec_pair
  dec_events [] = ok []
  dec_events (ev ∷ evs) = do
    p ← dec_pair ev.pair
    q ← dec_previous ev.previous
    evs' ← dec_events evs
    ok (record { pair = p; previous = q } ∷ evs')
