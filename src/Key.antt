-- ===== src/Key.antt =====
-- key.go: the names of the etcd keys, and the encoding of their sensitive parts.
pub mod Names
pub mod Prefix
pub mod RoundTrip
use etcdircd.Prelude.{
  ℕ, ◌+◌, Bool, true, false, ◌&&◌, ◌||◌, List, [], ◌∷◌, ◌++◌, Option, none, some, Str, lit, str_beq,
  ◌==◌, nat_eq, str_eq, is_nil, length, take, drop, leb, if◌then◌else◌,
}
use etcdircd.Result.{Result, ok, must, ◌>>=◌}
use etcdircd.Text.{split, join, hex, decimal, sscanf_d}

abbrev pub slash : ℕ
slash = b'/'

unfoldable pub key_user_ctl : Str → Str
unfolding lit
key_user_ctl n = lit "/user/ctl/" ++ n

unfoldable pub key_user_msg : Str → Str
unfolding lit
key_user_msg n = lit "/user/msg/" ++ n

unfoldable pub key_chan_ctl : Str → Str
unfolding lit
key_chan_ctl ch = lit "/chan/ctl/" ++ ch

unfoldable pub key_chan_msg : Str → Str
unfolding lit
key_chan_msg ch = lit "/chan/msg/" ++ ch

unfoldable pub key_chan_nicks_pfx : Str → Str
unfolding lit
key_chan_nicks_pfx ch = lit "/chan/nicks/" ++ (ch ++ lit "/")

unfoldable pub key_chan_nicks : Str → ℕ → Str
unfolding lit
key_chan_nicks ch id = lit "/chan/nicks/" ++ (ch ++ (lit "/" ++ hex id))

unfoldable pub key_oper_ctl : Str → Str
unfolding lit
key_oper_ctl n = lit "/oper/ctl/" ++ n

unfoldable pub is_chan : Str → Bool
is_chan [] = false
is_chan (c ∷ s) = c == b'#'

-- `keyencode.KeyEncoder`.
pub record KeyEncoder : Type 0 where
  pub encode : Str → Str
  pub decode : Str → Result Str

-- The switch of `splitKey`; `none` is its panic.
unfoldable pub known_kind : Str → Str → Bool
unfolding lit str_beq
known_kind t u =
    if t == lit "user"
    then u == lit "msg" || u == lit "ctl"
    else if t == lit "chan"
    then u == lit "msg" || u == lit "ctl" || u == lit "nicks"
    else t == lit "oper"

-- The parts of a key: `ss[0]`, the type, the subtype, the data, and the rest.
pub record KeyParts : Type 0 where
  pub root : Str
  pub kind : Str
  pub subkind : Str
  pub content : Str
  pub rest : List Str

abbrev pub parts : KeyParts → List Str
parts k = k.root ∷ k.kind ∷ k.subkind ∷ k.content ∷ k.rest

-- `strings.Join(ss[:keyIdxData+1], "/")`.
abbrev pub head_path : KeyParts → Str
head_path k = join slash (k.root ∷ k.kind ∷ k.subkind ∷ k.content ∷ [])

check_parts : List Str → Option KeyParts
unfolding known_kind
check_parts (a ∷ t ∷ u ∷ d ∷ rest) =
    if known_kind t u
    then some (record { root = a; kind = t; subkind = u; content = d; rest = rest })
    else none
check_parts _ = none

unfoldable pub split_key : Str → Option KeyParts
unfolding check_parts
split_key s = check_parts (split slash s)

-- `fmt.Sprintf("%d/%s", len(sse), sse)`.
abbrev pub sized : Str → Str
sized sse = decimal (length sse) ++ slash ∷ sse

unfoldable pub encode : KeyEncoder → Str → Result Str
unfolding split_key
encode ke s = do
  k ← must (split_key s)
  if is_nil k.content
      then ok s
      else ok (join slash (parts (record k { content = sized (ke.encode (head_path k)) })))

-- `s[i:j]`; `none` is the panic on bounds out of range.
abbrev pub slice : Str → ℕ → ℕ → Option Str
slice s i j = if leb i j && leb j (length s) then some (drop i (take j s)) else none

-- `ss[keyIdxData]`.
abbrev pub nth_part : List Str → Option Str
nth_part (a ∷ t ∷ u ∷ d ∷ rest) = some d
nth_part _ = none

unfoldable pub decode : KeyEncoder → Str → Result Str
unfolding split_key
decode ke s = do
  k ← must (split_key s)
  enclen ← must (sscanf_d k.content)
  let pfxlen = length (head_path k)
  sse ← must (slice s (pfxlen + 1) (pfxlen + enclen + 1))
  whole ← ke.decode sse
  dec ← must (nth_part (split slash whole))
  ok (slash ∷ (k.kind ++ slash ∷ (k.subkind ++ slash ∷ (dec ++ drop (pfxlen + enclen + 1) s))))
