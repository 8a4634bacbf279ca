-- ===== src/Keyencode.antt =====
-- keyencode/encode.go: the encoders of keys.
pub mod Kv
pub mod RoundTrip
use Prim.Native.Nat.{◌%◌}
use etcdircd.Prelude.{
  ℕ, ◌-◌, Bool, not, List, [], ◌∷◌, ◌++◌, none, some, Str, length, take, drop, ltb, replicate, ◌==◌,
  str_eq, if◌then◌else◌, Option,
}
use etcdircd.Result.{Result, ok, err, bad_pkcs7, bad_hmac, must, ◌>>=◌}
use etcdircd.Key.{KeyEncoder}

-- `NewKeyEncoderNop`
unfoldable pub nop_encoder : KeyEncoder
nop_encoder = record { encode = λ s. s; decode = λ s. ok s }

-- What the encoder takes from `crypto/hmac` and `crypto/cipher`: a keyed hash of a fixed size, a block
-- size, and the key stream of a block cipher in counter mode, XORed into a text, for a nonce.
pub record Crypto : Type 0 where
  pub mac : Str → Str
  pub mac_size : ℕ
  pub block_size : ℕ
  pub xor_stream : Str → Str → Str

-- `ptxtHash[len(ptxtHash)-bs:]`
abbrev pub nonce : Crypto → Str → Str
nonce c digest = drop (length digest - c.block_size) digest

-- The bytes of PKCS #7; `byte(n)` keeps the low eight bits.
abbrev pub padding : Crypto → Str → Str
padding c s = let n = c.block_size - length s % c.block_size in replicate n (n % 256)

unfoldable pub hmac_encode : Crypto → Str → Str
hmac_encode c s = c.mac s ++ c.xor_stream (nonce c (c.mac s)) (s ++ padding c s)

-- `ptxt[len(ptxt)-1]`
unfoldable pub last_byte : Str → Option ℕ
last_byte [] = none
last_byte (c ∷ []) = some c
last_byte (c ∷ d ∷ s) = last_byte (d ∷ s)

-- `s[:n]`; `none` is the panic on a bound out of range.
abbrev pub front : ℕ → Str → Option Str
front n s = if ltb (length s) n then none else some (take n s)

unfoldable pub hmac_decode : Crypto → Str → Result Str
unfolding last_byte
hmac_decode c s = do
  digest ← must (front c.mac_size s)
  padlen ← must (last_byte (c.xor_stream (nonce c digest) (drop c.mac_size s)))
  let padded = c.xor_stream (nonce c digest) (drop c.mac_size s)
  if ltb c.block_size padlen then err bad_pkcs7 else do
    ptxt ←
        must
          (if ltb (length padded) padlen then none else some (take (length padded - padlen) padded))
    if not (c.mac ptxt == digest) then err bad_hmac else ok ptxt

unfoldable pub hmac_encoder : Crypto → KeyEncoder
unfolding hmac_encode hmac_decode
hmac_encoder c = record { encode = hmac_encode c; decode = hmac_decode c }
