-- ===== src/Examples/Crypto.antt =====
-- keyencode/encode.go at a small hash and a small stream, and key.go with the encoder they make.
use Prim.Native.Nat.{◌%◌}
use etcdircd.Prelude.{ℕ, zero, suc, ◌≡◌, refl, ap, some, [], ◌∷◌, Str, lit, length, arith, ◌+◌}
use etcdircd.Result.{ok, ◌>>=◌}
use etcdircd.Text.{split, hex}
use etcdircd.Key.{KeyParts, encode, decode, split_key, key_chan_nicks}
use etcdircd.Key.RoundTrip.{decode-encode}
use etcdircd.Keyencode.{Crypto, front, hmac_encode, hmac_decode, hmac_encoder}
use etcdircd.Keyencode.RoundTrip.{
  IsCrypto, hmac_decode-encode, hmac_decode_authentic, IsKeyEncoder-hmac,
}
use etcdircd.Sample.{sea}

-- Flips the lowest bit.
flip : ℕ → ℕ
flip zero = 1
flip (suc zero) = 0
flip (suc (suc n)) = suc (suc (flip n))

flip-flip : (n : ℕ) → flip (flip n) ≡ n
unfolding flip
flip-flip zero = refl
flip-flip (suc zero) = refl
flip-flip (suc (suc n)) = ap (λ k. suc (suc k)) (flip-flip n)

pub flip_all : Str → Str
unfolding flip
flip_all [] = []
flip_all (c ∷ s) = flip c ∷ flip_all s

flip_all-flip_all : (s : Str) → flip_all (flip_all s) ≡ s
unfolding flip_all
flip_all-flip_all [] = refl
flip_all-flip_all (c ∷ s) = rw (flip-flip c, flip_all-flip_all s)

pub sum : Str → ℕ
sum [] = 0
sum (c ∷ s) = c + sum s

abbrev pub toy : Crypto
toy = record {
  mac = λ s. sum s % 256 ∷ length s % 256 ∷ [];
  mac_size = 2;
  block_size = 2;
  xor_stream = λ iv s. flip_all s;
}

pub IsCrypto-toy : IsCrypto toy
IsCrypto-toy = record {
  mac_length = λ s. refl;
  block_pos = omega arith;
  block_small = omega arith;
  block_fits = omega arith;
  stream_twice = λ iv s. flip_all-flip_all s;
}

hmac_decode-encode_example :
    hmac_decode toy (hmac_encode toy (lit "/user/ctl/ann")) ≡ ok (lit "/user/ctl/ann")
hmac_decode-encode_example = hmac_decode-encode toy IsCrypto-toy (lit "/user/ctl/ann")

abbrev pub sea_parts : KeyParts
sea_parts = record {
  root = [];
  kind = lit "chan";
  subkind = lit "nicks";
  content = sea;
  rest = lit "7" ∷ [];
}

pub split_key-sea : split_key (key_chan_nicks sea 7) ≡ some sea_parts
unfolding split_key split key_chan_nicks hex
split_key-sea = refl

decode-encode_example :
    (encode (hmac_encoder toy) (key_chan_nicks sea 7) >>= decode (hmac_encoder toy))
    ≡ ok (key_chan_nicks sea 7)
unfolding lit
decode-encode_example =
    decode-encode (hmac_encoder toy) (key_chan_nicks sea 7) sea_parts
      (IsKeyEncoder-hmac toy IsCrypto-toy) split_key-sea refl refl

hmac_decode_authentic_example :
    front 2 (hmac_encode toy (lit "/user/ctl/ann")) ≡ some (toy.mac (lit "/user/ctl/ann"))
hmac_decode_authentic_example =
    hmac_decode_authentic toy (hmac_encode toy (lit "/user/ctl/ann")) (lit "/user/ctl/ann")
      (hmac_decode-encode toy IsCrypto-toy (lit "/user/ctl/ann"))
