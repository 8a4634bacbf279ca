-- ===== src/Keyencode/RoundTrip.antt =====
-- keyencode/encode.go: what the two encoders promise to key.go.
use native.Mathlib.Nat.{mod-lt, mod-eq_of_lt}
use Prim.Native.Nat.{◌%◌}
use etcdircd.Prelude.{
  ℕ, zero, suc, ◌+◌, ◌-◌, ◌≤◌, ◌<◌, ◌≡◌, refl, sym, ap, ◌∙◌, true, false, [], ◌∷◌, ◌++◌, some, Str,
  length, take, drop, ltb, replicate, take-append, drop-append, length-append, length-replicate,
  arith, ==-self, ◌==◌, str_eq, eq_of_==, Option-cases, Bool-cases, inl, inr,
}
use etcdircd.Result.{Result, Error, ok, err, panic, bad_pkcs7, bad_hmac}
use etcdircd.Key.RoundTrip.{IsKeyEncoder}
use etcdircd.Keyencode.{
  Crypto, nonce, padding, last_byte, front, hmac_encode, hmac_decode, nop_encoder, hmac_encoder,
}

-- The documented behaviour of the two packages: a hash has its size, which is at least a block of the
-- cipher, a block has from 1 to 255 bytes, and XORing the same key stream twice gives the text back.
pub record IsCrypto (c : Crypto) : Type 0 where
  pub mac_length : (s : Str) → length (c.mac s) ≡ c.mac_size
  pub block_pos : 0 < c.block_size
  pub block_small : c.block_size < 256
  pub block_fits : c.block_size ≤ c.mac_size
  pub stream_twice : (iv s : Str) → c.xor_stream iv (c.xor_stream iv s) ≡ s

last_byte-replicate : (s : Str) (n b : ℕ) → last_byte (s ++ replicate (suc n) b) ≡ some b
unfolding last_byte
last_byte-replicate [] zero b = refl
last_byte-replicate [] (suc n) b = last_byte-replicate [] n b
last_byte-replicate (x ∷ []) n b = last_byte-replicate [] n b
last_byte-replicate (x ∷ y ∷ s) n b = last_byte-replicate (y ∷ s) n b

pub IsKeyEncoder-nop : IsKeyEncoder nop_encoder
unfolding nop_encoder
IsKeyEncoder-nop = record { undo = λ s. refl }

padded_last : (s : Str) (n b : ℕ) → 0 < n → last_byte (s ++ replicate n b) ≡ some b
padded_last s (suc n) b h = last_byte-replicate s n b
padded_last s zero b h = absurd (omega (arith, h))

ltb_no : (a b : ℕ) → b ≤ a → ltb a b ≡ false
ltb_no a b h = ground arith

-- The steps of `Decode`, each with its outcome.
hmac_decode_steps :
    (c : Crypto) (e digest padded ptxt : Str) (n : ℕ)
    → front c.mac_size e ≡ some digest
    → c.xor_stream (nonce c digest) (drop c.mac_size e) ≡ padded
    → last_byte padded ≡ some n
    → ltb c.block_size n ≡ false
    → ltb (length padded) n ≡ false
    → take (length padded - n) padded ≡ ptxt
    → (c.mac ptxt == digest) ≡ true
    → hmac_decode c e ≡ ok ptxt
unfolding hmac_decode
hmac_decode_steps c e digest padded ptxt n hf hx hl hb hp ht hm = rw (hf, hx, hl, hb, hp, ht, hm)

module _ (c : Crypto) (law : IsCrypto c) (s : Str) where
  abbrev pad_length : ℕ
  pad_length = c.block_size - length s % c.block_size

  -- The padding is never empty and is no longer than a block.
  pad_bounds : (0 < pad_length) × (pad_length ≤ c.block_size)
  pad_bounds = let r = mod-lt (length s) law.block_pos in (omega (arith, r), omega (arith, r))

  pad_byte : pad_length % 256 ≡ pad_length
  pad_byte = mod-eq_of_lt (let b = pad_bounds in let t = law.block_small in omega (arith, b, t))

  abbrev padded : Str
  padded = s ++ padding c s

  abbrev stream : Str
  stream = c.xor_stream (nonce c (c.mac s)) padded

  front-encoded : front c.mac_size (c.mac s ++ stream) ≡ some (c.mac s)
  front-encoded =
      rw
        (ltb_no (length (c.mac s ++ stream)) c.mac_size (
          let l = law.mac_length s in
          let a = length-append (c.mac s) stream in omega (arith, l, a)))
        (ap some (
          ap (λ n. take n (c.mac s ++ stream)) (sym (law.mac_length s))
          ∙ take-append (c.mac s) stream))

  drop-encoded : drop c.mac_size (c.mac s ++ stream) ≡ stream
  drop-encoded =
      ap (λ n. drop n (c.mac s ++ stream)) (sym (law.mac_length s)) ∙ drop-append (c.mac s) stream

  length-padded : length padded ≡ length s + pad_length
  length-padded =
      length-append s (padding c s) ∙ ap (λ n. length s + n) (length-replicate pad_length _)

  unpadded : take (length padded - pad_length) padded ≡ s
  unpadded =
      ap (λ n. take n padded) (let l = length-padded in omega (arith, l))
      ∙ take-append s (padding c s)

  -- `Decode` gives back the text that `Encode` has been given.
  pub hmac_decode-encode : hmac_decode c (hmac_encode c s) ≡ ok s
  unfolding hmac_encode
  hmac_decode-encode =
      hmac_decode_steps c (hmac_encode c s) (c.mac s) padded s pad_length front-encoded
        (ap (c.xor_stream (nonce c (c.mac s))) drop-encoded ∙ law.stream_twice _ padded)
        (padded_last s pad_length _ pad_bounds.0 ∙ ap some pad_byte)
        (ltb_no c.block_size pad_length pad_bounds.1)
        (ltb_no (length padded) pad_length (let l = length-padded in omega (arith, l))) unpadded
        (==-self (c.mac s))

pub IsKeyEncoder-hmac : (c : Crypto) → IsCrypto c → IsKeyEncoder (hmac_encoder c)
unfolding hmac_encoder
IsKeyEncoder-hmac c law = record { undo = hmac_decode-encode c law }

module _ (c : Crypto) (e p : Str) where
  abbrev opened : Str → Str
  opened digest = c.xor_stream (nonce c digest) (drop c.mac_size e)

  ok_eq : {a b : Str} → Result.ok a ≡ ok b → a ≡ b
  ok_eq h = cc

  not_ok : {r : Result Str} → hmac_decode c e ≡ r → hmac_decode c e ≡ ok p → r ≡ ok p
  not_ok q h = sym q ∙ h

  panic_not_ok : panic ≡ Result.ok p → ⊥
  panic_not_ok h = cc

  err_not_ok : {x : Error} → err x ≡ Result.ok p → ⊥
  err_not_ok h = cc

  -- A text that `Decode` accepts stands behind its own hash: the first bytes of the input are the hash
  -- of the text that it returns.
  pub hmac_decode_authentic : hmac_decode c e ≡ ok p → front c.mac_size e ≡ some (c.mac p)
  unfolding hmac_decode
  hmac_decode_authentic h = elim (Option-cases (front c.mac_size e)) [
    | inl short ↦ let q : hmac_decode c e ≡ panic = rw short in absurd (panic_not_ok (not_ok q h))
    | inr (digest, hf) ↦ elim (Option-cases (last_byte (opened digest))) [
      | inl empty ↦
          let q : hmac_decode c e ≡ panic = rw (hf, empty) in absurd (panic_not_ok (not_ok q h))
      | inr (n, hl) ↦ elim (Bool-cases (ltb c.block_size n)) [
        | inl long ↦
            let q : hmac_decode c e ≡ err bad_pkcs7 = rw (hf, hl, long) in
            absurd (err_not_ok (not_ok q h))
        | inr pad ↦ elim (Bool-cases (ltb (length (opened digest)) n)) [
          | inl over ↦
              let q : hmac_decode c e ≡ panic = rw (hf, hl, pad, over) in
              absurd (panic_not_ok (not_ok q h))
          | inr fits ↦
              elim (Bool-cases
                (c.mac (take (length (opened digest) - n) (opened digest)) == digest)) [
                  | inl same ↦
                      let q : hmac_decode c e
                          ≡ ok (take (length (opened digest) - n) (opened digest)) =
                        rw (hf, hl, pad, fits, same) in
                      let text = ok_eq (not_ok q h) in
                      hf ∙ ap some (sym (eq_of_== _ _ same) ∙ ap c.mac text)
                  | inr forged ↦
                      let q : hmac_decode c e ≡ err bad_hmac = rw (hf, hl, pad, fits, forged) in
                      absurd (err_not_ok (not_ok q h))
                ]
        ]
      ]
    ]
  ]
