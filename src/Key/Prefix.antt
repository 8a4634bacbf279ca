-- ===== src/Key/Prefix.antt =====
-- key.go: the range of a channel's member lists, behind an encoder of keys.
use etcdircd.Prelude.{
  ℕ, ◌≡◌, refl, sym, ap, ◌∙◌, some, [], ◌∷◌, ◌++◌, Str, lit, is_nil, append_assoc, false,
}
use etcdircd.Result.{ok, ◌>>=◌}
use etcdircd.Text.{hex, join}
use etcdircd.Text.Parts.{Lacks, split_whole}
use etcdircd.Text.Digits.{hex-Lacks_slash}
use etcdircd.Key.{
  slash, KeyEncoder, KeyParts, split_key, check_parts, encode, key_chan_nicks, key_chan_nicks_pfx,
}
use etcdircd.Key.RoundTrip.{four, split-four, encoded, encode_lem}

abbrev nicks_parts : Str → Str → KeyParts
nicks_parts ch x = record {
  root = [];
  kind = lit "chan";
  subkind = lit "nicks";
  content = ch;
  rest = x ∷ [];
}

abbrev nicks_text : Str → Str → Str
nicks_text ch x = four [] (lit "chan") (lit "nicks") (ch ++ slash ∷ x)

chan-Lacks : Lacks slash (lit "chan")
unfolding lit
chan-Lacks = (refl, (refl, (refl, (refl, tt))))

nicks-Lacks : Lacks slash (lit "nicks")
unfolding lit
nicks-Lacks = (refl, (refl, (refl, (refl, (refl, tt)))))

split_key-nicks :
    (ch x : Str)
    → Lacks slash ch
    → Lacks slash x
    → split_key (nicks_text ch x) ≡ some (nicks_parts ch x)
unfolding split_key check_parts lit
split_key-nicks ch x lc lx = rw (
  split-four [] (lit "chan") (lit "nicks") tt chan-Lacks nicks-Lacks ch x lc,
  split_whole slash x lx,
)

encoded-nicks :
    (ke : KeyEncoder) (ch x : Str)
    → encoded ke (nicks_parts ch x) ≡ encoded ke (nicks_parts ch []) ++ x
unfolding four join
encoded-nicks ke ch x = simp append_assoc

-- For a channel with a name without a slash, the encoded key of a member list is the encoded prefix of the
-- channel's lists with the number of the server after it: the range over the prefix finds the lists.
pub encode-nicks_prefix :
    (ke : KeyEncoder) (ch : Str) (id : ℕ)
    → Lacks slash ch
    → is_nil ch ≡ false
    → encode ke (key_chan_nicks ch id)
      ≡ (encode ke (key_chan_nicks_pfx ch) >>= λ p. ok (p ++ hex id))
unfolding key_chan_nicks key_chan_nicks_pfx four lit
encode-nicks_prefix ke ch id lc named =
    encode_lem ke (nicks_text ch (hex id)) (nicks_parts ch (hex id))
      (split_key-nicks ch (hex id) lc (hex-Lacks_slash id)) named
    ∙ ap ok (encoded-nicks ke ch (hex id))
    ∙ sym (
        ap (λ r. r >>= λ p. ok (p ++ hex id))
          (encode_lem ke (nicks_text ch []) (nicks_parts ch []) (split_key-nicks ch [] lc tt)
            named))
