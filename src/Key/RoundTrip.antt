-- ===== src/Key/RoundTrip.antt =====
-- key.go: `Decode` undoes `Encode`.
use etcdircd.Prelude.{
  ℕ, ◌+◌, ◌≡◌, refl, sym, ap, ◌∙◌, true, false, List, [], ◌∷◌, ◌++◌, some, Str, is_nil, length,
  take, drop, length-append, take-append, drop-append, append-nil, append_assoc, arith,
}
use mathlib.Core.Path.{subst}
use etcdircd.Result.{ok, ◌>>=◌}
use etcdircd.Text.{split, join, decimal, sscanf_d}
use etcdircd.Text.Parts.{Lacks, AllLack, split-cons, split-join, split-AllLack, join-split}
use etcdircd.Text.Digits.{decimal-Lacks_slash, sscanf_d-decimal}
use etcdircd.Key.{
  KeyEncoder, KeyParts, slash, parts, head_path, known_kind, check_parts, split_key, sized, encode,
  slice, nth_part, decode,
}

-- What the underlying encoder promises: decoding undoes encoding.
pub record IsKeyEncoder (ke : KeyEncoder) : Type 0 where
  pub undo : (s : Str) → ke.decode (ke.encode s) ≡ ok s

check_parts_lem :
    (ss : List Str) (k : KeyParts)
    → check_parts ss ≡ some k
    → (parts k ≡ ss) × (known_kind k.kind k.subkind ≡ true)
unfolding check_parts
check_parts_lem (a ∷ t ∷ u ∷ d ∷ rest) k h = ground arith
check_parts_lem [] k h = cc
check_parts_lem (a ∷ []) k h = cc
check_parts_lem (a ∷ t ∷ []) k h = cc
check_parts_lem (a ∷ t ∷ u ∷ []) k h = cc

-- What stands behind a part that `join` has put before `rest`.
abbrev pub tail_of : List Str → Str
tail_of [] = []
tail_of (p ∷ ps) = slash ∷ join slash (p ∷ ps)

join-tail_of : (p : Str) (rest : List Str) → join slash (p ∷ rest) ≡ p ++ tail_of rest
unfolding join
join-tail_of p [] = sym (append-nil p)
join-tail_of p (q ∷ rest) = refl

unfoldable pub four : Str → Str → Str → Str → Str
four a t u x = a ++ slash ∷ (t ++ slash ∷ (u ++ slash ∷ x))

join-four :
    (a t u d : Str) (rest : List Str)
    → join slash (a ∷ t ∷ u ∷ d ∷ rest) ≡ four a t u (d ++ tail_of rest)
unfolding join four
join-four a t u d [] = rw append-nil
join-four a t u d (r ∷ rest) = refl

append-cons : (n x r : Str) → (n ++ slash ∷ x) ++ r ≡ n ++ slash ∷ (x ++ r)
append-cons n x r = append_assoc n (slash ∷ x) r

pub four-append : (a t u x y : Str) → four a t u (x ++ y) ≡ four a t u x ++ y
unfolding four
four-append a t u x y = simp append_assoc

module _ (a t u : Str) (la : Lacks slash a) (lt : Lacks slash t) (lu : Lacks slash u) where
  pub split-four :
      (n x : Str)
      → Lacks slash n
      → split slash (four a t u (n ++ slash ∷ x)) ≡ a ∷ t ∷ u ∷ n ∷ split slash x
  unfolding four
  split-four n x ln =
      rw (split-cons slash a _ la, split-cons slash t _ lt, split-cons slash u _ lu)
        (rw (split-cons slash n x ln))

take_through : (p m r : Str) → take (length p + length m) (p ++ (m ++ r)) ≡ p ++ m
take_through p m r =
    ap (λ (n : ℕ). take n (p ++ (m ++ r))) (sym (length-append p m))
    ∙ ap (take (length (p ++ m))) (sym (append_assoc p m r))
    ∙ take-append (p ++ m) r

drop_through : (p m r : Str) → drop (length p + length m) (p ++ (m ++ r)) ≡ r
drop_through p m r =
    ap (λ (n : ℕ). drop n (p ++ (m ++ r))) (sym (length-append p m))
    ∙ ap (drop (length (p ++ m))) (sym (append_assoc p m r))
    ∙ drop-append (p ++ m) r

slice_middle : (p m r : Str) → slice (p ++ (m ++ r)) (length p) (length p + length m) ≡ some m
slice_middle p m r =
    let e : length (p ++ (m ++ r)) ≡ length p + (length m + length r) =
      length-append p (m ++ r) ∙ ap (λ k. length p + k) (length-append m r) in
    rw (take_through p m r, drop-append p m) (ground arith)

slice_at :
    (e p m r : Str) (i j : ℕ)
    → e ≡ p ++ (m ++ r)
    → i ≡ length p
    → j ≡ length p + length m
    → slice e i j ≡ some m
slice_at e p m r i j he hi hj = rw (he, hi, hj) (slice_middle p m r)

drop_at : (e p m r : Str) (j : ℕ) → e ≡ p ++ (m ++ r) → j ≡ length p + length m → drop j e ≡ r
drop_at e p m r j he hj = rw (he, hj) (drop_through p m r)

-- The key that `Encode` makes of the parts of a key.
abbrev pub encoded : KeyEncoder → KeyParts → Str
encoded ke k =
    let sse = ke.encode (head_path k) in
    four k.root k.kind k.subkind (decimal (length sse) ++ slash ∷ (sse ++ tail_of k.rest))

pub encode_lem :
    (ke : KeyEncoder) (s : Str) (k : KeyParts)
    → split_key s ≡ some k
    → is_nil k.content ≡ false
    → encode ke s ≡ ok (encoded ke k)
unfolding encode
encode_lem ke s k h ne =
    let sse = ke.encode (head_path k) in
    rw (h, ne)
      (rw (join-four k.root k.kind k.subkind (sized sse) k.rest)
        (rw (append-cons (decimal (length sse)) sse (tail_of k.rest))))

decode_lem :
    (ke : KeyEncoder) (e : Str) (k : KeyParts) (n : ℕ) (sse w d : Str)
    → split_key e ≡ some k
    → sscanf_d k.content ≡ some n
    → slice e (length (head_path k) + 1) (length (head_path k) + n + 1) ≡ some sse
    → ke.decode sse ≡ ok w
    → nth_part (split slash w) ≡ some d
    → decode ke e
      ≡ ok (
          slash
          ∷ (k.kind ++ slash ∷ (k.subkind ++ slash ∷ (d ++ drop (length (head_path k) + n + 1) e))))
unfolding decode
decode_lem ke e k n sse w d hk hn hs hw hd = rw (hk, hn, hs, hw, hd)

-- The facts about the parts of a key that has been split.
module _ (s : Str) (k : KeyParts) (h : split_key s ≡ some k) where
  parts-split : parts k ≡ split slash s
  unfolding split_key
  parts-split = (check_parts_lem (split slash s) k h).0

  known_parts : known_kind k.kind k.subkind ≡ true
  unfolding split_key
  known_parts = (check_parts_lem (split slash s) k h).1

  Lacks_parts : AllLack slash (parts k)
  Lacks_parts = subst (AllLack slash) (sym parts-split) (split-AllLack slash s)

  join-parts : join slash (parts k) ≡ s
  join-parts = ap (join slash) parts-split ∙ join-split slash s

module _ (ke : KeyEncoder) (s : Str) (k : KeyParts) (h : split_key s ≡ some k) where
  abbrev length_part : Str
  length_part = decimal (length (ke.encode (head_path k)))

  abbrev encoded_parts : KeyParts
  encoded_parts = record k {
    content = length_part;
    rest = split slash (ke.encode (head_path k) ++ tail_of k.rest);
  }

  split_key-encoded : split_key (encoded ke k) ≡ some encoded_parts
  unfolding split_key check_parts
  split_key-encoded =
      let lacks = Lacks_parts s k h in
      let apart =
        split-four k.root k.kind k.subkind lacks.0 lacks.1.0 lacks.1.1.0 length_part
          (ke.encode (head_path k) ++ tail_of k.rest)
          (decimal-Lacks_slash (length (ke.encode (head_path k)))) in
      rw apart (rw (known_parts s k h))

  -- The path in front of the encoded segment, with its slash.
  abbrev front : Str
  front = head_path encoded_parts ++ slash ∷ []

  encoded-front : encoded ke k ≡ front ++ (ke.encode (head_path k) ++ tail_of k.rest)
  unfolding four join
  encoded-front = simp append_assoc

  length-front : length front ≡ length (head_path encoded_parts) + 1
  length-front = length-append (head_path encoded_parts) (slash ∷ [])

  slice-encoded :
      slice
        (encoded ke k)
        (length (head_path encoded_parts) + 1)
        (length (head_path encoded_parts) + length (ke.encode (head_path k)) + 1)
      ≡ some (ke.encode (head_path k))
  slice-encoded =
      slice_at (encoded ke k) front (ke.encode (head_path k)) (tail_of k.rest) _ _ encoded-front
        (sym length-front) (omega (arith, length-front))

  drop-encoded :
      drop (length (head_path encoded_parts) + length (ke.encode (head_path k)) + 1) (encoded ke k)
      ≡ tail_of k.rest
  drop-encoded =
      drop_at (encoded ke k) front (ke.encode (head_path k)) (tail_of k.rest) _ encoded-front
        (omega (arith, length-front))

  nth_part-head_path : nth_part (split slash (head_path k)) ≡ some k.content
  nth_part-head_path =
      let lacks = Lacks_parts s k h in
      ap nth_part (
        split-join slash k.root (k.kind ∷ k.subkind ∷ k.content ∷ [])
          (lacks.0, (lacks.1.0, (lacks.1.1.0, (lacks.1.1.1.0, tt)))))

  decode-encoded : IsKeyEncoder ke → k.root ≡ [] → decode ke (encoded ke k) ≡ ok s
  unfolding four
  decode-encoded law top =
      decode_lem ke (encoded ke k) encoded_parts (length (ke.encode (head_path k)))
        (ke.encode (head_path k)) (head_path k) k.content split_key-encoded (sscanf_d-decimal _)
        slice-encoded (law.undo (head_path k)) nth_part-head_path
      ∙ rw drop-encoded (ap ok restored)
    where
      restored :
          slash ∷ (k.kind ++ slash ∷ (k.subkind ++ slash ∷ (k.content ++ tail_of k.rest))) ≡ s
      restored =
          sym (ap (λ r. four r k.kind k.subkind (k.content ++ tail_of k.rest)) top)
          ∙ sym (join-four k.root k.kind k.subkind k.content k.rest)
          ∙ join-parts s k h

-- Every key that begins with a slash, that `splitKey` accepts and whose data part is not empty comes
-- back from `Decode` after `Encode`, if the underlying encoder undoes itself. Its encoding may hold
-- any bytes, slashes too.
pub decode-encode :
    (ke : KeyEncoder) (s : Str) (k : KeyParts)
    → IsKeyEncoder ke
    → split_key s ≡ some k
    → k.root ≡ []
    → is_nil k.content ≡ false
    → (encode ke s >>= decode ke) ≡ ok s
decode-encode ke s k law h top ne = rw (encode_lem ke s k h ne) (decode-encoded ke s k h law top)
