-- ===== src/Ubx/Frame/Damage.antt =====
-- A damaged payload does not get past the checksum.
use ts2phc_go.Common.{
  ℕ, ap, sym, ◌∙◌, ◌+◌, ◌%◌, ◌/◌, ◌<◌, ◌≡◌, ◌≢◌, refl, arith, List, [], ◌∷◌, ◌++◌, length,
  length-append, take-append, drop-append,
}
use ts2phc_go.Common.Word.{u8, IsByte}
use ts2phc_go.Ubx.Frame.{
  err, bad_checksum, sync_a, sync_b, feed, feed_all, checksum, decode, len_lo, len_hi,
}

sum : List ℕ → ℕ
sum [] = 0
sum (v ∷ vs) = v + sum vs

-- The first checksum byte is the sum of what is fed.
feed_all-sum : (s : ℕ × ℕ) (vs : List ℕ) → u8 (feed_all s vs).0 ≡ u8 (s.0 + sum vs)
unfolding feed_all sum
feed_all-sum s [] = omega arith
feed_all-sum s (v ∷ vs) = omega (arith, feed_all-sum (feed s v) vs)

sum-append : (xs ys : List ℕ) → sum (xs ++ ys) ≡ sum xs + sum ys
unfolding sum
sum-append [] ys = omega arith
sum-append (x ∷ xs) ys = omega (arith, sum-append xs ys)

-- A frame that was encoded for `payload` and carries `seen` in its place.
abbrev pub carrying : ℕ → ℕ → List ℕ → List ℕ → List ℕ → List ℕ
carrying class id payload seen rest =
    let ck = checksum class id payload in
    sync_a ∷ sync_b ∷ class ∷ id ∷ len_lo payload ∷ len_hi payload ∷ seen ++ (ck.0 ∷ ck.1 ∷ rest)

decode-carrying :
    (class id : ℕ) (payload seen rest : List ℕ)
    → length payload < 65536
    → length seen ≡ length payload
    → (checksum class id seen).0 ≢ (checksum class id payload).0
    → decode (carrying class id payload seen rest) ≡ err bad_checksum
unfolding decode
decode-carrying class id payload seen rest h e d =
    let ck = checksum class id payload in
    let tail = ck.0 ∷ ck.1 ∷ rest in
    ground (arith, take-append seen tail, drop-append seen tail, length-append seen tail)

checksum-sum :
    (class id : ℕ) (payload : List ℕ)
    → u8 (checksum class id payload).0
      ≡ u8 (class + id + len_lo payload + len_hi payload + sum payload)
unfolding checksum
checksum-sum class id payload =
    let start = feed (feed (feed (feed (0, 0) class) id) (len_lo payload)) (len_hi payload) in
    omega (arith, feed_all-sum start payload)

-- One changed byte changes the sum.
residue_lem : (p x y : ℕ) → IsByte x → IsByte y → x ≢ y → u8 (p + y) ≢ u8 (p + x)
residue_lem p x y a b d e = omega arith

same_sum :
    (class id x : ℕ) (xs ys : List ℕ) (n : ℕ)
    → length (xs ++ x ∷ ys) ≡ n
    → u8 (checksum class id (xs ++ x ∷ ys)).0
      ≡ u8 (class + id + u8 (n % 65536) + u8 (n % 65536 / 256) + sum xs + sum ys + x)
unfolding sum
same_sum class id x xs ys n e =
    rw (checksum-sum class id (xs ++ x ∷ ys), sum-append xs (x ∷ ys), e) (ap u8 (omega arith))

checksum_differs :
    (class id x y : ℕ) (xs ys : List ℕ)
    → IsByte x
    → IsByte y
    → x ≢ y
    → (checksum class id (xs ++ y ∷ ys)).0 ≢ (checksum class id (xs ++ x ∷ ys)).0
checksum_differs class id x y xs ys a b d e =
    let n = length (xs ++ x ∷ ys) in
    let same : length (xs ++ y ∷ ys) ≡ n =
      omega (arith, length-append xs (x ∷ ys), length-append xs (y ∷ ys)) in
    residue_lem (class + id + u8 (n % 65536) + u8 (n % 65536 / 256) + sum xs + sum ys) x y a b d
      (sym (same_sum class id y xs ys n same) ∙ ap u8 e ∙ same_sum class id x xs ys n refl)

-- A frame in which one byte of the payload has changed on the way is refused with a checksum
-- error, whatever the change and whatever follows, for every payload that the 16-bit length field
-- can describe.
pub decode-one_byte :
    (class id x y : ℕ) (xs ys rest : List ℕ)
    → IsByte x
    → IsByte y
    → x ≢ y
    → length (xs ++ x ∷ ys) < 65536
    → decode (carrying class id (xs ++ x ∷ ys) (xs ++ y ∷ ys) rest) ≡ err bad_checksum
decode-one_byte class id x y xs ys rest a b d h =
    decode-carrying class id (xs ++ x ∷ ys) (xs ++ y ∷ ys) rest h
      (omega (arith, length-append xs (x ∷ ys), length-append xs (y ∷ ys)))
      (checksum_differs class id x y xs ys a b d)
