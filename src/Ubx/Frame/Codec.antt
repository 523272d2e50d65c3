-- ===== src/Ubx/Frame/Codec.antt =====
-- `Encode` and `Decode` are inverse to one another.
use mathlib.Core.List.{append_assoc}
use ts2phc_go.Common.{
  ℕ, zero, suc, ap, ◌+◌, ◌*◌, ◌<◌, ◌≤◌, ◌≡◌, refl, arith, List, [], ◌∷◌, ◌++◌, length, get_or, take,
  drop, All, length-append, take-append, drop-append, length-take,
}
use ts2phc_go.Common.Word.{IsByte}
use ts2phc_go.Ubx.Frame.{Frame, ok, checksum, encode, decode, len_lo, len_hi}

pub length_bytes :
    (payload : List ℕ)
    → length payload < 65536
    → len_lo payload + 256 * len_hi payload ≡ length payload
length_bytes payload h = omega arith

pub length-encode :
    (class id : ℕ) (payload : List ℕ) → length (encode class id payload) ≡ length payload + 8
unfolding encode
length-encode class id payload = omega (
  arith,
  length-append payload ((checksum class id payload).0 ∷ (checksum class id payload).1 ∷ []),
)

-- Decoding an encoded frame gives the frame back, whatever bytes follow it, for every payload
-- that the 16-bit length field can describe.
pub decode-encode :
    (class id : ℕ) (payload rest : List ℕ)
    → length payload < 65536
    → decode (encode class id payload ++ rest)
      ≡ ok (record { class = class; id = id; payload = payload })
unfolding decode encode
decode-encode class id payload rest h =
    let ck = checksum class id payload in
    let tail = ck.0 ∷ ck.1 ∷ [] in
    ground (
      arith,
      append_assoc payload tail rest,
      take-append payload (tail ++ rest),
      drop-append payload (tail ++ rest),
      length-append payload (tail ++ rest),
      length_bytes payload h,
    )

-- The two bytes behind the first `n`, and what follows them.
split_checksum :
    (n : ℕ) (rest : List ℕ)
    → n + 2 ≤ length rest
    → rest
      ≡ take n rest ++ (get_or (drop n rest) 0 0 ∷ get_or (drop n rest) 1 0 ∷ drop (n + 2) rest)
split_checksum zero [] h = absurd (omega arith)
split_checksum zero (a ∷ []) h = absurd (omega arith)
split_checksum zero (a ∷ b ∷ rest) h = refl
split_checksum (suc n) [] h = absurd (omega arith)
split_checksum (suc n) (a ∷ rest) h =
    let e : suc n + 2 ≡ suc (n + 2) = omega arith in
    rw e (ap (λ l. a ∷ l) (split_checksum n rest (omega arith)))

drop_header :
    (n a b c d e f : ℕ) (rest : List ℕ)
    → drop (n + 8) (a ∷ b ∷ c ∷ d ∷ e ∷ f ∷ rest) ≡ drop (n + 2) rest
drop_header n a b c d e f rest =
    let k : n + 8 ≡ suc (suc (suc (suc (suc (suc (n + 2)))))) = omega arith in rw k

-- What `Decode` accepts of a list of bytes is exactly what `Encode` writes for its result, and what follows that.
pub decode_ok-encode :
    (raw : List ℕ) {f : Frame}
    → All IsByte raw
    → decode raw ≡ ok f
    → raw ≡ encode f.class f.id f.payload ++ drop (length f.payload + 8) raw
unfolding decode encode
decode_ok-encode [] h e = absurd (ground arith)
decode_ok-encode (a ∷ []) h e = absurd (ground arith)
decode_ok-encode (a ∷ b ∷ []) h e = absurd (ground arith)
decode_ok-encode (a ∷ b ∷ c ∷ []) h e = absurd (ground arith)
decode_ok-encode (a ∷ b ∷ c ∷ d ∷ []) h e = absurd (ground arith)
decode_ok-encode (a ∷ b ∷ c ∷ d ∷ lo ∷ []) h e = absurd (ground arith)
decode_ok-encode (a ∷ b ∷ c ∷ d ∷ lo ∷ hi ∷ rest) {f} h e =
    let n = lo + 256 * hi in
    ground (
      arith,
      drop_header n a b c d lo hi rest,
      split_checksum n rest,
      length-take n rest,
      append_assoc (take n rest) (get_or (drop n rest) 0 0 ∷ get_or (drop n rest) 1 0 ∷ [])
          (drop (n + 2) rest),
    )
