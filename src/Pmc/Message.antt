-- ===== src/Pmc/Message.antt =====
-- The layout of a management message, as it is sent and as it is read.
use ts2phc_go.Common.{
  ℕ, ◌+◌, ◌-◌, ◌*◌, ◌%◌, ◌≤◌, ◌<◌, ◌≡◌, refl, ◌∙◌, some, List, ◌∷◌, ◌++◌, length, get_or, drop,
  length-append, get_or-append, get_or-append_right, drop-append_right, take_all, append_nil, arith,
}
use ts2phc_go.Common.Word.{u16}
use ts2phc_go.Pmc.{
  Agent, put_be16, be16_at, send_request, data_of, tlv_data, check_response, recv_response,
  action_response,
}

-- Every request is as long as its header says, its TLV is as long as the TLV says, it carries the
-- action, the identifier and the payload, and it takes the next sequence number, if the payload
-- has at most 65481 bytes.
pub send_request-layout :
    (a : Agent) (mgt_id action : ℕ) (payload : List ℕ)
    → mgt_id < 65536
    → length payload ≤ 65481
    → let (a', bytes) = send_request a mgt_id action payload in
      (length bytes ≡ be16_at bytes 2)
      × (be16_at bytes 50 ≡ 2 + length (drop 54 bytes))
      × (be16_at bytes 52 ≡ mgt_id)
      × (get_or bytes 46 0 ≡ action)
      × (drop 54 bytes ≡ payload)
      × (a'.seq_id ≡ u16 (a.seq_id + 1))
unfolding send_request
send_request-layout a mgt_id action payload h l = ground arith

-- The bytes of a reply behind its header and target port.
abbrev pub reply_body : ℕ → ℕ → ℕ → ℕ → ℕ → List ℕ → List ℕ
reply_body hops boundary reserved kind mgt_id payload =
    hops
    ∷ boundary
    ∷ action_response
    ∷ reserved
    ∷ put_be16 kind (put_be16 (2 + length payload) (put_be16 mgt_id payload))

module _ (prefix : List ℕ) (long : length prefix ≡ 44) where
  reply_be16 :
      (ys : List ℕ) (n i : ℕ)
      → n ≡ 44 + i
      → i + 2 ≤ length ys
      → be16_at (prefix ++ ys) n ≡ 256 * get_or ys i 0 + get_or ys (i + 1) 0
  reply_be16 ys n i e h = ground (
    arith,
    length-append prefix ys,
    get_or-append_right prefix ys n i 0,
    get_or-append_right prefix ys (n + 1) (i + 1) 0,
    long,
  )

  tlv_data-reply :
      (hops boundary reserved kind mgt_id : ℕ) (payload : List ℕ)
      → length payload ≤ 970
      → tlv_data (prefix ++ reply_body hops boundary reserved kind mgt_id payload) ≡ payload
  unfolding tlv_data
  tlv_data-reply hops boundary reserved kind mgt_id payload h =
      let body = reply_body hops boundary reserved kind mgt_id payload in
      let len : be16_at (prefix ++ body) 50 ≡ 2 + length payload =
        reply_be16 body 50 6 refl (omega arith) ∙ omega arith in
      let rest : drop 54 (prefix ++ body) ≡ payload =
        drop-append_right prefix body 54 10 (omega (arith, long)) in
      let size : u16 (2 + length payload + 65534) ≡ length payload = omega arith in
      let none_left : length payload - length payload ≡ 0 = omega arith in
      rw
        (
          len,
          rest,
          size,
          none_left,
          take_all (length payload) payload (omega arith),
          append_nil payload,
        )
        refl

  -- A reply to the identifier that is expected, with at most 970 bytes of data behind a header of
  -- a management message, is read as its data, whatever else the header, the target port and the
  -- unused fields say.
  pub recv_response-reply :
      (hops boundary reserved kind mgt_id : ℕ) (payload : List ℕ)
      → get_or prefix 0 0 % 16 ≡ 0xD
      → mgt_id < 65536
      → length payload ≤ 970
      → recv_response mgt_id
          (some (prefix ++ reply_body hops boundary reserved kind mgt_id payload))
        ≡ data_of payload
  unfolding recv_response check_response
  recv_response-reply hops boundary reserved kind mgt_id payload m i h =
      let body = reply_body hops boundary reserved kind mgt_id payload in
      let size : length (prefix ++ body) ≡ 54 + length payload =
        omega (arith, length-append prefix body, long) in
      let id : be16_at (prefix ++ body) 52 ≡ mgt_id =
        reply_be16 body 52 8 refl (omega arith) ∙ omega arith in
      rw (take_all 1024 (prefix ++ body) (omega (arith, size))) (
        ground (
          arith,
          size,
          id,
          m,
          get_or-append prefix body 0 0,
          get_or-append_right prefix body 46 2 0,
          tlv_data-reply hops boundary reserved kind mgt_id payload h,
        ))
