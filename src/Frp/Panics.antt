-- ===== src/Frp/Panics.antt =====
-- Where the decoder of the FRP codec panics.
use vlink.Prelude.{
  ℕ, ◌≤◌, true, false, List, length, take, drop, Option, none, some, ltb, if◌then◌else◌, ◌≡◌, ◌≢◌,
  ◌↔◌, refl, sym, ap, ◌∙◌, none-some, some_inj, Bool-cases, inl, inr, arith,
}
use vlink.Outcome.{Outcome, ok, err, panic}
use vlink.Frp.{
  Error, msg_len_too_long, MsgHeader, Crates, FrpCodec, FrpResponse, Stage, login, wait_iv, work,
  decrypted, decode_message, decode_iv, decode_body, decode_header, decode, max_msg_len,
  msg_header_decode, type_login_resp, type_req_work_conn, type_new_proxy_resp, type_start_work_conn,
}

-- A type that the client does not take.
abbrev pub IsUnknown : ℕ → Type 0
IsUnknown t =
    (t ≢ type_login_resp)
    × (t ≢ type_req_work_conn)
    × (t ≢ type_new_proxy_resp)
    × (t ≢ type_start_work_conn)

module _ (c : Crates) where
  -- The header that a call goes by, and the bytes behind it: the header that was kept, or the first nine bytes,
  -- opened where there is a cipher.
  abbrev pub opened_by : Option c.Coder → List ℕ → List ℕ
  opened_by none bytes = bytes
  opened_by (some coder) bytes = (c.decrypt_buf coder bytes).1

  abbrev pub header_of : Option MsgHeader → Option c.Coder → List ℕ → Option (MsgHeader × List ℕ)
  header_of (some header) coder src = some (header, src)
  header_of none coder src =
      if ltb (length src) 9
      then none
      else some (msg_header_decode (opened_by coder (take 9 src)), drop 9 src)

  -- A whole message of an unknown type.
  abbrev pub IsRefused : MsgHeader → List ℕ → Type 0
  IsRefused header src =
      (header.len ≤ max_msg_len) × (header.len ≤ length src) × IsUnknown header.msg_type

  decode_message-panic_iff :
      (codec : FrpCodec c) (t : ℕ) (plain : List ℕ)
      → ((decode_message c codec t plain).1 ≡ panic) ↔ IsUnknown t
  unfolding decode_message
  decode_message-panic_iff codec t plain = ground arith

  err-ne-panic :
      {B : Type 0} (e : Error) → ◌≡◌ {A = Outcome Error (Option (FrpResponse c))} (err e) panic → B
  err-ne-panic e h = cc

  ok-ne-panic :
      {B : Type 0} (o : Option (FrpResponse c))
      → ◌≡◌ {A = Outcome Error (Option (FrpResponse c))} (ok o) panic
      → B
  ok-ne-panic o h = cc

  decode_body-long :
      (codec : FrpCodec c) (src : List ℕ) (header : MsgHeader)
      → ltb max_msg_len header.len ≡ true
      → (decode_body c codec src header).2 ≡ err msg_len_too_long
  unfolding decode_body
  decode_body-long codec src header long = rw (long) refl

  decode_body-short :
      (codec : FrpCodec c) (src : List ℕ) (header : MsgHeader)
      → ltb max_msg_len header.len ≡ false
      → ltb (length src) header.len ≡ true
      → (decode_body c codec src header).2 ≡ ok none
  unfolding decode_body
  decode_body-short codec src header fits short = rw (fits, short) refl

  decode_body-whole :
      (codec : FrpCodec c) (src : List ℕ) (header : MsgHeader)
      → ltb max_msg_len header.len ≡ false
      → ltb (length src) header.len ≡ false
      → (decode_body c codec src header).2
        ≡ (decode_message c
            (decrypted c (record codec { header = none }) (take header.len src)).0
            header.msg_type
            (decrypted c (record codec { header = none }) (take header.len src)).1).1
  unfolding decode_body
  decode_body-whole codec src header fits full = rw (fits, full) refl

  decode_body-panics :
      (codec : FrpCodec c) (src : List ℕ) (header : MsgHeader)
      → (decode_body c codec src header).2 ≡ panic
      → IsRefused header src
  decode_body-panics codec src header h = elim (Bool-cases (ltb max_msg_len header.len)) [
    | inl long ↦ err-ne-panic msg_len_too_long (sym (decode_body-long codec src header long) ∙ h)
    | inr fits ↦ elim (Bool-cases (ltb (length src) header.len)) [
      | inl short ↦ ok-ne-panic none (sym (decode_body-short codec src header fits short) ∙ h)
      | inr full ↦ (
        ground (arith, fits),
        ground (arith, full),
        (decode_message-panic_iff _ header.msg_type _).0
            (sym (decode_body-whole codec src header fits full) ∙ h),
      )
    ]
  ]

  decode_body-refuses :
      (codec : FrpCodec c) (src : List ℕ) (header : MsgHeader)
      → IsRefused header src
      → (decode_body c codec src header).2 ≡ panic
  decode_body-refuses codec src header (fits, full, unknown) =
      decode_body-whole codec src header (ground (arith, fits)) (ground (arith, full))
      ∙ (decode_message-panic_iff _ header.msg_type _).1 unknown

  -- What a call goes by leads to a whole message of an unknown type.
  abbrev pub Refuses : Option (MsgHeader × List ℕ) → Type 0
  Refuses o =
      (header : MsgHeader) × (left : List ℕ) × (o ≡ some (header, left)) × IsRefused header left

  Refuses-body :
      (o : Option (MsgHeader × List ℕ)) (m : Outcome Error (Option (FrpResponse c)))
      (codec : FrpCodec c) (left : List ℕ) (header : MsgHeader)
      → o ≡ some (header, left)
      → m ≡ (decode_body c codec left header).2
      → (m ≡ panic) ↔ Refuses o
  Refuses-body o m codec left header there e = (
    λ h. (header, left, there, decode_body-panics codec left header (sym e ∙ h)),
    λ r.
        let same = some_inj (sym there ∙ r.2) in
        e ∙ decode_body-refuses codec left header (rw (ap (λ x. x.0) same, ap (λ x. x.1) same) r.3),
  )

  Refuses-waiting :
      (o : Option (MsgHeader × List ℕ)) (m : Outcome Error (Option (FrpResponse c)))
      → o ≡ none
      → m ≡ ok none
      → (m ≡ panic) ↔ Refuses o
  Refuses-waiting o m away e =
      (λ h. ok-ne-panic none (sym e ∙ h), λ r. absurd (none-some (sym away ∙ r.2)))

  decode_header-panic_iff :
      (token : List ℕ) (stage : Stage) (coder : Option c.Coder) (h : Option MsgHeader)
      (src : List ℕ)
      → ((decode_header c
            (record { token = token; header = h; frp_coder = coder; stage = stage })
            src).2
          ≡ panic)
        ↔ Refuses (header_of h coder src)
  unfolding decode_header decrypted
  decode_header-panic_iff token stage coder (some h) src =
      Refuses-body _ _ (record { token = token; header = some h; frp_coder = coder; stage = stage })
        src h refl refl
  decode_header-panic_iff token stage none none src = elim (Bool-cases (ltb (length src) 9)) [
    | inl short ↦ Refuses-waiting _ _ (rw (short) refl) (rw (short) refl)
    | inr full ↦
        Refuses-body _ _ (record { token = token; header = none; frp_coder = none; stage = stage })
          (drop 9 src) (msg_header_decode (take 9 src)) (rw (full) refl) (rw (full) refl)
  ]
  decode_header-panic_iff token stage (some coder) none src =
      elim (Bool-cases (ltb (length src) 9)) [
        | inl short ↦ Refuses-waiting _ _ (rw (short) refl) (rw (short) refl)
        | inr full ↦
            let opened = c.decrypt_buf coder (take 9 src) in
            Refuses-body _ _
              (record { token = token; header = none; frp_coder = some opened.0; stage = stage })
              (drop 9 src) (msg_header_decode opened.1) (rw (full) refl) (rw (full) refl)
      ]

  iv-ne-panic :
      {B : Type 0} (codec : FrpCodec c) (src : List ℕ) → (decode_iv c codec src).2 ≡ panic → B
  unfolding decode_iv
  iv-ne-panic codec src h = ground arith

  login-ne-wait : ◌≡◌ {A = Stage} login wait_iv → ⊥
  login-ne-wait h = cc

  work-ne-wait : ◌≡◌ {A = Stage} work wait_iv → ⊥
  work-ne-wait h = cc

  staged :
      (token : List ℕ) (stage : Stage) (coder : Option c.Coder) (h : Option MsgHeader)
      (src : List ℕ)
      → ((decode c (record { token = token; header = h; frp_coder = coder; stage = stage }) src).2
          ≡ panic)
        ↔ ((stage ≢ wait_iv) × Refuses (header_of h coder src))
  unfolding decode
  staged token login coder h src =
      let both = decode_header-panic_iff token login coder h src in
      (λ e. (λ k. login-ne-wait k, both.0 e), λ r. both.1 r.1)
  staged token work coder h src =
      let both = decode_header-panic_iff token work coder h src in
      (λ e. (λ k. work-ne-wait k, both.0 e), λ r. both.1 r.1)
  staged token wait_iv coder h src = (λ e. iv-ne-panic _ src e, λ r. absurd (r.0 refl))

  -- A call of the FRP codec's `decode`, in any stage and with any cipher, panics exactly where the
  -- codec does not wait for the vector, and the header that it goes by, the one that was kept or
  -- else the first nine bytes as its cipher opens them, announces a message of at most the maximal
  -- length, all of which has come, with a type that is none of TYPE_LOGIN_RESP, TYPE_REQ_WORK_CONN,
  -- TYPE_NEW_PROXY_RESP and TYPE_START_WORK_CONN.
  pub decode-panic_iff :
      (codec : FrpCodec c) (src : List ℕ)
      → ((decode c codec src).2 ≡ panic)
        ↔ ((codec.stage ≢ wait_iv) × Refuses (header_of codec.header codec.frp_coder src))
  decode-panic_iff codec src = staged codec.token codec.stage codec.frp_coder codec.header src
