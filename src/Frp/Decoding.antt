-- ===== src/Frp/Decoding.antt =====
-- The decoder does not depend on how the stream is cut into reads, and the messages on which it panics.
use vlink.Prelude.{
  ℕ, zero, suc, ◌≤◌, Bool, true, false, List, [], ◌∷◌, ◌++◌, length, take, drop, Option, none, some,
  ltb, if◌then◌else◌, ◌≡◌, refl, sym, ap, ap₂, ◌∙◌, Bool-cases, inl, inr, arith, le→ltb,
  length-append,
}
use vlink.Outcome.{Outcome, ok, err}
use vlink.Frp.{
  Error, MsgHeader, Crates, FrpCodec, FrpResponse, Stage, login, wait_iv, work, Decoded, decrypted,
  decode_message, decode_iv, decode_body, decode_header, decode, max_msg_len, msg_header_decode,
}

if_false {ℓ} : {A : Type ℓ} (x y : A) (b : Bool) → b ≡ false → (if b then x else y) ≡ y
if_false x y b h = rw (h) refl

if_true {ℓ} : {A : Type ℓ} (x y : A) (b : Bool) → b ≡ true → (if b then x else y) ≡ x
if_true x y b h = rw (h) refl

take-append_le : (n : ℕ) (xs ys : List ℕ) → n ≤ length xs → take n (xs ++ ys) ≡ take n xs
take-append_le zero xs ys h = refl
take-append_le (suc n) [] ys h = ground (arith, h)
take-append_le (suc n) (x ∷ xs) ys h = ap (λ t. x ∷ t) (take-append_le n xs ys (omega (arith, h)))

drop-append_le : (n : ℕ) (xs ys : List ℕ) → n ≤ length xs → drop n (xs ++ ys) ≡ drop n xs ++ ys
drop-append_le zero xs ys h = refl
drop-append_le (suc n) [] ys h = ground (arith, h)
drop-append_le (suc n) (x ∷ xs) ys h = drop-append_le n xs ys (omega (arith, h))

not_waiting {ℓ} :
    (c : Crates) {B : Type ℓ} {e : Error}
    → ◌≡◌ {A = Outcome Error (Option (FrpResponse c))} (err e) (ok none)
    → B
not_waiting c h = cc

module _ (c : Crates) where
  -- A call that waits for more bytes.
  abbrev pub IsWaiting : Decoded c → FrpCodec c → List ℕ → Type 0
  IsWaiting d codec rest = d ≡ (codec, rest, ok none)

  answers :
      {B : Type 0} (codec : FrpCodec c) (t : ℕ) (plain : List ℕ)
      → (decode_message c codec t plain).1 ≡ ok none
      → B
  unfolding decode_message
  answers codec t plain h = ground arith

  -- A body that waits keeps its header and its bytes.
  body-waits :
      (codec codec' : FrpCodec c) (src rest : List ℕ) (h : MsgHeader)
      → IsWaiting (decode_body c codec src h) codec' rest
      → (codec' ≡ record codec { header = some h }) × (rest ≡ src)
  unfolding decode_body
  body-waits codec codec' src rest h w = elim (Bool-cases (ltb max_msg_len h.len)) [
    | inl long ↦
        let e = sym (if_true _ _ (ltb max_msg_len h.len) long) ∙ w in
        not_waiting c (ap (λ (d : Decoded c). d.2) e)
    | inr fits ↦
        let e = sym (if_false _ _ (ltb max_msg_len h.len) fits) ∙ w in
        elim (Bool-cases (ltb (length src) h.len)) [
          | inl short ↦
              let e' = sym e ∙ if_true _ _ (ltb (length src) h.len) short in
              (ap (λ (d : Decoded c). d.0) e', ap (λ (d : Decoded c). d.1) e')
          | inr full ↦
              let e' = sym (if_false _ _ (ltb (length src) h.len) full) ∙ e in
              answers _ _ _ (ap (λ (d : Decoded c). d.2) e')
        ]
  ]

  abbrev raw : List ℕ → Stage → Option c.Coder → Option MsgHeader → FrpCodec c
  raw token stage coder h = record { token = token; header = h; frp_coder = coder; stage = stage }

  -- A call that changes nothing.
  same :
      (codec codec' : FrpCodec c) (src rest more : List ℕ)
      → IsWaiting (codec, src, ok none) codec' rest
      → decode c codec' (rest ++ more) ≡ decode c codec (src ++ more)
  same codec codec' src rest more w =
      ap₂ (λ d r. decode c d (r ++ more)) (ap (λ (d : Decoded c). d.0) (sym w))
        (ap (λ (d : Decoded c). d.1) (sym w))

  -- A stage in which messages are read.
  module _ (token : List ℕ) (stage : Stage)
      (reads : (coder : Option c.Coder) (h : Option MsgHeader) (src : List ℕ)
        → decode c (raw token stage coder h) src
          ≡ decode_header c (raw token stage coder h) src) where
    body-resumes :
        (coder : Option c.Coder) (old : Option MsgHeader) (codec' : FrpCodec c)
        (src rest more : List ℕ) (h : MsgHeader)
        → IsWaiting (decode_body c (raw token stage coder old) src h) codec' rest
        → decode c codec' (rest ++ more) ≡ decode_body c (raw token stage coder old) (src ++ more) h
    unfolding decode_header decode_body
    body-resumes coder old codec' src rest more h w =
        let e = body-waits (raw token stage coder old) codec' src rest h w in
        ap₂ (λ d r. decode c d (r ++ more)) e.0 e.1 ∙ reads coder (some h) (src ++ more)

    -- The message behind a header of nine bytes.
    behind : Option c.Coder → List ℕ → List ℕ → Decoded c
    unfolding decrypted
    behind coder start left =
        let (opened, plain) = decrypted c (raw token stage coder none) start in
        decode_body c opened left (msg_header_decode plain)

    behind-resumes :
        (coder : Option c.Coder) (codec' : FrpCodec c) (start left rest more : List ℕ)
        → IsWaiting (behind coder start left) codec' rest
        → decode c codec' (rest ++ more) ≡ behind coder start (left ++ more)
    unfolding behind
    behind-resumes none codec' start left rest more w =
        body-resumes none none codec' left rest more (msg_header_decode start) w
    behind-resumes (some k) codec' start left rest more w =
        body-resumes (some (c.decrypt_buf k start).0) none codec' left rest more
          (msg_header_decode (c.decrypt_buf k start).1) w

    header-short :
        (coder : Option c.Coder) (src : List ℕ)
        → ltb (length src) 9 ≡ true
        → decode_header c (raw token stage coder none) src
          ≡ (raw token stage coder none, src, ok none)
    unfolding decode_header
    header-short coder src h = if_true _ _ (ltb (length src) 9) h

    header-full :
        (coder : Option c.Coder) (src : List ℕ)
        → ltb (length src) 9 ≡ false
        → decode_header c (raw token stage coder none) src ≡ behind coder (take 9 src) (drop 9 src)
    unfolding decode_header behind
    header-full coder src h = if_false _ _ (ltb (length src) 9) h

    reading-resumes :
        (coder : Option c.Coder) (h : Option MsgHeader) (codec' : FrpCodec c)
        (src rest more : List ℕ)
        → IsWaiting (decode c (raw token stage coder h) src) codec' rest
        → decode c codec' (rest ++ more) ≡ decode c (raw token stage coder h) (src ++ more)
    unfolding decode_header
    reading-resumes coder (some h) codec' src rest more w =
        body-resumes coder (some h) codec' src rest more h (sym (reads coder (some h) src) ∙ w)
        ∙ sym (reads coder (some h) (src ++ more))
    reading-resumes coder none codec' src rest more w = elim (Bool-cases (ltb (length src) 9)) [
      | inl short ↦
          same (raw token stage coder none) codec' src rest more
            (sym (header-short coder src short) ∙ sym (reads coder none src) ∙ w)
      | inr full ↦
          let long : 9 ≤ length src = ground (arith, full) in
          behind-resumes coder codec' (take 9 src) (drop 9 src) rest more
            (sym (header-full coder src full) ∙ sym (reads coder none src) ∙ w)
          ∙ ap₂ (behind coder) (sym (take-append_le 9 src more long))
              (sym (drop-append_le 9 src more long))
          ∙ sym (
              header-full coder (src ++ more)
                (le→ltb _ _ (omega (arith, long, length-append src more))))
          ∙ sym (reads coder none (src ++ more))
    ]

  iv-waits :
      (codec codec' : FrpCodec c) (src rest : List ℕ)
      → IsWaiting (decode_iv c codec src) codec' rest
      → (codec' ≡ codec) × (rest ≡ src)
  unfolding decode_iv
  iv-waits codec codec' src rest w = ground arith

  any-resumes :
      (token : List ℕ) (stage : Stage) (coder : Option c.Coder) (h : Option MsgHeader)
      (codec' : FrpCodec c) (src rest more : List ℕ)
      → IsWaiting (decode c (raw token stage coder h) src) codec' rest
      → decode c codec' (rest ++ more) ≡ decode c (raw token stage coder h) (src ++ more)
  unfolding decode
  any-resumes token login coder h codec' src rest more w =
      reading-resumes token login (λ k g s. refl) coder h codec' src rest more w
  any-resumes token work coder h codec' src rest more w =
      reading-resumes token work (λ k g s. refl) coder h codec' src rest more w
  any-resumes token wait_iv coder h codec' src rest more w =
      let e = iv-waits (raw token wait_iv coder h) codec' src rest w in
      ap₂ (λ d r. decode c d (r ++ more)) e.0 e.1

  -- Where a call of the FRP codec's `decode` waits for more bytes, in any stage and with any cipher,
  -- a later call with more bytes gives what one call on all of the bytes gives.
  pub decode_again :
      (codec codec' : FrpCodec c) (src rest more : List ℕ)
      → IsWaiting (decode c codec src) codec' rest
      → decode c codec' (rest ++ more) ≡ decode c codec (src ++ more)
  decode_again codec codec' src rest more w =
      any-resumes codec.token codec.stage codec.frp_coder codec.header codec' src rest more w
