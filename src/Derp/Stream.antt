-- ===== src/Derp/Stream.antt =====
-- The decoder does not depend on how the stream is cut into reads.
use vlink.Prelude.{
  ℕ, Bool, true, false, List, [], ◌∷◌, ◌++◌, length, take, drop, Option, none, some, ltb,
  if◌then◌else◌, ◌≡◌, refl, sym, ap, ap₂, ◌∙◌, Bool-cases, inl, inr, arith,
}
use vlink.Outcome.{Outcome, ok, err, panic}
use vlink.Bytes.{from_be_bytes}
use vlink.Derp.{
  Error, Header, DerpResponse, DerpCodec, Crates, cmd_type_of, max_frame_len, max_frame_length,
  decode_frame, Decoded, finish, decode_body, decode, decode_ws,
}

pub if_false {ℓ} : {A : Type ℓ} (x y : A) (b : Bool) → b ≡ false → (if b then x else y) ≡ y
if_false x y b h = rw (h) refl

if_true {ℓ} : {A : Type ℓ} (x y : A) (b : Bool) → b ≡ true → (if b then x else y) ≡ x
if_true x y b h = rw (h) refl

not_waiting {ℓ} :
    {B : Type ℓ} {e : Error} → ◌≡◌ {A = Outcome Error (Option DerpResponse)} (err e) (ok none) → B
not_waiting h = cc

module _ (c : Crates) where
  -- A call that waits for more bytes.
  abbrev pub IsWaiting : Decoded c → DerpCodec → List ℕ → Type 0
  IsWaiting d codec rest = d ≡ (codec, rest, ok none)

  finish-done :
      {B : Type 0} (codec : DerpCodec) (rest : List ℕ)
      (o : Outcome Error (DerpCodec × DerpResponse)) (codec' : DerpCodec) (rest' : List ℕ)
      → IsWaiting (finish c codec rest o) codec' rest'
      → B
  finish-done codec rest (ok (d, r)) codec' rest' h = ground arith
  finish-done codec rest (err e) codec' rest' h = ground arith
  finish-done codec rest panic codec' rest' h = ground arith

  -- `decode_body` on its two branches.
  body-short :
      (codec : DerpCodec) (src : List ℕ) (h : Header)
      → ltb (length src) h.len ≡ true
      → decode_body c codec src h ≡ (record codec { header = some h }, src, ok none)
  unfolding decode_body
  body-short codec src h short = rw (short) refl

  pub body-full :
      (codec : DerpCodec) (src : List ℕ) (h : Header)
      → ltb (length src) h.len ≡ false
      → decode_body c codec src h
        ≡ finish c
            (record codec { header = none })
            (drop h.len src)
            (decode_frame c (record codec { header = none }) h (take h.len src))
  unfolding decode_body
  body-full codec src h full = rw (full) refl

  held :
      (codec : DerpCodec) (src : List ℕ) (h : Header)
      → codec.to_ws_response ≡ false
      → decode c (record codec { header = some h }) src ≡ decode_body c codec src h
  unfolding decode decode_body
  held codec src h raw = if_false _ _ codec.to_ws_response raw

  -- A body that waits keeps its header and its bytes, and goes on from them.
  body-resumes :
      (codec codec' : DerpCodec) (src rest more : List ℕ) (h : Header)
      → codec.to_ws_response ≡ false
      → IsWaiting (decode_body c codec src h) codec' rest
      → decode c codec' (rest ++ more) ≡ decode_body c codec (src ++ more) h
  body-resumes codec codec' src rest more h raw w = elim (Bool-cases (ltb (length src) h.len)) [
    | inl short ↦
        let e = sym w ∙ body-short codec src h short in
        ap₂ (λ d r. decode c d (r ++ more)) (ap (λ (d : Decoded c). d.0) e)
          (ap (λ (d : Decoded c). d.1) e)
        ∙ held codec (src ++ more) h raw
    | inr full ↦
        finish-done (record codec { header = none }) (drop h.len src)
          (decode_frame c (record codec { header = none }) h (take h.len src)) codec' rest
          (sym (body-full codec src h full) ∙ w)
  ]

  ws-resumes :
      (codec codec' : DerpCodec) (src rest more : List ℕ)
      → IsWaiting (decode_ws c codec src) codec' rest
      → (codec' ≡ codec) × (rest ≡ src)
  unfolding decode_ws
  ws-resumes codec codec' src rest more w = ground arith

  -- A call that changes nothing.
  same :
      (codec codec' : DerpCodec) (src rest more : List ℕ)
      → IsWaiting (codec, src, ok none) codec' rest
      → decode c codec' (rest ++ more) ≡ decode c codec (src ++ more)
  same codec codec' src rest more w =
      ap₂ (λ d r. decode c d (r ++ more)) (ap (λ (d : Decoded c). d.0) (sym w))
        (ap (λ (d : Decoded c). d.1) (sym w))

  module _ (private_key public_key : List ℕ) (box : Option (List ℕ × List ℕ)) where
    abbrev pub raw : Option Header → DerpCodec
    raw h = record {
      to_ws_response = false;
      private_key = private_key;
      public_key = public_key;
      salsa_box = box;
      header = h;
    }

    -- Five bytes give the header of the body that follows, or a length that is too large.
    pub header_read :
        (k l m n o : ℕ) (src : List ℕ)
        → decode c (raw none) (k ∷ l ∷ m ∷ n ∷ o ∷ src) ≡ (
            if ltb max_frame_len (from_be_bytes (l ∷ m ∷ n ∷ o ∷ []))
            then (raw none, src, err (max_frame_length (from_be_bytes (l ∷ m ∷ n ∷ o ∷ []))))
            else decode_body c
                (raw none)
                src
                (record { cmd_type = cmd_type_of k; len = from_be_bytes (l ∷ m ∷ n ∷ o ∷ []) }))
    unfolding decode
    header_read k l m n o src =
        if_false _ _ (ltb (length (k ∷ l ∷ m ∷ n ∷ o ∷ src)) 5) (ground arith)

    header-resumes :
        (k l m n o : ℕ) (codec' : DerpCodec) (src rest more : List ℕ)
        → IsWaiting (decode c (raw none) (k ∷ l ∷ m ∷ n ∷ o ∷ src)) codec' rest
        → decode c codec' (rest ++ more) ≡ decode c (raw none) (k ∷ l ∷ m ∷ n ∷ o ∷ (src ++ more))
    header-resumes k l m n o codec' src rest more w =
        let len = from_be_bytes (l ∷ m ∷ n ∷ o ∷ []) in
        let w' = sym (header_read k l m n o src) ∙ w in
        elim (Bool-cases (ltb max_frame_len len)) [
          | inl long ↦
              let e = sym (if_true _ _ (ltb max_frame_len len) long) ∙ w' in
              not_waiting (ap (λ (d : Decoded c). d.2) e)
          | inr short ↦
              body-resumes (raw none) codec' src rest more
                (record { cmd_type = cmd_type_of k; len = len }) refl
                (sym (if_false _ _ (ltb max_frame_len len) short) ∙ w')
              ∙ sym (if_false _ _ (ltb max_frame_len len) short)
              ∙ sym (header_read k l m n o (src ++ more))
        ]

    raw-resumes :
        (h : Option Header) (codec' : DerpCodec) (src rest more : List ℕ)
        → IsWaiting (decode c (raw h) src) codec' rest
        → decode c codec' (rest ++ more) ≡ decode c (raw h) (src ++ more)
    unfolding decode
    raw-resumes (some h) codec' src rest more w =
        body-resumes (raw (some h)) codec' src rest more h refl w
    raw-resumes none codec' [] rest more w = same (raw none) codec' [] rest more w
    raw-resumes none codec' (a ∷ []) rest more w = same (raw none) codec' (a ∷ []) rest more w
    raw-resumes none codec' (a ∷ b ∷ []) rest more w =
        same (raw none) codec' (a ∷ b ∷ []) rest more w
    raw-resumes none codec' (a ∷ b ∷ d ∷ []) rest more w =
        same (raw none) codec' (a ∷ b ∷ d ∷ []) rest more w
    raw-resumes none codec' (a ∷ b ∷ d ∷ e ∷ []) rest more w =
        same (raw none) codec' (a ∷ b ∷ d ∷ e ∷ []) rest more w
    raw-resumes none codec' (a ∷ b ∷ d ∷ e ∷ f ∷ src) rest more w =
        header-resumes a b d e f codec' src rest more w

  any-resumes :
      (waits : Bool) (k p : List ℕ) (box : Option (List ℕ × List ℕ)) (h : Option Header)
      (codec' : DerpCodec) (src rest more : List ℕ)
      → IsWaiting
          (decode c
            (record {
              to_ws_response = waits;
              private_key = k;
              public_key = p;
              salsa_box = box;
              header = h;
            })
            src)
          codec'
          rest
      → decode c codec' (rest ++ more)
        ≡ decode c
            (record {
              to_ws_response = waits;
              private_key = k;
              public_key = p;
              salsa_box = box;
              header = h;
            })
            (src ++ more)
  unfolding decode
  any-resumes false k p box h codec' src rest more w = raw-resumes k p box h codec' src rest more w
  any-resumes true k p box h codec' src rest more w =
      let e = ws-resumes _ codec' src rest more w in ap₂ (λ d r. decode c d (r ++ more)) e.0 e.1

  -- Where a call of `decode` waits for more bytes, a later call with more bytes gives what one call
  -- on all of the bytes gives.
  pub decode-resumes :
      (codec codec' : DerpCodec) (src rest more : List ℕ)
      → IsWaiting (decode c codec src) codec' rest
      → decode c codec' (rest ++ more) ≡ decode c codec (src ++ more)
  decode-resumes codec codec' src rest more w =
      any-resumes codec.to_ws_response codec.private_key codec.public_key codec.salsa_box
        codec.header codec' src rest more w
