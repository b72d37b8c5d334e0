-- ===== src/Frp/Examples.antt =====
-- The theorems on the FRP codec at stand-ins for the crates: a coder that changes nothing.
use vlink.Prelude.{ℕ, ◌≢◌, ◌↔◌, List, [], ◌∷◌, none, some, replicate, ◌≡◌, refl}
use vlink.Outcome.{panic}
use vlink.Frp.{
  msg_header_decode, Crates, FrpCodec, login, wait_iv, decode, decode_header, decode_body,
  decrypted,
}
use vlink.Frp.Decoding.{decode_again}
use vlink.Frp.Panics.{header_of, Refuses, decode-panic_iff}

abbrev pub stand_in : Crates
stand_in = record {
  LoginResp = ℕ;
  StartWorkConnResp = ℕ;
  LoginRequest = ℕ;
  NewWorkConn = ℕ;
  PingRequest = ℕ;
  NewProxyRequest = ℕ;
  Coder = List ℕ;
  new_coder = λ token iv. some iv;
  iv = λ coder. coder;
  decrypt_buf = λ coder bytes. (coder, bytes);
  encrypt_buf = λ coder bytes. (coder, bytes);
  read_login_resp = λ bytes. some 1;
  read_start_work_conn = λ bytes. some 2;
  write_login = λ r. some [];
  write_new_work_conn = λ r. some [];
  write_ping = λ r. some [];
  write_new_proxy = λ r. some [];
}

abbrev codec : FrpCodec stand_in
codec = record { token = []; header = none; frp_coder = some []; stage = login }

-- A header for two bytes, of which one has come.
decode_again_example :
    decode stand_in
      (record codec { header = some (record { msg_type = 114; len = 2 }) })
      (7 ∷ 8 ∷ [])
    ≡ decode stand_in codec (114 ∷ 0 ∷ 0 ∷ 0 ∷ 0 ∷ 0 ∷ 0 ∷ 0 ∷ 2 ∷ 7 ∷ 8 ∷ [])
unfolding decode decode_header decode_body decrypted msg_header_decode
decode_again_example =
    decode_again stand_in codec
      (record codec { header = some (record { msg_type = 114; len = 2 }) })
      (114 ∷ 0 ∷ 0 ∷ 0 ∷ 0 ∷ 0 ∷ 0 ∷ 0 ∷ 2 ∷ 7 ∷ []) (7 ∷ []) (8 ∷ []) refl

-- A whole message without data whose type is `TypePong`.
decode-panic_iff_example : ((decode stand_in codec (52 ∷ replicate 8 0)).2 ≡ panic) ↔ (
    (codec.stage ≢ wait_iv)
    × Refuses stand_in (header_of stand_in codec.header codec.frp_coder (52 ∷ replicate 8 0)))
decode-panic_iff_example = decode-panic_iff stand_in codec (52 ∷ replicate 8 0)
