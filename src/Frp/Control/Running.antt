-- ===== src/Frp/Control/Running.antt =====
-- What a login of the FRP client leaves for `run`.
use vlink.Prelude.{
  ℕ, Bool, true, false, List, [], ◌∷◌, some, ◌≡◌, refl, sym, ap, ◌∙◌, inl, inr, Bool-cases,
  Option-cases, if◌then◌else◌,
}
use vlink.Outcome.{Outcome, ok, err, panic, ok_inj}
use vlink.Frp.{
  Crates, FrpRequest, login_request, login_resp, iv_response, type_req_work_conn_response,
  start_work_conn, test,
}
use vlink.Frp.Control.{
  ControlError, no_stream, no_response, no_run_id, rejected, Fields, FrpControl, Responses,
  LoggedIn, exchange_iv, login, run,
}

module _ (c : Crates) where
  fails :
      {a : LoggedIn c} (e : ControlError)
      → ◌≡◌ {A = Outcome ControlError (LoggedIn c)} (err e) (ok a)
      → ⊥
  fails e h = cc

  panics : {a : LoggedIn c} → ◌≡◌ {A = Outcome ControlError (LoggedIn c)} panic (ok a) → ⊥
  panics h = cc

  fails_if :
      {a : LoggedIn c} (d e : ControlError) (b : Bool)
      → ◌≡◌ {A = Outcome ControlError (LoggedIn c)} (if b then err d else err e) (ok a)
      → ⊥
  fails_if d e true h = fails d h
  fails_if d e false h = fails e h

  panics_if :
      {a : LoggedIn c} (e : ControlError) (b : Bool)
      → ◌≡◌ {A = Outcome ControlError (LoggedIn c)} (if b then panic else err e) (ok a)
      → ⊥
  panics_if e true h = panics h
  panics_if e false h = fails e h

  exchange_iv-control :
      (control : FrpControl c) (message : FrpRequest c) (stream : Responses c) (done : LoggedIn c)
      → exchange_iv c control message stream ≡ ok done
      → done.control ≡ control
  unfolding exchange_iv
  exchange_iv-control control message [] done h =
      ap (λ (d : LoggedIn c). d.control) (sym (ok_inj h))
  exchange_iv-control control message (panic ∷ stream) done h = absurd (panics h)
  exchange_iv-control control message (err e ∷ stream) done h =
      ap (λ (d : LoggedIn c). d.control) (sym (ok_inj h))
  exchange_iv-control control message (ok iv_response ∷ stream) done h =
      ap (λ (d : LoggedIn c). d.control) (sym (ok_inj h))
  exchange_iv-control control message (ok (login_resp resp) ∷ stream) done h =
      ap (λ (d : LoggedIn c). d.control) (sym (ok_inj h))
  exchange_iv-control control message (ok type_req_work_conn_response ∷ stream) done h =
      ap (λ (d : LoggedIn c). d.control) (sym (ok_inj h))
  exchange_iv-control control message (ok (start_work_conn resp) ∷ stream) done h =
      ap (λ (d : LoggedIn c). d.control) (sym (ok_inj h))
  exchange_iv-control control message (ok test ∷ stream) done h =
      ap (λ (d : LoggedIn c). d.control) (sym (ok_inj h))

  -- A login that went through: the answer of the server, and what `run` makes of it.
  pub record IsRunning (fields : Fields c) (control : FrpControl c) (stream : Responses c)
      (done : LoggedIn c) : Type 0 where
    pub resp : c.LoginResp
    pub rest : Responses c
    pub run_id : List ℕ
    pub answered : stream ≡ ok (login_resp resp) ∷ rest
    pub accepted : fields.error_of resp ≡ false
    pub given : fields.run_id_of resp ≡ some run_id
    pub runs : (run c done.control).1 ≡ ok (run_id, control.token)
    pub once : (run c (run c done.control).0).1 ≡ err no_stream

  logged_in :
      (fields : Fields c) (control : FrpControl c) (user : List ℕ) (resp : c.LoginResp)
      (rest : Responses c) (run_id : List ℕ) (done : LoggedIn c)
      → control.has_stream ≡ true
      → fields.error_of resp ≡ false
      → fields.run_id_of resp ≡ some run_id
      → exchange_iv c
          (record control { run_id = some run_id })
          (login_request (fields.new_login control.token user))
          rest
        ≡ ok done
      → IsRunning fields control (ok (login_resp resp) ∷ rest) done
  unfolding run
  logged_in fields control user resp rest run_id done held accepted given h =
      let left =
        exchange_iv-control (record control { run_id = some run_id })
          (login_request (fields.new_login control.token user)) rest done h in
      let has : done.control.has_stream ≡ true =
        ap (λ (k : FrpControl c). k.has_stream) left ∙ held in
      let named : done.control.run_id ≡ some run_id = ap (λ (k : FrpControl c). k.run_id) left in
      let token : done.control.token ≡ control.token = ap (λ (k : FrpControl c). k.token) left in
      record {
        resp = resp;
        rest = rest;
        run_id = run_id;
        answered = refl;
        accepted = accepted;
        given = given;
        runs = rw (has, named, run) (ap (λ t. ok (run_id, t)) token);
        once = rw (has, run) refl;
      }

  -- Where a login succeeds: the first message of the server was an answer to it without an error and
  -- with a run; the first `run` behind it starts with this run and the token of the client, and a
  -- second one fails.
  pub login-IsRunning :
      (fields : Fields c) (control : FrpControl c) (user : List ℕ) (stream : Responses c)
      (done : LoggedIn c)
      → login c fields control user stream ≡ ok done
      → IsRunning fields control stream done
  unfolding login
  login-IsRunning fields control user [] done h =
      absurd (fails_if no_response no_stream control.has_stream h)
  login-IsRunning fields control user (panic ∷ stream) done h =
      absurd (panics_if no_stream control.has_stream h)
  login-IsRunning fields control user (err e ∷ stream) done h =
      absurd (fails_if no_response no_stream control.has_stream h)
  login-IsRunning fields control user (ok iv_response ∷ stream) done h =
      absurd (fails_if no_response no_stream control.has_stream h)
  login-IsRunning fields control user (ok type_req_work_conn_response ∷ stream) done h =
      absurd (fails_if no_response no_stream control.has_stream h)
  login-IsRunning fields control user (ok (start_work_conn resp) ∷ stream) done h =
      absurd (fails_if no_response no_stream control.has_stream h)
  login-IsRunning fields control user (ok test ∷ stream) done h =
      absurd (fails_if no_response no_stream control.has_stream h)
  login-IsRunning fields control user (ok (login_resp resp) ∷ stream) done h =
      elim (Bool-cases control.has_stream) [
        | inr none_left ↦ absurd (fails no_stream (sym (rw (login, none_left) refl) ∙ h))
        | inl held ↦ elim (Bool-cases (fields.error_of resp)) [
          | inl refused ↦ absurd (fails rejected (sym (rw (login, held, refused) refl) ∙ h))
          | inr accepted ↦ elim (Option-cases (fields.run_id_of resp)) [
            | inl unnamed ↦
                absurd (fails no_run_id (sym (rw (login, held, accepted, unnamed) refl) ∙ h))
            | inr (run_id, given) ↦
                logged_in fields control user resp stream run_id done held accepted given (
                  sym (
                    rw (login, held, accepted, given)
                      (ap
                        (λ b.
                          exchange_iv c
                            (record { token = control.token; run_id = some run_id; has_stream = b })
                            (login_request (fields.new_login control.token user)) stream)
                        held))
                  ∙ h)
          ]
        ]
      ]
