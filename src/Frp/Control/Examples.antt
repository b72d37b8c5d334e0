-- ===== src/Frp/Control/Examples.antt =====
-- The theorem on logins at a server that accepts.
use vlink.Prelude.{true, false, [], ◌∷◌, none, some, ◌≡◌, refl}
use vlink.Outcome.{ok}
use vlink.Frp.{login_request, iv_request, login_resp, iv_response}
use vlink.Frp.Examples.{stand_in}
use vlink.Frp.Control.{Fields, FrpControl, Responses, LoggedIn, exchange_iv, login}
use vlink.Frp.Control.Running.{IsRunning, login-IsRunning}

abbrev fields : Fields stand_in
fields = record {
  error_of = λ resp. false;
  run_id_of = λ resp. some (resp ∷ []);
  new_login = λ token user. 0;
}

abbrev control : FrpControl stand_in
control = record { token = 1 ∷ []; run_id = none; has_stream = true }

abbrev stream : Responses stand_in
stream = ok (login_resp 9) ∷ ok iv_response ∷ []

abbrev done : LoggedIn stand_in
done = record {
  control = record { token = 1 ∷ []; run_id = some (9 ∷ []); has_stream = true };
  sent = login_request 0 ∷ iv_request ∷ [];
  stream = [];
}

login_ok : login stand_in fields control [] stream ≡ ok done
unfolding login exchange_iv
login_ok = refl

login-IsRunning_example : IsRunning stand_in fields control stream done
login-IsRunning_example = login-IsRunning stand_in fields control [] stream done login_ok
