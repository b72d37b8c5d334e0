-- ===== src/Nat/Examples.antt =====
-- The theorem on mappings at a gateway that keeps what is held as a function.
use vlink.Prelude.{ℕ, ◌==◌, Bool, true, false, [], ◌∷◌, some, ◌≡◌, ◌↔◌, refl, if◌then◌else◌, arith}
use vlink.Outcome.{Outcome, ok, err}
use vlink.Cidr.{ip_v4}
use vlink.Nat.{Protocol, udp, tcp, UpnpError, port_in_use, Gateways, UpnpService, add_port}
use vlink.Nat.Gateway.{IsGateway, Obtains}
use vlink.Nat.Mapping.{add_port-ok_iff}

abbrev same_protocol : Protocol → Protocol → Bool
same_protocol udp udp = true
same_protocol udp tcp = false
same_protocol tcp udp = false
same_protocol tcp tcp = true

abbrev Held : Type 0
Held = Protocol → ℕ → Bool

abbrev free_port : Held → Protocol → ℕ → Held
free_port held protocol port = λ pr k.
    if same_protocol pr protocol then (if k == port then false else held pr k) else held pr k

abbrev gateways : Gateways Held
gateways = record {
  search = λ held. some (1, ip_v4 (10 ∷ 0 ∷ 0 ∷ 2 ∷ []));
  add = λ held protocol port ip inner duration.
      (held, if held protocol port then err port_in_use else ok tt);
  remove = λ held protocol port. (free_port held protocol port, true);
}

in_use_lem :
    (b : Bool)
    → ◌≡◌ {A = Outcome UpnpError (Unit {0})}
        (if b then err port_in_use else ok tt)
        (err port_in_use)
    → b ≡ true
in_use_lem true h = refl
in_use_lem false h = cc

gateways-IsGateway : IsGateway gateways
gateways-IsGateway = record {
  holds = λ held protocol port. held protocol port;
  held = λ held protocol port ip inner duration h. rw (h) refl;
  in_use = λ held protocol port ip inner duration h. in_use_lem (held protocol port) h;
  kept = λ held protocol port ip inner duration k. refl;
  apart = λ held port k. refl;
}

abbrev service : UpnpService
service = record { duration = 140; protocol = udp; external_port = some 80; inner_port = 5524 }

-- Someone else holds the port.
add_port-ok_iff_example :
    (((add_port gateways service (λ protocol port. true) 80).1 ≡ ok (1, 10 ∷ 0 ∷ 0 ∷ 2 ∷ [], 5524))
      ↔ Obtains gateways gateways-IsGateway service
          (λ protocol port. true)
          80
          (10 ∷ 0 ∷ 0 ∷ 2 ∷ []))
    × (gateways-IsGateway.holds (add_port gateways service (λ protocol port. true) 80).0 udp 80
        ≡ gateways-IsGateway.holds (λ protocol port. true) udp 80)
add_port-ok_iff_example =
    add_port-ok_iff gateways gateways-IsGateway service (λ protocol port. true) 80 80 1
      (10 ∷ 0 ∷ 0 ∷ 2 ∷ []) refl (omega arith)
