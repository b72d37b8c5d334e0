-- ===== src/Nat/Mapping.antt =====
-- Where a port is mapped: `add_port` at a gateway that keeps its mappings by their protocol and port.
use vlink.Prelude.{
  ℕ, ◌<◌, ◌==◌, true, false, List, some, ◌≡◌, ◌↔◌, ◌⊎◌, inl, inr, refl, sym, ap, ◌∙◌, Bool-cases,
  ==_ne, arith,
}
use vlink.Outcome.{Outcome, ok, err, panic, ◌>>=◌, bind-eq-ok}
use vlink.Cidr.{ip_v4}
use vlink.Nat.Gateway.{IsGateway, Takes, Obtains}
use vlink.Nat.{
  Protocol, udp, tcp, UpnpError, ipv6, port_error, port_in_use, not_reached, refused, bad_duration,
  Gateways, UpnpService, add_again, retry, add_retrying, add_port,
}

panic-ne-ok : ◌≡◌ {A = Outcome UpnpError (Unit {0})} panic (ok tt) → ⊥
panic-ne-ok h = cc

in_use-ne-ok : {e : UpnpError} → ◌≡◌ {A = Outcome UpnpError (Unit {0})} (err e) (ok tt) → ⊥
in_use-ne-ok h = cc

module _ {World : Type 0} (gateways : Gateways World) (gateway : IsGateway gateways) (w : World)
    (port : ℕ) (ip : List ℕ) where
  retry-ok :
      (service : UpnpService) (r : World × Outcome UpnpError (Unit {0}))
      → r.1 ≡ ok tt
      → (retry gateways service port ip r).1 ≡ ok tt
  unfolding retry
  retry-ok service (v, ok u) h = refl
  retry-ok service (v, err e) h = absurd (in_use-ne-ok h)
  retry-ok service (v, panic) h = absurd (panic-ne-ok h)

  retrying-taken :
      (service : UpnpService)
      → Takes gateways service w port ip
      → (add_retrying gateways service w port ip).1 ≡ ok tt
  unfolding add_retrying
  retrying-taken service h = retry-ok service _ h

  -- An answer other than that the port is in use stands.
  retry-ok_stands :
      (service : UpnpService) (r : World × Outcome UpnpError (Unit {0}))
      → (retry gateways service port ip r).1 ≡ ok tt
      → (r.1 ≡ ok tt) ⊎ (r.1 ≡ err port_in_use)
  unfolding retry
  retry-ok_stands service (v, ok u) h = inl refl
  retry-ok_stands service (v, err port_in_use) h = inr refl
  retry-ok_stands service (v, err ipv6) h = absurd (in_use-ne-ok h)
  retry-ok_stands service (v, err port_error) h = absurd (in_use-ne-ok h)
  retry-ok_stands service (v, err not_reached) h = absurd (in_use-ne-ok h)
  retry-ok_stands service (v, err refused) h = absurd (in_use-ne-ok h)
  retry-ok_stands service (v, err bad_duration) h = absurd (in_use-ne-ok h)
  retry-ok_stands service (v, panic) h = absurd (panic-ne-ok h)

  retrying-held :
      (service : UpnpService)
      → gateway.holds w service.protocol port ≡ true
      → add_retrying gateways service w port ip
        ≡ retry gateways service port ip (w, err port_in_use)
  unfolding add_retrying
  retrying-held service h =
      ap (retry gateways service port ip)
        (gateway.held w service.protocol port ip service.inner_port service.duration h)

  retrying-kept :
      (service : UpnpService)
      → gateway.holds w service.protocol port ≡ true
      → (gateways.remove w tcp port).1 ≡ false
      → (add_retrying gateways service w port ip).1 ≡ err port_in_use
  unfolding retry
  retrying-kept service h k = ap (λ x. x.1) (retrying-held service h) ∙ rw (k) refl

  retrying-removed :
      (service : UpnpService)
      → gateway.holds w service.protocol port ≡ true
      → (gateways.remove w tcp port).1 ≡ true
      → (add_retrying gateways service w port ip).1
        ≡ (gateways.add
            (gateways.remove w tcp port).0
            service.protocol
            port
            ip
            service.inner_port
            service.duration).1
  unfolding retry add_again
  retrying-removed service h k = ap (λ x. x.1) (retrying-held service h) ∙ rw (k) refl

  Obtains-ok :
      (service : UpnpService)
      → Obtains gateways gateway service w port ip
      → (add_retrying gateways service w port ip).1 ≡ ok tt
  Obtains-ok service (inl h) = retrying-taken service h
  Obtains-ok service (inr (over_tcp, h, k, taken)) =
      let held = ap (λ pr. gateway.holds w pr port) over_tcp ∙ h in
      retrying-removed service held k ∙ taken

  -- A held port of UDP stays held behind the removal.
  held-again :
      (service : UpnpService)
      → service.protocol ≡ udp
      → gateway.holds w service.protocol port ≡ true
      → (gateways.remove w tcp port).1 ≡ true
      → (add_retrying gateways service w port ip).1 ≡ err port_in_use
  held-again service over_udp h k =
      let left = (gateways.remove w tcp port).0 in
      let still =
        ap (λ pr. gateway.holds left pr port) over_udp
        ∙ gateway.apart w port port
        ∙ ap (λ pr. gateway.holds w pr port) (sym over_udp)
        ∙ h in
      retrying-removed service h k
      ∙ ap (λ x. x.1)
          (gateway.held left service.protocol port ip service.inner_port service.duration still)

  protocol-cases : (protocol : Protocol) → (protocol ≡ udp) ⊎ (protocol ≡ tcp)
  protocol-cases udp = inl refl
  protocol-cases tcp = inr refl

  ok-Obtains :
      (service : UpnpService)
      → (add_retrying gateways service w port ip).1 ≡ ok tt
      → Obtains gateways gateway service w port ip
  unfolding add_retrying
  ok-Obtains service made = elim (retry-ok_stands service _ made) [
    | inl taken ↦ inl taken
    | inr busy ↦
        let h =
          gateway.in_use w service.protocol port ip service.inner_port service.duration busy in
        elim (Bool-cases (gateways.remove w tcp port).1) [
          | inr k ↦ absurd (in_use-ne-ok (sym (retrying-kept service h k) ∙ made))
          | inl k ↦ elim (protocol-cases service.protocol) [
            | inl over_udp ↦ absurd (in_use-ne-ok (sym (held-again service over_udp h k) ∙ made))
            | inr over_tcp ↦ inr (
              over_tcp,
              ap (λ pr. gateway.holds w pr port) (sym over_tcp) ∙ h,
              k,
              sym (retrying-removed service h k) ∙ made,
            )
          ]
        ]
  ]

-- What others hold for UDP stays behind every answer.
module _ {World : Type 0} (gateways : Gateways World) (gateway : IsGateway gateways)
    (service : UpnpService) (port k : ℕ) (ip : List ℕ) where
  retry-keeps :
      (r : World × Outcome UpnpError (Unit {0}))
      → gateway.holds (retry gateways service port ip r).0 udp k ≡ gateway.holds r.0 udp k
  unfolding retry add_again
  retry-keeps (v, ok u) = refl
  retry-keeps (v, err port_in_use) = elim (Bool-cases (gateways.remove v tcp port).1) [
    | inl e ↦ rw (e) (
        gateway.kept (gateways.remove v tcp port).0 service.protocol port ip service.inner_port
          service.duration k
        ∙ gateway.apart v port k)
    | inr e ↦ rw (e) (gateway.apart v port k)
  ]
  retry-keeps (v, err ipv6) = refl
  retry-keeps (v, err port_error) = refl
  retry-keeps (v, err not_reached) = refl
  retry-keeps (v, err refused) = refl
  retry-keeps (v, err bad_duration) = refl
  retry-keeps (v, panic) = refl

  retrying-keeps :
      (w : World)
      → gateway.holds (add_retrying gateways service w port ip).0 udp k ≡ gateway.holds w udp k
  unfolding add_retrying
  retrying-keeps w =
      retry-keeps _ ∙ gateway.kept w service.protocol port ip service.inner_port service.duration k

bind-ok :
    {A : Type 0} {m : Outcome UpnpError (Unit {0})} {a : A} → (m >>= λ u. ok a) ≡ ok a → m ≡ ok tt
bind-ok {m = m} h = let (u, e, k) = bind-eq-ok m _ h in e

-- At a gateway that refuses as in use exactly the ports that others hold for the protocol, and whose
-- additions, and removals for TCP, leave the ports that others hold for UDP, where it is found over
-- IPv4 and the inner port is known: `add_port` succeeds exactly where the gateway takes the mapping
-- at once, or the service is one for TCP, the port is held and its removal succeeds, and the gateway
-- then takes the mapping; and whatever comes of it, each port that others held for UDP is held as
-- before.
pub add_port-ok_iff :
    {World : Type 0} (gateways : Gateways World) (gateway : IsGateway gateways)
    (service : UpnpService) (w : World) (port k found : ℕ) (ip : List ℕ)
    → gateways.search w ≡ some (found, ip_v4 ip)
    → 0 < service.inner_port
    → (((add_port gateways service w port).1 ≡ ok (found, ip, service.inner_port))
        ↔ Obtains gateways gateway service w port ip)
      × (gateway.holds (add_port gateways service w port).0 udp k ≡ gateway.holds w udp k)
unfolding add_port
add_port-ok_iff gateways gateway service w port k found ip there positive =
    let ne : (service.inner_port == 0) ≡ false = ==_ne service.inner_port 0 (λ e. omega arith) in
    let whole : (add_port gateways service w port).1 ≡ (
        (add_retrying gateways service w port ip).1 >>= λ u. ok (found, ip, service.inner_port)) =
      rw (add_port, there, ne) refl in
    let left : (add_port gateways service w port).0 ≡ (add_retrying gateways service w port ip).0 =
      rw (add_port, there, ne) refl in
    (
      (
        λ h. ok-Obtains gateways gateway w port ip service (bind-ok (sym whole ∙ h)),
        λ h.
            whole
            ∙ ap (λ m. m >>= λ u. ok (found, ip, service.inner_port))
                (Obtains-ok gateways gateway w port ip service h),
      ),
      ap (λ v. gateway.holds v udp k) left ∙ retrying-keeps gateways gateway service port k ip w,
    )
