-- ===== src/Udp/Examples.antt =====
-- The theorems on UDP at sockets that get the port they ask for.
use vlink.Prelude.{ℕ, List, [], ◌∷◌, ◌++◌, Option, ◌≡◌, refl}
use vlink.Outcome.{ok, panic}
use vlink.Noise.Cookie.{v4, v6}
use vlink.Noise.Examples.{stand_in, alice}
use vlink.Cidr.Examples.{Range, ranges}
use vlink.Peers.{new_list}
use vlink.Device.{DeviceInner, new_device}
use vlink.Device.Loop.{Surroundings, loop_inbound}
use vlink.Udp.{
  Sockets, UdpTransport, Arrival, on_v4, on_v6, bind_pair, bind_tries, max_retry, bind_socket, bind,
  inbound,
}
use vlink.Udp.Receiving.{seen, inbound-bind, loop_inbound-v6}

abbrev sockets : Sockets
sockets = record { bind_v4 = λ attempt port. ok 51820; bind_v6 = λ attempt port. ok port }

abbrev udp : UdpTransport
udp = record { port = 51820; ipv4_buf = 0; ipv6_buf = 0 }

bound : bind sockets 0 ≡ ok udp
unfolding bind bind_socket bind_tries bind_pair max_retry
bound = refl

abbrev arrivals : List Arrival
arrivals =
    on_v4 (v4 (10 ∷ 0 ∷ 0 ∷ 1 ∷ []) 80) (9 ∷ 9 ∷ []) ∷ on_v6 (v6 [] 80) (4 ∷ 0 ∷ 0 ∷ 0 ∷ []) ∷ []

inbound-bind_example : inbound udp arrivals ≡ seen arrivals
inbound-bind_example = inbound-bind sockets 0 udp arrivals bound

abbrev device : DeviceInner Range (Range → Option (List ℕ))
device = new_device ranges stand_in (new_list ranges stand_in 7) alice 0

abbrev around : Surroundings Range (Range → Option (List ℕ))
around = record {
  others = λ step inner. inner;
  sender = λ addr. 5;
  now = λ step. step;
  nonce = λ step. [];
  fresh = λ step. [];
}

loop_inbound-v6_example :
    loop_inbound ranges stand_in around 0 device (
      inbound udp (
        on_v4 (v4 (10 ∷ 0 ∷ 0 ∷ 1 ∷ []) 80) (9 ∷ 9 ∷ []) ∷ []
        ++ on_v6 (v6 [] 80) (4 ∷ 0 ∷ 0 ∷ 0 ∷ []) ∷ []))
    ≡ panic
loop_inbound-v6_example =
    loop_inbound-v6 ranges stand_in around device sockets 0 udp
      (on_v4 (v4 (10 ∷ 0 ∷ 0 ∷ 1 ∷ []) 80) (9 ∷ 9 ∷ []) ∷ []) [] (v6 [] 80) (4 ∷ 0 ∷ 0 ∷ 0 ∷ [])
      bound tt
