-- ===== src/Daemon/Joining.antt =====
-- How a device joins its network: the head server's configuration, what the daemon makes of it, and the
-- message with which it enters.
use vlink.Prelude.{ℕ, ◌%◌, ◌^◌, get_or, List, [], ◌∷◌, some, ◌≡◌, sym, ap, ◌∙◌}
use vlink.Outcome.{ok, ok_inj, bind-eq-ok}
use vlink.Head.{BcPeerEnter, RespConfig, VlinkNetwork, Delivery, resp_config, lookup}
use vlink.Head.Address.{show_ip}
use vlink.Head.Joined.{HasAddress, IsJoined, execute_config-IsConfigured, execute_enter-IsJoined}
use vlink.Head.Clients.{Rows, Server}
use vlink.Head.Reach.{Reach, Reach-IsSound}
use vlink.Head.Requests.{ClientRequest, PeerEnter, ToServerData, config_request, execute_enter}
use vlink.Head.Config.{Database}
use vlink.Head.Dispatch.{dispatch, process}
use vlink.Cidr.{Networks}
use vlink.Daemon.{Crates, bad_network, ArgConfig, DeviceConfig, NetworkConfig}
use vlink.Daemon.Config.{
  try_option, add_peer, bc_peer_enter2peer_config, add_peers, config_of_resp, request_for_config,
}
use vlink.Daemon.Events.{Statuses, known_endpoints, handler_connected}

module _ {Net Table : Type 0} (n : Networks Net Table) (crates : Crates) where
  add_peers-address :
      (cfg done : DeviceConfig Net) (ps : List BcPeerEnter)
      → add_peers n crates cfg ps ≡ ok done
      → done.address ≡ cfg.address
  unfolding add_peers add_peer
  add_peers-address cfg done [] h = ap (λ (c : DeviceConfig Net). c.address) (sym (ok_inj h))
  add_peers-address cfg done (p ∷ ps) h =
      let (c, e, rest) = bind-eq-ok (bc_peer_enter2peer_config n crates p) _ h in
      add_peers-address (add_peer cfg c) done ps rest

  config_of_resp-address :
      (private_key : List ℕ) (args : ArgConfig) (resp : RespConfig) (cfg : NetworkConfig Net)
      → config_of_resp n crates private_key args resp ≡ ok cfg
      → cfg.device_config.address ≡ resp.address
  unfolding config_of_resp
  config_of_resp-address private_key args resp cfg h =
      let (network, e, rest) =
        bind-eq-ok (try_option bad_network (crates.new_network resp.network (resp.mask % 2 ^ 8))) _
          h in
      let (device, f, made) = bind-eq-ok (add_peers n crates _ resp.peers) _ rest in
      ap (λ (c : NetworkConfig Net). c.device_config.address) (sym (ok_inj made))
      ∙ add_peers-address _ device resp.peers f

  -- A device that runs on the configuration that it made, with the address that its tun device says, has
  -- this message to enter.
  abbrev pub entering : NetworkConfig Net → ℕ → Statuses → ToServerData
  entering cfg port statuses =
      handler_connected cfg.arg_config (crates.tun_address cfg.device_config.address) port statuses

  -- In every server that a new one reaches by the steps of its clients: where it answers the request
  -- of a client for a configuration, the daemon makes its own of the answer, and its tun device
  -- takes the address of it, then the message with which the daemon enters succeeds behind it,
  -- whatever port and endpoints it names, and the peer of the client's key is online with that
  -- address.
  pub process-IsJoined :
      {s : Server} (rows : Rows) (db : Database) (id : ℕ) (net after : VlinkNetwork)
      (ctx again : ClientRequest) (answer : Delivery) (private_key : List ℕ) (args : ArgConfig)
      (cfg : NetworkConfig Net) (port : ℕ) (statuses : Statuses)
      → Reach rows db s
      → s.networks id ≡ some net
      → dispatch db net ctx config_request ≡ (after, ok (answer ∷ []))
      → request_for_config n crates private_key args answer.body ≡ ok cfg
      → crates.tun_address cfg.device_config.address ≡ cfg.device_config.address
      → again.pub_key ≡ ctx.pub_key
      → (sent : List Delivery) × ((dispatch db after again (entering cfg port statuses)).1
          ≡ ok sent)
        × IsJoined
            (process db after again (entering cfg port statuses)).0
            ctx.pub_key
            (show_ip cfg.device_config.address)
  unfolding dispatch process request_for_config handler_connected
  process-IsJoined rows db id net after ctx again answer private_key args cfg port statuses reached
        there answered made taken same =
      let keyed = (Reach-IsSound rows db reached id net there).1 in
      let configured = execute_config-IsConfigured db net ctx after (answer ∷ []) keyed answered in
      let body : answer.body ≡ resp_config configured.resp =
        ap (λ (xs : List Delivery). (get_or xs 0 answer).body) configured.body in
      let read = ap (request_for_config n crates private_key args) (sym body) ∙ made in
      let address = config_of_resp-address private_key args configured.resp cfg read in
      let tun : show_ip (crates.tun_address cfg.device_config.address)
          ≡ show_ip cfg.device_config.address =
        ap show_ip taken in
      let entry : PeerEnter = record {
        ip = show_ip (crates.tun_address cfg.device_config.address);
        endpoint_addr = cfg.arg_config.endpoint_addr;
        port = port;
        extra_endpoints = known_endpoints statuses;
      } in
      let has : HasAddress after again.pub_key entry.ip = record {
        peer = configured.address.peer;
        known = ap (lookup after.peers) same ∙ configured.address.known;
        held = configured.address.held ∙ ap some (ap show_ip (sym address) ∙ sym tun);
      } in
      let (sent, went, joined) = execute_enter-IsJoined after again entry has in
      let peers = (execute_enter after again entry).0.peers in
      (
        sent,
        went,
        record {
          peer = joined.peer;
          known = ap (lookup peers) (sym same) ∙ joined.known;
          held = joined.held ∙ ap some tun;
          online = joined.online;
        },
      )
