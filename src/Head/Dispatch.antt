-- ===== src/Head/Dispatch.antt =====
-- What the head server does with a request: headlink/src/client/dispatcher.rs and `process_client` of
-- client.rs.
use vlink.Prelude.{List, [], ◌∷◌, some}
use vlink.Outcome.{Outcome, ok, err, panic}
use vlink.Head.{VlinkNetwork, Delivery, client_error}
use vlink.Head.Requests.{
  ExecuteError, str_message, ClientRequest, Reply, ToServerData, enter_request, leave_request,
  forward_request, config_request, endpoint_request, complete_request, other_request, execute_enter,
  execute_leave, execute_forward, execute_complete, execute_endpoint,
}
use vlink.Head.Config.{Database, execute_config}

-- `Dispatcher::dispatch`
unfoldable pub dispatch : Database → VlinkNetwork → ClientRequest → ToServerData → Reply
dispatch db network ctx (enter_request entry) = execute_enter network ctx entry
dispatch db network ctx leave_request = execute_leave network ctx
dispatch db network ctx (forward_request reply target) = execute_forward network reply target
dispatch db network ctx config_request = execute_config db network ctx
dispatch db network ctx (endpoint_request proto endpoint) =
    execute_endpoint network ctx proto endpoint
dispatch db network ctx (complete_request target proto) = execute_complete network ctx target proto
dispatch db network ctx other_request = (network, err str_message)

-- A request of `process_client`: an error is answered.
abbrev pub answer : ClientRequest → Outcome ExecuteError (List Delivery) → List Delivery
answer ctx (ok sent) = sent
answer ctx (err e) = record { connect = ctx.connect; id = some ctx.id; body = client_error } ∷ []
answer ctx panic = []

unfoldable pub process :
    Database → VlinkNetwork → ClientRequest → ToServerData → VlinkNetwork × List Delivery
process db network ctx request =
    let reply = dispatch db network ctx request in (reply.0, answer ctx reply.1)
