-- ===== src/Controller/Sink.antt =====
-- The loop over a batch of events that both sinks run: registerNamespaceSink of ecosystem.go and
-- registerAgentServiceAccountSink of agent.go differ in the object that they apply and in the line
-- that they print.
pub mod Batch
pub mod Converges
use agentic_platform.Prelude.{String, Option, none, some, List, [], ◌∷◌, ◌++◌}
use agentic_platform.Controller.Client.{Client, Request}

-- krt.Event: an added value, an old and a new value, a deleted value.
pub data Event (O : Type 0) : Type 0 where
  event_add : O → Event O
  event_update : O → O → Event O
  event_delete : O → Event O

-- What a sink writes to: the server, and standard output, the last line first.
pub record World (c : Client) : Type 0 where
  pub server : c.Server
  pub output : List String

-- What a sink does for a value: the request for it, and the line for an error.
pub record Writes (c : Client) (O : Type 0) : Type 0 where
  pub request : O → Request
  pub failure : O → c.Error → String

module _ {c : Client} {O : Type 0} (w : Writes c O) where
  -- `if err := apply…(ctx, ssaClient, &x); err != nil { fmt.Printf(…) }`
  abbrev pub report : O → Option c.Error → List String → List String
  report x none out = out
  report x (some e) out = w.failure x e ∷ out

  pub write : O → World c → World c
  write x s =
      let (err, server) = c.apply (w.request x) s.server in
      record { server = server; output = report x err s.output }

  -- The body of the loop: nothing for a deletion; `e.Latest()` for the others is the new value.
  pub handle : Event O → World c → World c
  handle (event_delete old) s = s
  handle (event_add new) s = write new s
  handle (event_update old new) s = write new s

  pub handle_batch : List (Event O) → World c → World c
  handle_batch [] s = s
  handle_batch (e ∷ es) s = handle_batch es (handle e s)
