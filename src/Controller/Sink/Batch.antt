-- ===== src/Controller/Sink/Batch.antt =====
-- What a batch of events does, whatever the applies return.
use agentic_platform.Prelude.{◌≡◌, refl, ap, ◌∙◌, String, Option, none, some, List, [], ◌∷◌, ◌++◌}
use agentic_platform.Controller.Client.{Client}
use agentic_platform.Controller.Sink.{
  Event, event_add, event_update, event_delete, World, Writes, report, write, handle, handle_batch,
}

-- The values that a batch asks to be written: those of additions and updates, in their order.
abbrev pub written : {O : Type 0} → List (Event O) → List O
written [] = []
written (event_delete old ∷ es) = written es
written (event_add new ∷ es) = new ∷ written es
written (event_update old new ∷ es) = new ∷ written es

module _ {c : Client} {O : Type 0} (w : Writes c O) where
  -- The server behind a list of requests, sent one after the other.
  abbrev pub send_all : List O → c.Server → c.Server
  send_all [] s = s
  send_all (x ∷ xs) s = send_all xs (c.apply (w.request x) s).1

  -- One line for an error, and none else.
  abbrev pub lines_for : O → Option c.Error → List String
  lines_for x none = []
  lines_for x (some e) = w.failure x e ∷ []

  -- The lines for the requests that fail, the last first, above the lines `out`.
  abbrev pub failures : List O → c.Server → List String → List String
  failures [] s out = out
  failures (x ∷ xs) s out =
      let (err, server) = c.apply (w.request x) s in failures xs server (lines_for x err ++ out)

  report-lines_for :
      (x : O) (err : Option c.Error) (out : List String)
      → report w x err out ≡ lines_for x err ++ out
  report-lines_for x none out = refl
  report-lines_for x (some e) out = refl

  handle_batch-write :
      (x : O) (es : List (Event O)) (s : World c)
      → handle_batch w es (write w x s) ≡ record {
        server = send_all (written es) (write w x s).server;
        output = failures (written es) (write w x s).server (write w x s).output;
      }
      → handle_batch w es (write w x s) ≡ record {
        server = send_all (x ∷ written es) s.server;
        output = failures (x ∷ written es) s.server s.output;
      }
  unfolding write
  handle_batch-write x es s h =
      h
      ∙ ap
          (λ out. record {
            server = send_all (x ∷ written es) s.server;
            output = failures (written es) (c.apply (w.request x) s.server).1 out;
          })
          (report-lines_for x (c.apply (w.request x) s.server).0 s.output)

  -- A batch sends one request for each addition and update, in their order and also behind one that
  -- fails, and no request for a deletion; a request that fails adds its line to the output, and
  -- nothing else is written there.
  pub handle_batch_lem :
      (es : List (Event O)) (s : World c)
      → handle_batch w es s ≡ record {
        server = send_all (written es) s.server;
        output = failures (written es) s.server s.output;
      }
  unfolding handle_batch handle
  handle_batch_lem [] s = refl
  handle_batch_lem (event_delete old ∷ es) s = handle_batch_lem es s
  handle_batch_lem (event_add new ∷ es) s =
      handle_batch-write new es s (handle_batch_lem es (write w new s))
  handle_batch_lem (event_update old new ∷ es) s =
      handle_batch-write new es s (handle_batch_lem es (write w new s))

  pub send_all-append :
      (xs ys : List O) (s : c.Server) → send_all (xs ++ ys) s ≡ send_all ys (send_all xs s)
  send_all-append [] ys s = refl
  send_all-append (x ∷ xs) ys s = send_all-append xs ys (c.apply (w.request x) s).1
