-- ===== src/Controller/Sink/Converges.antt =====
-- What the server holds behind a batch.
use agentic_platform.Prelude.{
  ◌≡◌, ◌≢◌, refl, subst, ◌∙◌, String, true, none, some, List, [], ◌∷◌, ◌++◌, All,
}
use agentic_platform.Controller.Client.{ObjectKey, Client, ServerSideApply}
use agentic_platform.Controller.Sink.{Event, World, Writes, handle_batch}
use agentic_platform.Controller.Sink.Batch.{written, send_all, handle_batch_lem, send_all-append}

module _ {c : Client} {O : Type 0} (ssa : ServerSideApply c) (w : Writes c O) (m : String) where
  -- The object that a value is written to.
  abbrev pub key_of : O → ObjectKey
  key_of x = (w.request x).desired.key

  -- Requests for other objects leave an object alone.
  pub send_all-other :
      (x : ObjectKey) (ys : List O) (s : c.Server)
      → All (λ y. key_of y ≢ x) ys
      → ssa.applied (send_all w ys s) m x ≡ ssa.applied s m x
  send_all-other x [] s h = refl
  send_all-other x (y ∷ ys) s h =
      send_all-other x ys _ h.1 ∙ ssa.applied-apply_other (w.request y) s m x h.0

  -- An object that no addition and no update of the batch is about is left alone.
  pub handle_batch-other :
      (x : ObjectKey) (es : List (Event O)) (s : World c)
      → All (λ y. key_of y ≢ x) (written es)
      → ssa.applied (handle_batch w es s).server m x ≡ ssa.applied s.server m x
  handle_batch-other x es s h =
      rw (handle_batch_lem w es s) (send_all-other x (written es) s.server h)

  -- If the request for `x` succeeds, and no later value of the batch is for the same object, then
  -- `x` is what the server holds behind the batch, also if other requests fail.
  pub handle_batch-last :
      (es : List (Event O)) (s : World c) (before : List O) (x : O) (after : List O)
      → written es ≡ before ++ x ∷ after
      → (w.request x).field_owner ≡ m
      → (w.request x).force_ownership ≡ true
      → (c.apply (w.request x) (send_all w before s.server)).0 ≡ none
      → All (λ y. key_of y ≢ key_of x) after
      → ssa.applied (handle_batch w es s).server m (key_of x) ≡ some (w.request x).desired
  handle_batch-last es s before x after e owner force ok h =
      rw (handle_batch_lem w es s, e, send_all-append w before (x ∷ after) s.server)
        (send_all-other (key_of x) after _ h
          ∙ subst
              (λ n.
                ssa.applied (c.apply (w.request x) (send_all w before s.server)).1 n (key_of x)
                ≡ some (w.request x).desired)
              owner (ssa.applied-apply_ok (w.request x) (send_all w before s.server) ok force))
