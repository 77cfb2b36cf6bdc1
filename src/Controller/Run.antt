-- ===== src/Controller/Run.antt =====
-- The controller as it runs: changes of resources come one after the other, krt derives the entry of
-- the changed resource anew and hands what changed to the sink.
pub mod Converges
use agentic_platform.Prelude.{
  ◌≡◌, ◌≢◌, true, Option, none, some, List, [], ◌∷◌, if◌then◌else◌, String,
}
use agentic_platform.Controller.Client.{ApplyConfiguration, ObjectKey, Client, ServerSideApply}
use agentic_platform.Controller.Keys.{key_eq}
use agentic_platform.Controller.Sink.{Event, World, Writes, handle_batch}
use agentic_platform.Controller.Sink.Batch.{written}

-- What a derived collection of krt (istio.io/istio/pkg/kube/krt) is documented to emit for a resource
-- with the old and the new entry given, `none` for no entry: a deletion at most where there is no new
-- entry, nothing where both are equal, and else the new entry, once.
pub record Krt (O : Type 0) : Type 0 where
  pub emit : Option O → Option O → List (Event O)
  pub written-emit-none : (old : Option O) → written (emit old none) ≡ []
  pub written-emit-same : (o : O) → written (emit (some o) (some o)) ≡ []
  pub written-emit-new :
      (old : Option O) (o : O) → old ≢ some o → written (emit old (some o)) ≡ o ∷ []

-- A reconciler from resources of type `I` over entries of type `O` to objects.
pub record Reconciler (c : Client) (I O : Type 0) : Type 0 where
  pub transform : I → Option O
  pub sink : List (Event O) → World c → World c
  pub writes : Writes c O
  pub sink_eq : (es : List (Event O)) (s : World c) → sink es s ≡ handle_batch writes es s
  -- The object of a resource.
  pub object : I → ObjectKey
  pub object-transform :
      (x : I) (o : O) → transform x ≡ some o → (writes.request o).desired.key ≡ object x
  pub manager : String
  pub manager_eq : (o : O) → (writes.request o).field_owner ≡ manager
  pub forces : (o : O) → (writes.request o).force_ownership ≡ true
  pub dec_entry : (a b : O) → Dec (a ≡ b)

module _ {c : Client} {I O : Type 0} (ssa : ServerSideApply c) (p : Reconciler c I O)
    (krt : Krt O) where
  -- The resources, by their objects, and what the sink writes to.
  pub record State : Type 0 where
    pub resources : ObjectKey → Option I
    pub world : World c

  -- A resource is created or changed, or it is gone.
  pub data Change : Type 0 where
    stored : I → Change
    gone : ObjectKey → Change

  abbrev pub changed : Change → ObjectKey
  changed (stored x) = p.object x
  changed (gone k) = k

  abbrev pub resource : Change → Option I
  resource (stored x) = some x
  resource (gone k) = none

  abbrev pub derived : Option I → Option O
  derived none = none
  derived (some x) = p.transform x

  unfoldable pub step : Change → State → State
  step ch s = record {
    resources = λ k. if key_eq k (changed ch) then resource ch else s.resources k;
    world = p.sink (krt.emit (derived (s.resources (changed ch))) (derived (resource ch))) s.world;
  }

  pub data Reach (s : State) : State → Type 0 where
    here : Reach s s
    next : {u : State} (ch : Change) → Reach s u → Reach s (step ch u)

  -- What the server holds of the pipeline's field manager.
  abbrev pub held : State → ObjectKey → Option ApplyConfiguration
  held s k = ssa.applied s.world.server p.manager k
