-- ===== src/Controller/Ecosystem/Runs.antt =====
-- The namespace pipeline over time: what the server holds behind any changes of ecosystems.
use agentic_platform.Prelude.{◌≡◌, refl, ap, ap₂, ◌∙◌, String, true, none, some, List, dec_string}
use agentic_platform.Kubernetes.{Machinery}
use agentic_platform.Api.Ecosystem.{MyceliumEcosystem}
use agentic_platform.Controller.Client.{Client, ServerSideApply}
use agentic_platform.Controller.Sink.{Event, World, handle_batch}
use agentic_platform.Controller.Run.{Krt, Reconciler, State, stored, derived, step, Reach}
use agentic_platform.Controller.Run.Converges.{IsAccepted, Reach-IsSettled, step-unchanged}
use agentic_platform.Controller.Ecosystem.{
  EcosystemNamespace, ecosystem_namespace, ecosystem_namespace_field_manager, namespace_writes,
  namespace_sink, apply_ecosystem_namespace,
}
use agentic_platform.Controller.Ecosystem.Pipeline.{
  asked_namespace, name_of, namespace_key, entry, ecosystem_namespace-entry,
  ecosystem_namespace-name,
}

pub dec_entry : (a b : EcosystemNamespace) → Dec (a ≡ b)
dec_entry a b = elim (dec_string a.ecosystem_name b.ecosystem_name) [
  | no n ↦ no (λ e. n (ap (λ x. x.ecosystem_name) e))
  | yes p ↦ elim (dec_string a.ecosystem_uid b.ecosystem_uid) [
    | no n ↦ no (λ e. n (ap (λ x. x.ecosystem_uid) e))
    | yes q ↦ yes (ap₂ (λ x y. record { ecosystem_name = x; ecosystem_uid = y }) p q)
  ]
]

module _ (k : Machinery) (c : Client) where
  pub object_of :
      (x : MyceliumEcosystem k) (o : EcosystemNamespace)
      → ecosystem_namespace k x ≡ some o
      → ((namespace_writes k c).request o).desired.key ≡ namespace_key k (name_of k x)
  unfolding apply_ecosystem_namespace
  object_of x o e = ap (namespace_key k) (ecosystem_namespace-name k x o e)

  pub namespace_sink_lem :
      (es : List (Event EcosystemNamespace)) (s : World c)
      → namespace_sink k c es s ≡ handle_batch (namespace_writes k c) es s
  unfolding namespace_sink
  namespace_sink_lem es s = refl

  pub manager_of :
      (o : EcosystemNamespace)
      → ((namespace_writes k c).request o).field_owner ≡ ecosystem_namespace_field_manager
  unfolding apply_ecosystem_namespace
  manager_of o = refl

  pub forced : (o : EcosystemNamespace) → ((namespace_writes k c).request o).force_ownership ≡ true
  unfolding apply_ecosystem_namespace
  forced o = refl

  abbrev pub reconciler : Reconciler c (MyceliumEcosystem k) EcosystemNamespace
  reconciler = record {
    transform = ecosystem_namespace k;
    sink = namespace_sink k c;
    writes = namespace_writes k c;
    sink_eq = namespace_sink_lem;
    object = λ x. namespace_key k (name_of k x);
    object-transform = object_of;
    manager = ecosystem_namespace_field_manager;
    manager_eq = manager_of;
    forces = forced;
    dec_entry = dec_entry;
  }

  module _ (ssa : ServerSideApply c) (krt : Krt EcosystemNamespace) where
    -- Before anything is watched.
    abbrev pub unwatched : World c → State ssa reconciler krt
    unwatched w = record { resources = λ x. none; world = w }

    -- Behind every sequence of changes of ecosystems, from none: if the ecosystem that is stored under
    -- a name is not being deleted, and the server takes each request for the namespace of that name,
    -- then the server holds that namespace, with an owner reference to the ecosystem and the two labels,
    -- whatever it refuses for others.
    pub ecosystem_runs-ensure :
        (w : World c) (u : State ssa reconciler krt) (n : String) (eco : MyceliumEcosystem k)
        → Reach ssa reconciler krt (unwatched w) u
        → IsAccepted ssa reconciler krt (namespace_key k n)
        → u.resources (namespace_key k n) ≡ some eco
        → k.deletion_timestamp eco.object_meta ≡ none
        → ssa.applied u.world.server ecosystem_namespace_field_manager (namespace_key k n)
          ≡ some (asked_namespace k eco)
    unfolding apply_ecosystem_namespace
    ecosystem_runs-ensure w u n eco r accepted is live =
        (Reach-IsSettled ssa reconciler krt (unwatched w) u (namespace_key k n) accepted r
            (record { keyed = λ x e. cc; holds = λ x o e t. cc })).holds
          eco (entry k eco) is (ecosystem_namespace-entry k eco live)

    -- If a live ecosystem is stored again with the same name and UID, nothing is sent and nothing is
    -- printed, also where the apply for it has failed before.
    pub ecosystem_runs-resend_nothing :
        (s : State ssa reconciler krt) (old eco : MyceliumEcosystem k)
        → s.resources (namespace_key k (name_of k eco)) ≡ some old
        → k.deletion_timestamp old.object_meta ≡ none
        → k.deletion_timestamp eco.object_meta ≡ none
        → entry k old ≡ entry k eco
        → (step ssa reconciler krt (stored eco) s).world ≡ s.world
    ecosystem_runs-resend_nothing s old eco is live_old live same =
        step-unchanged ssa reconciler krt eco (entry k eco) s (ecosystem_namespace-entry k eco live)
          (ap (derived ssa reconciler krt) is
            ∙ ecosystem_namespace-entry k old live_old
            ∙ ap some same)
