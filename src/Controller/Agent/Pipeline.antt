-- ===== src/Controller/Agent/Pipeline.antt =====
-- The service account pipeline as a whole: transformation, collection, sink and server-side apply.
use agentic_platform.Prelude.{
  [], true, ◌≡◌, ◌≢◌, refl, ap, sym, ◌∙◌, Option-cases, some-eq-some, inl, inr, none, some, List,
  ◌∷◌, ◌++◌, All,
}
use agentic_platform.Kubernetes.{Machinery}
use agentic_platform.Api.Agent.{MyceliumAgent}
use agentic_platform.Controller.Client.{
  ApplyConfiguration, service_account_kind, ObjectKey, Client, ServerSideApply,
}
use agentic_platform.Controller.Collection.{derive, derive-split, All-derive}
use agentic_platform.Controller.Sink.{Event, World}
use agentic_platform.Controller.Sink.Batch.{written, send_all}
use agentic_platform.Controller.Sink.Converges.{handle_batch-last, handle_batch-other}
use agentic_platform.Controller.Agent.{
  AgentServiceAccount, agent_service_account, agent_service_account_field_manager,
  service_account_writes, agent_service_account_sink, apply_agent_service_account,
}

module _ (k : Machinery) where
  -- The service account of an agent has its name and its namespace.
  abbrev pub key_of_agent : MyceliumAgent k → ObjectKey
  key_of_agent agent = record {
    kind = service_account_kind;
    namespace = k.namespace agent.object_meta;
    name = k.name agent.object_meta;
  }

  -- The service account of an agent: it has its name and namespace, it is owned by it, and it has two
  -- labels.
  abbrev pub asked_service_account : MyceliumAgent k → ApplyConfiguration
  asked_service_account agent = record {
    key = key_of_agent agent;
    owner_references =
        record {
          api_version =
              k.group_version_to_string (record { group = "mycelium.io"; version = "v1alpha1" });
          kind = "MyceliumAgent";
          name = k.name agent.object_meta;
          uid = k.uid agent.object_meta;
          controller = true;
          block_owner_deletion = true;
        }
        ∷ [];
    labels =
        ("mycelium.io/agent", k.name agent.object_meta)
        ∷ ("app.kubernetes.io/managed-by", "mycelium.io/mycelium")
        ∷ [];
  }

  -- The entry of an agent that is not being deleted.
  abbrev pub entry : MyceliumAgent k → AgentServiceAccount
  entry agent = record {
    agent_name = k.name agent.object_meta;
    agent_namespace = k.namespace agent.object_meta;
    agent_uid = k.uid agent.object_meta;
  }

  pub agent_service_account-entry :
      (agent : MyceliumAgent k)
      → k.deletion_timestamp agent.object_meta ≡ none
      → agent_service_account k agent ≡ some (entry agent)
  unfolding agent_service_account
  agent_service_account-entry agent e = rw (e, agent_service_account) refl

  agent_service_account-deleting :
      (agent : MyceliumAgent k) (t : k.Time)
      → k.deletion_timestamp agent.object_meta ≡ some t
      → agent_service_account k agent ≡ none
  unfolding agent_service_account
  agent_service_account-deleting agent t e = rw (e, agent_service_account) refl

  -- An entry comes from an agent that is not being deleted, and carries its names.
  pub agent_service_account-some :
      (agent : MyceliumAgent k) (o : AgentServiceAccount)
      → agent_service_account k agent ≡ some o
      → (k.deletion_timestamp agent.object_meta ≡ none) × (o ≡ entry agent)
  agent_service_account-some agent o e =
      elim (Option-cases (k.deletion_timestamp agent.object_meta)) [
        | inl live ↦ (live, some-eq-some (sym e ∙ agent_service_account-entry agent live))
        | inr (t, deleting) ↦ cc (agent_service_account-deleting agent t deleting)
      ]

  pub key_of_entry :
      (agent : MyceliumAgent k) (o : AgentServiceAccount)
      → agent_service_account k agent ≡ some o
      → (apply_agent_service_account k o).desired.key ≡ key_of_agent agent
  unfolding apply_agent_service_account
  key_of_entry agent o e =
      ap (λ x. (apply_agent_service_account k x).desired.key)
        (agent_service_account-some agent o e).1

  module _ (c : Client) (ssa : ServerSideApply c) where
    -- Agents `before ++ agent ∷ after` are what the root collection holds, and the batch writes the
    -- entries derived from them. If `agent` is not being deleted, no other agent behind it has its
    -- name and namespace, and the apply for it succeeds, then behind the batch the server holds the
    -- service account of `agent` in its namespace, with an owner reference to it and the two
    -- labels, whatever else failed.
    pub agent_service_account_sink-ensures :
        (es : List (Event AgentServiceAccount)) (s : World c) (before : List (MyceliumAgent k))
        (agent : MyceliumAgent k) (after : List (MyceliumAgent k))
        → written es ≡ derive (agent_service_account k) (before ++ agent ∷ after)
        → k.deletion_timestamp agent.object_meta ≡ none
        → All (λ y. key_of_agent y ≢ key_of_agent agent) after
        → (c.apply (apply_agent_service_account k (entry agent)) (
            send_all
              (service_account_writes k c)
              (derive (agent_service_account k) before)
              s.server)).0
          ≡ none
        → ssa.applied
            (agent_service_account_sink k c es s).server
            agent_service_account_field_manager
            (key_of_agent agent)
          ≡ some (asked_service_account agent)
    unfolding agent_service_account_sink apply_agent_service_account
    agent_service_account_sink-ensures es s before agent after e live keys ok =
        handle_batch-last ssa (service_account_writes k c) agent_service_account_field_manager es s
          (derive (agent_service_account k) before) (entry agent)
          (derive (agent_service_account k) after)
          (e
            ∙ derive-split (agent_service_account k) before agent after (entry agent)
                (agent_service_account-entry agent live))
          refl refl ok
          (All-derive (agent_service_account k) (λ y. key_of_agent y ≢ key_of_agent agent) _
            (λ y o q ne same. ne (sym (key_of_entry y o q) ∙ same)) after keys)

    -- If every agent of the root collection with the key `x` is being deleted, a batch that writes
    -- the derived entries leaves the service account `x` as it is on the server.
    pub agent_service_account_sink-ignores :
        (es : List (Event AgentServiceAccount)) (s : World c) (agents : List (MyceliumAgent k))
        (x : ObjectKey)
        → written es ≡ derive (agent_service_account k) agents
        → All (λ y. k.deletion_timestamp y.object_meta ≡ none → key_of_agent y ≢ x) agents
        → ssa.applied
            (agent_service_account_sink k c es s).server
            agent_service_account_field_manager
            x
          ≡ ssa.applied s.server agent_service_account_field_manager x
    unfolding agent_service_account_sink
    agent_service_account_sink-ignores es s agents x e h =
        handle_batch-other ssa (service_account_writes k c) agent_service_account_field_manager x es
          s
          (rw e (
            All-derive (agent_service_account k)
              (λ y. k.deletion_timestamp y.object_meta ≡ none → key_of_agent y ≢ x) _
              (λ y o q ne same.
                ne (agent_service_account-some y o q).0 (sym (key_of_entry y o q) ∙ same))
              agents h))
