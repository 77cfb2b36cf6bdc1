-- ===== src/Controller/Agent/Runs.antt =====
-- The service account pipeline over time: what the server holds behind any changes of agents.
use agentic_platform.Prelude.{◌≡◌, refl, ap, true, none, some, List, dec_string}
use agentic_platform.Kubernetes.{Machinery}
use agentic_platform.Api.Agent.{MyceliumAgent}
use agentic_platform.Controller.Client.{ObjectKey, Client, ServerSideApply}
use agentic_platform.Controller.Sink.{Event, World, handle_batch}
use agentic_platform.Controller.Run.{Krt, Reconciler, State, Reach}
use agentic_platform.Controller.Run.Converges.{IsAccepted, Reach-IsSettled}
use agentic_platform.Controller.Agent.{
  AgentServiceAccount, agent_service_account, agent_service_account_field_manager,
  service_account_writes, agent_service_account_sink, apply_agent_service_account,
}
use agentic_platform.Controller.Agent.Pipeline.{
  asked_service_account, key_of_agent, key_of_entry, entry, agent_service_account-entry,
}

pub dec_entry : (a b : AgentServiceAccount) → Dec (a ≡ b)
dec_entry a b = elim (dec_string a.agent_name b.agent_name) [
  | no n ↦ no (λ e. n (ap (λ x. x.agent_name) e))
  | yes p ↦ elim (dec_string a.agent_namespace b.agent_namespace) [
    | no n ↦ no (λ e. n (ap (λ x. x.agent_namespace) e))
    | yes q ↦ elim (dec_string a.agent_uid b.agent_uid) [
      | no n ↦ no (λ e. n (ap (λ x. x.agent_uid) e))
      | yes r ↦ yes (λ i. record { agent_name = p i; agent_namespace = q i; agent_uid = r i })
    ]
  ]
]

module _ (k : Machinery) (c : Client) where
  pub object_of :
      (x : MyceliumAgent k) (o : AgentServiceAccount)
      → agent_service_account k x ≡ some o
      → ((service_account_writes k c).request o).desired.key ≡ key_of_agent k x
  object_of x o e = key_of_entry k x o e

  pub service_account_sink_lem :
      (es : List (Event AgentServiceAccount)) (s : World c)
      → agent_service_account_sink k c es s ≡ handle_batch (service_account_writes k c) es s
  unfolding agent_service_account_sink
  service_account_sink_lem es s = refl

  pub manager_of :
      (o : AgentServiceAccount)
      → ((service_account_writes k c).request o).field_owner ≡ agent_service_account_field_manager
  unfolding apply_agent_service_account
  manager_of o = refl

  pub forced :
      (o : AgentServiceAccount) → ((service_account_writes k c).request o).force_ownership ≡ true
  unfolding apply_agent_service_account
  forced o = refl

  abbrev pub reconciler : Reconciler c (MyceliumAgent k) AgentServiceAccount
  reconciler = record {
    transform = agent_service_account k;
    sink = agent_service_account_sink k c;
    writes = service_account_writes k c;
    sink_eq = service_account_sink_lem;
    object = key_of_agent k;
    object-transform = object_of;
    manager = agent_service_account_field_manager;
    manager_eq = manager_of;
    forces = forced;
    dec_entry = dec_entry;
  }

  module _ (ssa : ServerSideApply c) (krt : Krt AgentServiceAccount) where
    -- Before anything is watched.
    abbrev pub unwatched : World c → State ssa reconciler krt
    unwatched w = record { resources = λ x. none; world = w }

    -- Behind every sequence of changes of agents, from none: if the agent that is stored under a name
    -- and namespace is not being deleted, and the server takes each request for the service account
    -- of that name and namespace, then the server holds that service account, with an owner
    -- reference to the agent and the two labels, whatever it refuses for others.
    pub agent_runs-ensure :
        (w : World c) (u : State ssa reconciler krt) (x : ObjectKey) (agent : MyceliumAgent k)
        → Reach ssa reconciler krt (unwatched w) u
        → IsAccepted ssa reconciler krt x
        → u.resources x ≡ some agent
        → k.deletion_timestamp agent.object_meta ≡ none
        → ssa.applied u.world.server agent_service_account_field_manager x
          ≡ some (asked_service_account k agent)
    unfolding apply_agent_service_account
    agent_runs-ensure w u x agent r accepted is live =
        (Reach-IsSettled ssa reconciler krt (unwatched w) u x accepted r
            (record { keyed = λ y e. cc; holds = λ y o e t. cc })).holds
          agent (entry k agent) is (agent_service_account-entry k agent live)
