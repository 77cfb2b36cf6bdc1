-- ===== src/Api/Agent/Sharing.antt =====
-- What the copy of a `MyceliumAgent` shares with the original: `deep_copy_into_agent_status` leaves
-- the field `ServiceAccount` as `*out = *in` has set it.
use mathlib.Core.List.{append-nil}
use agentic_platform.Prelude.{
  ℕ, ◌≡◌, ◌≢◌, refl, ap, subst, ◌∙◌, List, [], ◌∷◌, ◌++◌, All, All-append_right,
}
use agentic_platform.Memory.{slice}
use agentic_platform.Memory.Fresh.{Fresh}
use agentic_platform.Memory.Copies.{CopyOf, CopyOf-append, Apart, copy_slice-IsDeepCopy}
use agentic_platform.Kubernetes.{Machinery}
use agentic_platform.Api.Status.{base_located, reference_located}
use agentic_platform.Api.Status.DeepCopy.{deep_copy_into_base-IsDeepCopy}
use agentic_platform.Api.Agent.{
  MyceliumAgent, MyceliumAgentStatus, agent_located, agent_spec_located, agent_status_located,
  tool_binding_status_located,
}
use agentic_platform.Api.Agent.DeepCopy.{
  deep_copy_into_agent_status, deep_copy_into_agent, deep_copy_into_agent_spec-IsDeepCopy,
  deep_copy_into_tool_binding_status, deep_copy_into_tool_binding_status-IsDeepCopy,
}

module _ (k : Machinery) where
  -- The storage of a status outside the field `ServiceAccount`.
  abbrev pub status_locs : MyceliumAgentStatus k → List ℕ
  status_locs s =
      (base_located k).locs s.base ++ (slice (tool_binding_status_located k)).locs s.tool_bindings

  pub record StatusCopy (s : MyceliumAgentStatus k) (n : ℕ) (r : MyceliumAgentStatus k × ℕ)
      : Type 0 where
    pub same : (agent_status_located k).plain r.0 ≡ (agent_status_located k).plain s
    pub kept : r.0.service_account ≡ s.service_account
    pub fresh : Fresh n (status_locs r.0) r.1

  pub deep_copy_into_agent_status-StatusCopy :
      (s : MyceliumAgentStatus k) (n : ℕ) → StatusCopy s n (deep_copy_into_agent_status k s n)
  unfolding deep_copy_into_agent_status
  deep_copy_into_agent_status-StatusCopy s n =
      let b = deep_copy_into_base-IsDeepCopy k s.base n in
      let t =
        copy_slice-IsDeepCopy (tool_binding_status_located k) (deep_copy_into_tool_binding_status k)
          (deep_copy_into_tool_binding_status-IsDeepCopy k) s.tool_bindings _ in
      record { same = rw (b.same, t.same) refl; kept = refl; fresh = CopyOf-append b _ _ t.fresh }

  -- The storage of an agent outside the field `Status.ServiceAccount`.
  abbrev pub agent_locs : MyceliumAgent k → List ℕ
  agent_locs a =
      k.object_meta.located.locs a.object_meta
      ++ (agent_spec_located.locs a.spec ++ status_locs a.status)

  pub record AgentCopy (a : MyceliumAgent k) (n : ℕ) (r : MyceliumAgent k × ℕ) : Type 0 where
    pub same : (agent_located k).plain r.0 ≡ (agent_located k).plain a
    pub kept : r.0.status.service_account ≡ a.status.service_account
    pub fresh : Fresh n (agent_locs r.0) r.1

  -- For every agent: its copy reads as the agent does, all storage in the copy outside
  -- `Status.ServiceAccount` is newly allocated, and `Status.ServiceAccount` is that of the agent,
  -- with the same addresses.
  pub deep_copy_into_agent-AgentCopy :
      (a : MyceliumAgent k) (n : ℕ) → AgentCopy a n (deep_copy_into_agent k a n)
  unfolding deep_copy_into_agent
  deep_copy_into_agent-AgentCopy a n =
      let m = k.object_meta.deep_copy_into-IsDeepCopy a.object_meta n in
      let s = deep_copy_into_agent_spec-IsDeepCopy a.spec _ in
      let t = deep_copy_into_agent_status-StatusCopy a.status _ in
      record {
        same = rw (m.same, s.same, t.same) refl;
        kept = t.kept;
        fresh = CopyOf-append m _ _ (CopyOf-append s _ _ t.fresh);
      }

  All-service_account :
      (P : ℕ → Type 0) (a : MyceliumAgent k)
      → All P ((agent_located k).locs a)
      → All P ((reference_located k).locs a.status.service_account)
  All-service_account P a h = All-append_right P (status_locs a.status) _ (
      All-append_right P (agent_spec_located.locs a.spec) _
        (All-append_right P (k.object_meta.located.locs a.object_meta) _ h))

  All-head : (P : ℕ → Type 0) (ys : List ℕ) (x : ℕ) (xs : List ℕ) → ys ≡ x ∷ xs → All P ys → P x
  All-head P [] x xs e h = cc
  All-head P (y ∷ ys) x xs e h = subst P (cc) h.0

  -- Where the agent's `Status.ServiceAccount` holds storage (a reference or conditions), the copy
  -- shares storage with the agent.
  pub deep_copy_into_agent-shares :
      (a : MyceliumAgent k) (n x : ℕ) (xs : List ℕ)
      → (reference_located k).locs a.status.service_account ≡ x ∷ xs
      → ¬ Apart ((agent_located k).locs (deep_copy_into_agent k a n).0) ((agent_located k).locs a)
  deep_copy_into_agent-shares a n x xs e h =
      let r = (deep_copy_into_agent k a n).0 in
      let kept = deep_copy_into_agent-AgentCopy a n in
      let row =
        All-head (λ p. All (λ q. p ≢ q) ((agent_located k).locs a)) _ x xs
          (ap (reference_located k).locs kept.kept ∙ e) (All-service_account _ r h) in
      All-head (λ q. x ≢ q) _ x xs e (All-service_account _ a row) refl

  -- Where the agent's `Status.ServiceAccount` holds no storage, the copy reads as the agent does and
  -- all of its storage is newly allocated.
  pub deep_copy_into_agent-CopyOf :
      (a : MyceliumAgent k) (n : ℕ)
      → (reference_located k).locs a.status.service_account ≡ []
      → CopyOf (agent_located k) a n (deep_copy_into_agent k a n)
  deep_copy_into_agent-CopyOf a n e =
      let c = deep_copy_into_agent-AgentCopy a n in
      record {
        same = c.same;
        fresh = rw (ap (reference_located k).locs c.kept ∙ e, append-nil) c.fresh;
      }
