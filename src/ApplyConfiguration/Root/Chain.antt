-- ===== src/ApplyConfiguration/Root/Chain.antt =====
-- Chains of `With` calls on one receiver.
pub mod Identity
use mathlib.Core.List.{append_assoc, append-nil}
use agentic_platform.Prelude.{
  ◌≡◌, ◌≢◌, refl, sym, ap, ◌∙◌, String, Option, none, List, [], ◌∷◌, ◌++◌, All,
}
use agentic_platform.Prelude.Int.{ℤ}
use agentic_platform.ApplyConfiguration.{Outcome, returned, panicked, map_outcome, and_then}
use agentic_platform.ApplyConfiguration.Appends.{
  present, append_pointers-present, append_values_lem,
}
use agentic_platform.ApplyConfiguration.Root.{
  Types, Root, ensured, with_meta, with_kind, with_api_version, with_name, with_generate_name,
  with_namespace, with_uid, with_resource_version, with_generation, with_creation_timestamp,
  with_deletion_timestamp, with_deletion_grace_period_seconds, with_labels, with_annotations,
  with_owner_references, with_finalizers, with_spec, with_status,
}
use agentic_platform.ApplyConfiguration.Root.Metadata.{with_labels_lem, with_annotations_lem}

module _ (t : Types) where
  -- A call of one of the builders.
  pub data Call : Type 0 where
    kind api_version name generate_name namespace uid resource_version : String → Call
    generation deletion_grace_period_seconds : ℤ → Call
    creation_timestamp deletion_timestamp : t.Time → Call
    labels annotations : List (String × String) → Call
    owner_references : List (Option t.Owner) → Call
    finalizers : List String → Call
    spec : Option t.Spec → Call
    status : Option t.Status → Call

  pub call : Call → Root t → Outcome (Root t)
  call (kind v) b = returned (with_kind t v b)
  call (api_version v) b = returned (with_api_version t v b)
  call (name v) b = returned (with_name t v b)
  call (generate_name v) b = returned (with_generate_name t v b)
  call (namespace v) b = returned (with_namespace t v b)
  call (uid v) b = returned (with_uid t v b)
  call (resource_version v) b = returned (with_resource_version t v b)
  call (generation v) b = returned (with_generation t v b)
  call (creation_timestamp v) b = returned (with_creation_timestamp t v b)
  call (deletion_timestamp v) b = returned (with_deletion_timestamp t v b)
  call (deletion_grace_period_seconds v) b = returned (with_deletion_grace_period_seconds t v b)
  call (labels es) b = with_labels t es b
  call (annotations es) b = with_annotations t es b
  call (owner_references os) b = with_owner_references t os b
  call (finalizers fs) b = returned (with_finalizers t fs b)
  call (spec v) b = returned (with_spec t v b)
  call (status v) b = returned (with_status t v b)

  -- `b.With…(…).With…(…)`: a panic ends the chain.
  pub chain : List Call → Root t → Outcome (Root t)
  chain [] b = returned b
  chain (c ∷ cs) b = and_then (call c b) (chain cs)

  -- A call without a nil pointer among its owner references.
  abbrev pub HasNoNil : Call → Type 0
  HasNoNil (owner_references os) = All (λ o. o ≢ none) os
  HasNoNil _ = Unit

  abbrev pub owners_of : Call → List t.Owner
  owners_of (owner_references os) = present os
  owners_of _ = []

  abbrev pub finalizers_of : Call → List String
  finalizers_of (finalizers fs) = fs
  finalizers_of _ = []

  abbrev pub gather : {A : Type 0} → (Call → List A) → List Call → List A
  gather f [] = []
  gather f (c ∷ cs) = f c ++ gather f cs

  -- What a call or a chain does to the lists of the metadata when it returns.
  pub record Adds (o : Outcome (Root t)) (b : Root t) (os : List t.Owner) (fs : List String)
      : Type 0 where
    pub result : Root t
    pub returns : o ≡ returned result
    pub owners : (ensured t result).owner_references ≡ (ensured t b).owner_references ++ os
    pub finals : (ensured t result).finalizers ≡ (ensured t b).finalizers ++ fs

  plain :
      (o : Outcome (Root t)) (b r : Root t)
      → o ≡ returned r
      → (ensured t r).owner_references ≡ (ensured t b).owner_references
      → (ensured t r).finalizers ≡ (ensured t b).finalizers
      → Adds o b [] []
  plain o b r e p q = record {
    result = r;
    returns = e;
    owners = p ∙ sym (append-nil _);
    finals = q ∙ sym (append-nil _);
  }

  call-Adds :
      (c : Call) (b : Root t) → HasNoNil c → Adds (call c b) b (owners_of c) (finalizers_of c)
  unfolding call
  call-Adds (kind v) b h = plain _ b _ refl refl refl
  call-Adds (api_version v) b h = plain _ b _ refl refl refl
  call-Adds (name v) b h = plain _ b _ refl refl refl
  call-Adds (generate_name v) b h = plain _ b _ refl refl refl
  call-Adds (namespace v) b h = plain _ b _ refl refl refl
  call-Adds (uid v) b h = plain _ b _ refl refl refl
  call-Adds (resource_version v) b h = plain _ b _ refl refl refl
  call-Adds (generation v) b h = plain _ b _ refl refl refl
  call-Adds (creation_timestamp v) b h = plain _ b _ refl refl refl
  call-Adds (deletion_timestamp v) b h = plain _ b _ refl refl refl
  call-Adds (deletion_grace_period_seconds v) b h = plain _ b _ refl refl refl
  call-Adds (labels es) b h = plain _ b _ (with_labels_lem t es b) refl refl
  call-Adds (annotations es) b h = plain _ b _ (with_annotations_lem t es b) refl refl
  call-Adds (owner_references os) b h = record {
    result =
        with_meta t b (record (ensured t b) {
          owner_references = (ensured t b).owner_references ++ present os;
        });
    returns =
        ap (map_outcome (λ x. with_meta t b (record (ensured t b) { owner_references = x })))
          (append_pointers-present "WithOwnerReferences" os (ensured t b).owner_references h);
    owners = refl;
    finals = sym (append-nil _);
  }
  call-Adds (finalizers fs) b h = record {
    result = with_finalizers t fs b;
    returns = refl;
    owners = sym (append-nil _);
    finals = append_values_lem fs (ensured t b).finalizers;
  }
  call-Adds (spec v) b h = plain _ b _ refl refl refl
  call-Adds (status v) b h = plain _ b _ refl refl refl

  -- A chain whose owner references hold no nil pointer returns, and behind it the owner references
  -- and the finalizers are those of the receiver, followed by those of all calls in their order.
  pub chain-Adds :
      (cs : List Call) (b : Root t)
      → All HasNoNil cs
      → Adds (chain cs b) b (gather owners_of cs) (gather finalizers_of cs)
  unfolding chain
  chain-Adds [] b h = plain _ b _ refl refl refl
  chain-Adds (c ∷ cs) b h =
      let one = call-Adds c b h.0 in
      let rest = chain-Adds cs one.result h.1 in
      record {
        result = rest.result;
        returns = ap (λ o. and_then o (chain cs)) one.returns ∙ rest.returns;
        owners =
            rest.owners
            ∙ ap (λ x. x ++ gather owners_of cs) one.owners
            ∙ append_assoc (ensured t b).owner_references (owners_of c) (gather owners_of cs);
        finals =
            rest.finals
            ∙ ap (λ x. x ++ gather finalizers_of cs) one.finals
            ∙ append_assoc (ensured t b).finalizers (finalizers_of c) (gather finalizers_of cs);
      }
