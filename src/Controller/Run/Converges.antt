-- ===== src/Controller/Run/Converges.antt =====
-- What the server holds behind any sequence of changes.
use agentic_platform.Prelude.{
  ◌≡◌, ◌≢◌, refl, sym, ap, ◌∙◌, false, Option, none, some, List, [], ◌∷◌, All, Bool-cases,
  Option-cases, inl, inr, ◌⊎◌, subst, some-eq-some,
}
use agentic_platform.Controller.Client.{ObjectKey, Client, Request, ServerSideApply}
use agentic_platform.Controller.Keys.{key_eq, key_eq_iff}
use agentic_platform.Controller.Sink.{Event, World}
use agentic_platform.Controller.Sink.Batch.{written, handle_batch_lem}
use agentic_platform.Controller.Sink.Converges.{handle_batch-last, handle_batch-other}
use agentic_platform.Controller.Run.{
  Krt, Reconciler, State, Change, stored, gone, changed, resource, derived, step, Reach, here, next,
  held,
}

module _ {c : Client} {I O : Type 0} (ssa : ServerSideApply c) (p : Reconciler c I O)
    (krt : Krt O) where
  -- The server takes each request for an object.
  abbrev pub IsAccepted : ObjectKey → Type 0
  IsAccepted k = (r : Request) (s : c.Server) → r.desired.key ≡ k → (c.apply r s).0 ≡ none

  -- The resource for `k`, if there is one, is an object's, and the server holds what its entry asks.
  pub record IsSettled (k : ObjectKey) (s : State ssa p krt) : Type 0 where
    pub keyed : (x : I) → s.resources k ≡ some x → p.object x ≡ k
    pub holds :
        (x : I) (o : O)
        → s.resources k ≡ some x
        → p.transform x ≡ some o
        → held ssa p krt s k ≡ some (p.writes.request o).desired

  -- An event that writes nothing, or only objects other than `k`, leaves `k` alone.
  sink-other :
      (es : List (Event O)) (s : World c) (k : ObjectKey)
      → All (λ o. (p.writes.request o).desired.key ≢ k) (written es)
      → ssa.applied (p.sink es s).server p.manager k ≡ ssa.applied s.server p.manager k
  sink-other es s k h = rw (p.sink_eq es s) (handle_batch-other ssa p.writes p.manager k es s h)

  sink-quiet :
      (es : List (Event O)) (s : World c) (k : ObjectKey)
      → written es ≡ []
      → ssa.applied (p.sink es s).server p.manager k ≡ ssa.applied s.server p.manager k
  sink-quiet es s k e = sink-other es s k (rw e tt)

  sink-one :
      (es : List (Event O)) (s : World c) (k : ObjectKey) (o : O)
      → written es ≡ o ∷ []
      → (p.writes.request o).desired.key ≡ k
      → IsAccepted k
      → ssa.applied (p.sink es s).server p.manager k ≡ some (p.writes.request o).desired
  sink-one es s k o e keyed accepted =
      rw (p.sink_eq es s, sym keyed)
        (handle_batch-last ssa p.writes p.manager es s [] o [] e (p.manager_eq o) (p.forces o)
          (accepted (p.writes.request o) s.server keyed) tt)

  dec_old : (old : Option O) (o : O) → (old ≡ some o) ⊎ (old ≢ some o)
  dec_old none o = inr (λ e. cc)
  dec_old (some a) o = elim (p.dec_entry a o) [
    | yes e ↦ inl (ap some e)
    | no n ↦ inr (λ e. n (some-eq-some e))
  ]

  -- A change of another resource leaves the object alone.
  pub step-other :
      (ch : Change ssa p krt) (s : State ssa p krt) (k : ObjectKey)
      → changed ssa p krt ch ≢ k
      → held ssa p krt (step ssa p krt ch s) k ≡ held ssa p krt s k
  unfolding step
  step-other (gone l) s k ne = sink-quiet _ s.world k (krt.written-emit-none _)
  step-other (stored x) s k ne = elim (Option-cases (p.transform x)) [
    | inl unset ↦ rw unset (sink-quiet _ s.world k (krt.written-emit-none _))
    | inr (o, set) ↦ rw set (elim (dec_old (derived ssa p krt (s.resources (p.object x))) o) [
      | inl e ↦ rw e (sink-quiet _ s.world k (krt.written-emit-same o))
      | inr n ↦
          sink-other _ s.world k
            (rw (krt.written-emit-new _ o n) ((λ e. ne (sym (p.object-transform x o set) ∙ e)), tt))
    ])
  ]

  step-stored :
      (x : I) (o : O) (s : State ssa p krt)
      → p.transform x ≡ some o
      → IsAccepted (p.object x)
      → IsSettled (p.object x) s
      → held ssa p krt (step ssa p krt (stored x) s) (p.object x)
        ≡ some (p.writes.request o).desired
  unfolding step
  step-stored x o s set accepted inv =
      rw set (elim (dec_old (derived ssa p krt (s.resources (p.object x))) o) [
        | inl e ↦ rw e (
            sink-quiet _ s.world (p.object x) (krt.written-emit-same o)
            ∙ elim (Option-cases (s.resources (p.object x))) [
              | inl unset ↦ cc (ap (derived ssa p krt) unset, e)
              | inr (y, is) ↦ inv.holds y o is (sym (ap (derived ssa p krt) is) ∙ e)
            ])
        | inr n ↦
            sink-one _ s.world (p.object x) o (krt.written-emit-new _ o n)
              (p.object-transform x o set) accepted
      ])

  resources-same :
      (ch : Change ssa p krt) (s : State ssa p krt)
      → (step ssa p krt ch s).resources (changed ssa p krt ch) ≡ resource ssa p krt ch
  unfolding step
  resources-same ch s = rw ((key_eq_iff (changed ssa p krt ch) (changed ssa p krt ch)).1 refl) refl

  resources-other :
      (ch : Change ssa p krt) (s : State ssa p krt) (k : ObjectKey)
      → key_eq k (changed ssa p krt ch) ≡ false
      → (step ssa p krt ch s).resources k ≡ s.resources k
  unfolding step
  resources-other ch s k e = rw e refl

  step-changed :
      (ch : Change ssa p krt) (s : State ssa p krt)
      → IsAccepted (changed ssa p krt ch)
      → IsSettled (changed ssa p krt ch) s
      → IsSettled (changed ssa p krt ch) (step ssa p krt ch s)
  step-changed (gone l) s accepted inv = record {
    keyed = λ x e. cc (resources-same (gone l) s, e);
    holds = λ x o e t. cc (resources-same (gone l) s, e);
  }
  step-changed (stored y) s accepted inv =
      let same : (x : I) → (step ssa p krt (stored y) s).resources (p.object y) ≡ some x → y ≡ x =
        λ x e. some-eq-some (sym (resources-same (stored y) s) ∙ e) in
      record {
        keyed = λ x e. ap p.object (sym (same x e));
        holds = λ x o e t. step-stored y o s (ap p.transform (same x e) ∙ t) accepted inv;
      }

  pub step-IsSettled :
      (ch : Change ssa p krt) (s : State ssa p krt) (k : ObjectKey)
      → IsAccepted k
      → IsSettled k s
      → IsSettled k (step ssa p krt ch s)
  step-IsSettled ch s k accepted inv = elim (Bool-cases (key_eq k (changed ssa p krt ch))) [
    | inl same ↦
        let e : k ≡ changed ssa p krt ch = (key_eq_iff k (changed ssa p krt ch)).0 same in
        subst (λ l. IsSettled l (step ssa p krt ch s)) (sym e)
          (step-changed ch s (subst IsAccepted e accepted) (subst (λ l. IsSettled l s) e inv))
    | inr other ↦
        let kept = resources-other ch s k other in
        record {
          keyed = λ x e. inv.keyed x (sym kept ∙ e);
          holds = λ x o e t.
              step-other ch s k (λ q. cc (other, (key_eq_iff k (changed ssa p krt ch)).1 (sym q)))
              ∙ inv.holds x o (sym kept ∙ e) t;
        }
  ]

  -- A change that leaves the entry of the resource as it is sends nothing and prints nothing.
  pub step-unchanged :
      (x : I) (o : O) (s : State ssa p krt)
      → p.transform x ≡ some o
      → derived ssa p krt (s.resources (p.object x)) ≡ some o
      → (step ssa p krt (stored x) s).world ≡ s.world
  unfolding step
  step-unchanged x o s set old =
      rw (set, old, p.sink_eq)
        (rw
          (handle_batch_lem p.writes (krt.emit (some o) (some o)) s.world, krt.written-emit-same o)
          refl)

  -- Behind every sequence of changes the server holds what the entry of the resource asks, if it takes
  -- the requests for that object.
  pub Reach-IsSettled :
      (s u : State ssa p krt) (k : ObjectKey)
      → IsAccepted k
      → Reach ssa p krt s u
      → IsSettled k s
      → IsSettled k u
  Reach-IsSettled s u k accepted here inv = inv
  Reach-IsSettled s u k accepted (next ch r) inv =
      step-IsSettled ch _ k accepted (Reach-IsSettled s _ k accepted r inv)
