-- ===== src/ApplyConfiguration/Builder/Chain.antt =====
-- Chains of calls of the builders of a configuration: on the struct, and on the object that is sent.
use agentic_platform.Prelude.{
  ◌≡◌, ◌≢◌, refl, ap, sym, ◌∙◌, String, Option, none, some, List, [], ◌∷◌, ◌++◌, All, str_eq,
  str_eq_iff, Bool-cases, inl, inr, Option-cases,
}
use agentic_platform.ApplyConfiguration.{Outcome, returned, panicked, map_outcome, and_then}
use agentic_platform.ApplyConfiguration.Maps.{or_else}
use agentic_platform.ApplyConfiguration.Json.{Json, Fields}
use agentic_platform.ApplyConfiguration.Builder.{
  Document, document, update, state, error_of, Builder, IsFaithful,
}

-- The outcome with that state, and that panic if there is one.
abbrev pub outcome : {A : Type 0} → Option String → A → Outcome A
outcome none a = returned a
outcome (some e) a = panicked e a

outcome-state : {A : Type 0} (o : Outcome A) → o ≡ outcome (error_of o) (state o)
outcome-state (returned a) = refl
outcome-state (panicked e a) = refl

map_outcome-outcome :
    {A B : Type 0} (f : A → B) (e : Option String) (a : A)
    → map_outcome f (outcome e a) ≡ outcome e (f a)
map_outcome-outcome f none a = refl
map_outcome-outcome f (some e) a = refl

map_outcome-and_then :
    {A B : Type 0} (h : A → B) (o : Outcome A) (f : A → Outcome A) (g : B → Outcome B)
    → ((b : A) → map_outcome h (f b) ≡ g (h b))
    → map_outcome h (and_then o f) ≡ and_then (map_outcome h o) g
map_outcome-and_then h (returned b) f g e = e b
map_outcome-and_then h (panicked t b) f g e = refl

untouched :
    (name x : String) (f : Option Json → Option Json) (d : Document)
    → name ≢ x
    → update name f d x ≡ d x
untouched name x f d ne = elim (Bool-cases (str_eq x name)) [
  | inl same ↦ absurd (ne (sym ((str_eq_iff x name).0 same)))
  | inr different ↦ rw different refl
]

-- The object that a configuration is sent as.
abbrev pub document_of : {Self : Type 0} → (Self → Fields) → Self → Document
document_of fields b = document (fields b)

module _ {Self : Type 0} {fields : Self → Fields} where
  -- A call of one of the given builders.
  pub data Call : List (Builder fields) → Type 1 where
    call : {m : Builder fields} {ms : List (Builder fields)} → m.Arg → Call (m ∷ ms)
    other : {m : Builder fields} {ms : List (Builder fields)} → Call ms → Call (m ∷ ms)

  abbrev pub apply_call : {ms : List (Builder fields)} → Call ms → Self → Outcome Self
  apply_call (call {m = m} a) b = m.apply a b
  apply_call (other c) b = apply_call c b

  -- What the call is to do to the object.
  abbrev pub member_of : {ms : List (Builder fields)} → Call ms → String
  member_of (call {m = m} a) = m.member
  member_of (other c) = member_of c

  abbrev pub effect_of : {ms : List (Builder fields)} → Call ms → Option Json → Option Json
  effect_of (call {m = m} a) = m.effect a
  effect_of (other c) = effect_of c

  abbrev pub panic_of : {ms : List (Builder fields)} → Call ms → Option String
  panic_of (call {m = m} a) = m.error a
  panic_of (other c) = panic_of c

  -- `b.With…(…).With…(…)`: a panic ends the chain.
  abbrev pub chain : {ms : List (Builder fields)} → List (Call ms) → Self → Outcome Self
  chain [] b = returned b
  chain (c ∷ cs) b = and_then (apply_call c b) (chain cs)

  abbrev pub edit : {ms : List (Builder fields)} → List (Call ms) → Document → Outcome Document
  edit [] d = returned d
  edit (c ∷ cs) d = and_then (outcome (panic_of c) (update (member_of c) (effect_of c) d)) (edit cs)

  apply_call-edit :
      (ms : List (Builder fields)) (c : Call ms) (b : Self)
      → All IsFaithful ms
      → map_outcome (document_of fields) (apply_call c b)
        ≡ outcome (panic_of c) (update (member_of c) (effect_of c) (document_of fields b))
  apply_call-edit [] c b h = elim c [ ]
  apply_call-edit (m ∷ ms) (call a) b h =
      ap (map_outcome (document_of fields)) (outcome-state (m.apply a b))
      ∙ map_outcome-outcome (document_of fields) (error_of (m.apply a b)) (state (m.apply a b))
      ∙ rw (h.0.ends a b, h.0.edits a b) refl
  apply_call-edit (m ∷ ms) (other c) b h = apply_call-edit ms c b h.1

  -- If each builder is faithful, a chain of calls on a struct does to the object that is sent what the
  -- edits of the calls do, one after the other, and panics where they do.
  pub chain-edit :
      (ms : List (Builder fields)) (cs : List (Call ms)) (b : Self)
      → All IsFaithful ms
      → map_outcome (document_of fields) (chain cs b) ≡ edit cs (document_of fields b)
  chain-edit ms [] b h = refl
  chain-edit ms (c ∷ cs) b h =
      map_outcome-and_then (document_of fields) (apply_call c b) (chain cs) (edit cs)
        (λ d. chain-edit ms cs d h)
      ∙ ap (λ o. and_then o (edit cs)) (apply_call-edit ms c b h)

  -- A member that no call of a chain edits stays as it is.
  pub edit-untouched :
      {ms : List (Builder fields)} (cs : List (Call ms)) (d : Document) (x : String)
      → All (λ c. member_of c ≢ x) cs
      → state (edit cs d) x ≡ d x
  edit-untouched [] d x h = refl
  edit-untouched (c ∷ cs) d x h = elim (Option-cases (panic_of c)) [
    | inl goes ↦ rw goes (
        edit-untouched cs (update (member_of c) (effect_of c) d) x h.1
        ∙ untouched (member_of c) x (effect_of c) d h.0)
    | inr (e, stops) ↦ rw stops (untouched (member_of c) x (effect_of c) d h.0)
  ]

  -- The member of a call whose effect does not depend on what is there is as that call leaves it, if no
  -- call in front panics and no call behind edits that member.
  pub edit-last :
      {ms : List (Builder fields)} (cs : List (Call ms)) (c : Call ms) (ds : List (Call ms))
      (d : Document) (content : Option Json)
      → All (λ a. panic_of a ≡ none) cs
      → ((old : Option Json) → effect_of c old ≡ content)
      → All (λ a. member_of a ≢ member_of c) ds
      → state (edit (cs ++ c ∷ ds) d) (member_of c) ≡ content
  edit-last [] c ds d content quiet sets others =
      let edited = update (member_of c) (effect_of c) d in
      let set : edited (member_of c) ≡ content =
        rw ((str_eq_iff (member_of c) (member_of c)).1 refl) (sets (d (member_of c))) in
      elim (Option-cases (panic_of c)) [
        | inl goes ↦ rw goes (edit-untouched ds edited (member_of c) others ∙ set)
        | inr (e, stops) ↦ rw stops set
      ]
  edit-last (a ∷ cs) c ds d content quiet sets others =
      rw quiet.0 (edit-last cs c ds _ content quiet.1 sets others)

  -- The panic of the first call that is to panic.
  abbrev pub first_panic : {ms : List (Builder fields)} → List (Call ms) → Option String
  first_panic [] = none
  first_panic (c ∷ cs) = or_else (panic_of c) (first_panic cs)

  pub edit-first_panic :
      {ms : List (Builder fields)} (cs : List (Call ms)) (d : Document)
      → error_of (edit cs d) ≡ first_panic cs
  edit-first_panic [] d = refl
  edit-first_panic (c ∷ cs) d = elim (Option-cases (panic_of c)) [
    | inl goes ↦ rw goes (edit-first_panic cs _)
    | inr (e, stops) ↦ rw stops refl
  ]

pub state-map_outcome :
    {A B : Type 0} (f : A → B) (o : Outcome A) → state (map_outcome f o) ≡ f (state o)
state-map_outcome f (returned a) = refl
state-map_outcome f (panicked e a) = refl

pub error_of-map_outcome :
    {A B : Type 0} (f : A → B) (o : Outcome A) → error_of (map_outcome f o) ≡ error_of o
error_of-map_outcome f (returned a) = refl
error_of-map_outcome f (panicked e a) = refl
