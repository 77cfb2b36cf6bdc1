-- ===== src/ApplyConfiguration/Parser/Concurrent.antt =====
-- `Parser` of internal.go called by several goroutines: `sync.Once` lets one of them run the function,
-- and the others wait until that has ended.
pub mod Progress
use agentic_platform.Prelude.{
  ◌≡◌, ◌≢◌, refl, ap, sym, ◌∙◌, ℕ, suc, ◌≤◌, ◌==◌, ==_iff, String, Option, none, some, ◌⊎◌, subst,
  Bool-cases, inl, inr, if◌then◌else◌, arith, some-eq-some,
}
use agentic_platform.ApplyConfiguration.Parser.{
  Typed, Ended, value, panics, map_ended, schema_yaml, parse_schema, initial,
}

-- The function has not been called, one goroutine is to parse the schema in it, has parsed it, or has
-- left the function.
pub data Phase : Type 0 where
  free : Phase
  parsing parsed done : ℕ → Phase

module _ (t : Typed) where
  -- The variable `parser`, the number of calls of `typed.NewParser`, and what the last call of `Parser`
  -- by each goroutine has given.
  pub record State : Type 0 where
    pub phase : Phase
    pub parser : Option t.Parser
    pub parses : ℕ
    pub results : ℕ → Option (Ended (Option t.Parser))

  abbrev pub unasked : State
  unasked = record { phase = free; parser = none; parses = 0; results = λ i. none }

  abbrev pub first_parser : Option t.Parser
  first_parser = (t.new_parser schema_yaml).0

  abbrev pub answer :
      ℕ
      → Ended (Option t.Parser)
      → (ℕ → Option (Ended (Option t.Parser)))
      → ℕ
      → Option (Ended (Option t.Parser))
  answer i r f j = if j == i then some r else f j

  abbrev pub entered : ℕ → State → State
  entered i s = record s { phase = parsing i }

  abbrev pub assigned : ℕ → State → State
  assigned i s = record s { phase = parsed i; parser = first_parser; parses = suc s.parses }

  abbrev pub left : ℕ → State → State
  left i s = record s {
    phase = done i;
    results = answer i (map_ended (λ u. s.parser) (parse_schema t (initial t)).0) s.results;
  }

  abbrev pub returned_to : ℕ → State → State
  returned_to j s = record s { results = answer j (value s.parser) s.results }

  -- One goroutine takes a step: into the function, over the assignment, out of the function, or past a
  -- `Do` whose function has ended.
  pub data Step (s : State) : State → Type 0 where
    enter : (i : ℕ) → s.phase ≡ free → Step s (entered i s)
    assign : (i : ℕ) → s.phase ≡ parsing i → Step s (assigned i s)
    leave : (i : ℕ) → s.phase ≡ parsed i → Step s (left i s)
    return_to : (i j : ℕ) → s.phase ≡ done i → Step s (returned_to j s)

  pub data Reach (s : State) : State → Type 0 where
    here : Reach s s
    next : {u v : State} → Reach s u → Step u v → Reach s v

  -- The schema has been parsed once at most, all goroutines that a call returned to have the same
  -- parser, and no two calls panic.
  pub record IsParsedOnce (s : State) : Type 0 where
    pub at_most_once : s.parses ≤ 1
    pub same_parser :
        (i : ℕ) (p : Option t.Parser) → s.results i ≡ some (value p) → p ≡ first_parser
    pub one_panic :
        (i j : ℕ) (e f : String)
        → s.results i ≡ some (panics e)
        → s.results j ≡ some (panics f)
        → i ≡ j

  abbrev pub HasParsed : Phase → State → Type 0
  HasParsed free s = s.parses ≡ 0
  HasParsed (parsing i) s = s.parses ≡ 0
  HasParsed (parsed i) s = (s.parses ≡ 1) × (s.parser ≡ first_parser)
  HasParsed (done i) s = (s.parses ≡ 1) × (s.parser ≡ first_parser)

  answer-cases :
      (i j : ℕ) (r q : Ended (Option t.Parser)) (f : ℕ → Option (Ended (Option t.Parser)))
      → answer i r f j ≡ some q
      → ((j ≡ i) × (r ≡ q)) ⊎ (f j ≡ some q)
  answer-cases i j r q f h = elim (Bool-cases (j == i)) [
    | inl same ↦
        let here : some r ≡ some q = sym (rw same refl) ∙ h in
        inl ((==_iff j i).0 same, some-eq-some here)
    | inr other ↦ inr (sym (rw other refl) ∙ h)
  ]

  map_ended-value :
      (e : Ended Unit) (x p : Option t.Parser) → map_ended (λ u. x) e ≡ value p → p ≡ x
  map_ended-value (value u) x p h = cc
  map_ended-value (panics m) x p h = cc

  pub record Invariant (s : State) : Type 0 where
    pub count : HasParsed s.phase s
    pub shared : (i : ℕ) (p : Option t.Parser) → s.results i ≡ some (value p) → p ≡ first_parser
    pub panicked : (i : ℕ) (e : String) → s.results i ≡ some (panics e) → s.phase ≡ done i

  pub HasParsed-at : (s : State) (ph : Phase) → s.phase ≡ ph → Invariant s → HasParsed ph s
  HasParsed-at s ph e h = subst (λ p. HasParsed p s) e h.count

  Step-Invariant : (s u : State) → Step s u → Invariant s → Invariant u
  Step-Invariant s u (enter i e) h = record {
    count = HasParsed-at s free e h;
    shared = h.shared;
    panicked = λ j m r. let stands = h.panicked j m r in cc;
  }
  Step-Invariant s u (assign i e) h = record {
    count = (ap suc (HasParsed-at s (parsing i) e h), refl);
    shared = h.shared;
    panicked = λ j m r. let stands = h.panicked j m r in cc;
  }
  Step-Invariant s u (leave i e) h =
      let parsed_so = HasParsed-at s (parsed i) e h in
      record {
        count = parsed_so;
        shared = λ j p r. elim (answer-cases i j _ _ s.results r) [
          | inl new ↦ map_ended-value _ s.parser p new.1 ∙ parsed_so.1
          | inr old ↦ h.shared j p old
        ];
        panicked = λ j m r. elim (answer-cases i j _ _ s.results r) [
          | inl new ↦ ap done (sym new.0)
          | inr old ↦ let stands = h.panicked j m old in cc
        ];
      }
  Step-Invariant s u (return_to i j e) h =
      let parsed_so = HasParsed-at s (done i) e h in
      record {
        count = subst (λ p. HasParsed p (returned_to j s)) (sym e) parsed_so;
        shared = λ k p r. elim (answer-cases j k _ _ s.results r) [
          | inl new ↦ map_ended-value (value tt) s.parser p new.1 ∙ parsed_so.1
          | inr old ↦ h.shared k p old
        ];
        panicked = λ k m r. elim (answer-cases j k _ _ s.results r) [
          | inl new ↦ let same = new.1 in cc
          | inr old ↦ h.panicked k m old
        ];
      }

  pub Reach-Invariant : (s : State) → Reach unasked s → Invariant s
  Reach-Invariant s here = record { count = refl; shared = λ i p r. cc; panicked = λ i m r. cc }
  Reach-Invariant s (next {u} r st) = Step-Invariant u s st (Reach-Invariant u r)

  HasParsed-bound : (ph : Phase) (s : State) → HasParsed ph s → s.parses ≤ 1
  HasParsed-bound free s h = omega arith
  HasParsed-bound (parsing i) s h = omega arith
  HasParsed-bound (parsed i) s h = let one = h.0 in omega arith
  HasParsed-bound (done i) s h = let one = h.0 in omega arith

  -- However the calls of several goroutines take turns, the schema is parsed once at most, all calls
  -- that return give the parser of that one time, and at most one goroutine sees a panic.
  pub Reach-IsParsedOnce : (s : State) → Reach unasked s → IsParsedOnce s
  Reach-IsParsedOnce s r =
      let h = Reach-Invariant s r in
      record {
        at_most_once = HasParsed-bound s.phase s h.count;
        same_parser = h.shared;
        one_panic = λ i j e f a b.
            let same : done i ≡ done j = sym (h.panicked i e a) ∙ h.panicked j f b in cc;
      }
