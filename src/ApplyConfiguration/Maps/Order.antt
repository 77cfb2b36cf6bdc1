-- ===== src/ApplyConfiguration/Maps/Order.antt =====
-- `put_entries` puts all entries in place without a panic, in whatever order they come.
use std.Path.{fun_ext}
use mathlib.Core.Logic.Or
use mathlib.Core.List.{Mem, Perm, mem-cons, mem-cons_of_mem, not-mem-nil, Pairwise}
use mathlib.Core.List.Perm
use mathlib.Core.Option.{is_set}
use mathlib.Core.HLevel.{¬_prop}
use agentic_platform.Prelude.{
  ◌≡◌, ◌≢◌, refl, sym, ap, ◌∙◌, String, Option, none, some, List, [], ◌∷◌, str_eq_iff, Option-cases,
  inl, inr, arith,
}
use agentic_platform.ApplyConfiguration.{returned}
use agentic_platform.ApplyConfiguration.Maps.{
  GoMap, put, assign_all, made_for, put_entries, value_in, lookup, or_else, overlaid,
}

module _ {A : Type 0} where
  -- One entry at most for each key, as in a Go map.
  abbrev pub DistinctKeys : List (String × A) → Type 0
  DistinctKeys = Pairwise (λ (e f : String × A). e.0 ≢ f.0)

  or_else-put :
      (es : List (String × A)) (k : String) (v : A) (x : String) (f : String → Option A)
      → or_else (value_in es x) (put k v f x) ≡ or_else (value_in ((k, v) ∷ es) x) (f x)
  or_else-put es k v x f = ground arith

  assign_all-made :
      (es : List (String × A)) (f : String → Option A)
      → assign_all es (some f) ≡ returned (some (λ x. or_else (value_in es x) (f x)))
  unfolding assign_all
  assign_all-made [] f = refl
  assign_all-made ((k, v) ∷ es) f =
      assign_all-made es (put k v f)
      ∙ ap (λ g. returned (some g)) (fun_ext (λ x. or_else-put es k v x f))

  -- Putting entries into a map never panics; behind it each key has the value of its entry, or else
  -- the one that it had, and the map is nil only if it was and there are no entries.
  pub put_entries_lem :
      (es : List (String × A)) (m : GoMap A) → put_entries es m ≡ returned (overlaid es m)
  unfolding put_entries made_for assign_all
  put_entries_lem [] m = refl
  put_entries_lem (e ∷ es) none = assign_all-made (e ∷ es) (λ x. none)
  put_entries_lem (e ∷ es) (some f) = assign_all-made (e ∷ es) f

  mem_of_value_in :
      (es : List (String × A)) (x : String) (v : A) → value_in es x ≡ some v → Mem (x, v) es
  mem_of_value_in [] x v h = cc
  mem_of_value_in ((k, w) ∷ es) x v h = elim (Option-cases (value_in es x)) [
    | inr (u, later) ↦ mem-cons_of_mem (k, w) (mem_of_value_in es x v (ground (arith, later)))
    | inl none_later ↦
        let same : x ≡ k = (str_eq_iff x k).0 (ground (arith, none_later)) in
        let value : w ≡ v = ground (arith, none_later) in mem-cons.1 (Or.inl cc)
  ]

module _ {A : Type 0} (A_set : IsSet A) where
  value_in_of_mem :
      (es : List (String × A)) (x : String) (v : A)
      → DistinctKeys es
      → Mem (x, v) es
      → value_in es x ≡ some v
  value_in_of_mem [] x v d m = absurd (not-mem-nil m)
  value_in_of_mem ((k, w) ∷ es) x v (Pairwise.cons h d) m =
      Or.elim (is_set A_set _ _) (mem-cons.0 m)
        (λ e. elim (Option-cases (value_in es x)) [
          | inl unset ↦
              rw (unset, (str_eq_iff x k).1 (ap (λ p. p.0) e)) (ap some (sym (ap (λ p. p.1) e)))
          | inr (u, set) ↦ absurd (h (x, u) (mem_of_value_in es x u set) (sym (ap (λ p. p.0) e)))
        ])
        (λ r. rw (value_in_of_mem es x v d r) refl)

  value_in-perm :
      (es fs : List (String × A)) (x : String)
      → DistinctKeys es
      → DistinctKeys fs
      → Perm es fs
      → value_in es x ≡ value_in fs x
  value_in-perm es fs x de df p = elim (Option-cases (value_in fs x)) [
    | inr (v, e) ↦ value_in_of_mem es x v de ((Perm.mem_iff p).1 (mem_of_value_in fs x v e)) ∙ sym e
    | inl e ↦ elim (Option-cases (value_in es x)) [
      | inl u ↦ u ∙ sym e
      | inr (v, u) ↦ cc (value_in_of_mem fs x v df ((Perm.mem_iff p).0 (mem_of_value_in es x v u)))
    ]
  ]

  -- The order in which the entries of a map are visited does not matter.
  pub put_entries-perm :
      (es fs : List (String × A)) (m : GoMap A)
      → DistinctKeys es
      → Perm es fs
      → put_entries es m ≡ put_entries fs m
  put_entries-perm es fs m d p =
      put_entries_lem es m ∙ ap returned (go es fs d p) ∙ sym (put_entries_lem fs m)
    where
      go :
          (xs ys : List (String × A)) → DistinctKeys xs → Perm xs ys → overlaid xs m ≡ overlaid ys m
      go [] ys d p = ap (λ l. overlaid l m) (Perm.nil-eq p)
      go (a ∷ xs) [] d p = ap (λ l. overlaid l m) (Perm.eq-nil p)
      go (a ∷ xs) (b ∷ ys) d p = ap some (
          fun_ext (λ x.
            ap (λ o. or_else o (lookup m x))
              (value_in-perm (a ∷ xs) (b ∷ ys) x d
                (Perm.pairwise (λ e f. ¬_prop) (λ e f n q. n (sym q)) p d) p)))
