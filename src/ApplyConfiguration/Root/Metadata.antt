-- ===== src/ApplyConfiguration/Root/Metadata.antt =====
-- What the builders that take several values do to the metadata.
use mathlib.Core.List.{Perm}
use agentic_platform.Prelude.{
  ◌≡◌, refl, ap, String, Option, none, some, List, ◌∷◌, ◌++◌, map, String-set,
}
use agentic_platform.ApplyConfiguration.{returned, panicked, map_outcome}
use agentic_platform.ApplyConfiguration.Maps.{overlaid}
use agentic_platform.ApplyConfiguration.Maps.Order.{DistinctKeys, put_entries_lem, put_entries-perm}
use agentic_platform.ApplyConfiguration.Appends.{append_pointers-nil}
use agentic_platform.ApplyConfiguration.Root.{
  Types, Root, ensured, with_meta, with_labels, with_annotations, with_owner_references,
}

module _ (t : Types) where
  -- `WithLabels` returns, and the labels are the given entries in front of those that were there; they
  -- are nil only if they were and no entry is given.
  pub with_labels_lem :
      (entries : List (String × String)) (b : Root t)
      → with_labels t entries b
        ≡ returned (
            with_meta t b (record (ensured t b) { labels = overlaid entries (ensured t b).labels }))
  with_labels_lem entries b = rw (put_entries_lem entries (ensured t b).labels) refl

  pub with_annotations_lem :
      (entries : List (String × String)) (b : Root t)
      → with_annotations t entries b
        ≡ returned (
            with_meta t b
              (record (ensured t b) { annotations = overlaid entries (ensured t b).annotations }))
  with_annotations_lem entries b = rw (put_entries_lem entries (ensured t b).annotations) refl

  -- `WithLabels` gives the same result for every order in which the entries of a map are visited.
  pub with_labels-perm :
      (es fs : List (String × String)) (b : Root t)
      → DistinctKeys es
      → Perm es fs
      → with_labels t es b ≡ with_labels t fs b
  with_labels-perm es fs b d p =
      ap (map_outcome (λ m. with_meta t b (record (ensured t b) { labels = m })))
        (put_entries-perm String-set es fs (ensured t b).labels d p)

  -- `WithOwnerReferences` panics at the first nil among its values, with the references in front of it
  -- appended to those of the receiver, and none behind it.
  pub with_owner_references-nil :
      (before : List t.Owner) (after : List (Option t.Owner)) (b : Root t)
      → with_owner_references t (map some before ++ none ∷ after) b
        ≡ panicked "nil value passed to WithOwnerReferences" (
            with_meta t b (record (ensured t b) {
              owner_references = (ensured t b).owner_references ++ before;
            }))
  with_owner_references-nil before after b =
      rw (append_pointers-nil "WithOwnerReferences" before after (ensured t b).owner_references)
        refl
