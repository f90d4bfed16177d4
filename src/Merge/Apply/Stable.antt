-- ===== src/Merge/Apply/Stable.antt =====
-- A StatefulSet that has been written is not written again.
use splunk_operator_mirror_d.Merge.Apply.Created.{sort_stateful_set_slices_settles}
use mathlib.Core.Path.{subst}
use splunk_operator_mirror_d.Merge.Settled.Containers.Template.{
  TemplateIsDetermined, merge_pod_updates_settles,
}
use splunk_operator_mirror_d.Merge.Apply.{
  Answers, apply_stateful_set, StatefulSet, after_get, Applied, after_merge, Write, written,
  after_write, creates, updates, sort_stateful_set_slices,
}
use splunk_operator_mirror_d.Merge.{Item, String, ℕ, Option, Merged, PodTemplate}
use splunk_operator_mirror_d.Merge.Pod.{by_name, by_port, merge_pod_updates}
use splunk_operator_mirror_d.Merge.Sorted.{IsSorting}
use splunk_operator_mirror_d.Merge.Settled.{IsEquality}
use splunk_operator_mirror_d.Api.{found, ready, fails, Err, Fetched}
use splunk_operator_mirror_d.Prelude.{
  true, none, some, false, [], Bool, List, ◌≡◌, String, ℕ, Option, ◌∷◌, inr, inl, refl, Bool-cases,
  arith, sym, ap, ◌∙◌, Option-cases,
}

only_write : {Rest : Type 0} (w x : Write Rest) → w ∷ [] ≡ x ∷ [] → written x ≡ written w
only_write w x h = let first : w ≡ x = cc in sym (ap written first)

module _ {Rest : Type 0} (same_json deep_equal : Rest → Rest → Bool)
    (sort : (A : Type 0) → (A → A → Bool) → List A → List A)
    (json_self : (a : Rest) → same_json a a ≡ true) (rest_law : IsEquality Rest deep_equal)
    (sorts_names : IsSorting by_name (sort (Item String Rest) by_name))
    (sorts_ports : IsSorting by_port (sort (Item ℕ Rest) by_port)) where
  abbrev apply_of : Answers Rest → StatefulSet Rest → Option (Applied Rest)
  apply_of = apply_stateful_set same_json deep_equal sort

  -- An apply that finds nothing to do.
  abbrev pub IsQuiet : Answers Rest → StatefulSet Rest → Type 0
  IsQuiet server revised =
      (b : Applied Rest) × (apply_stateful_set same_json deep_equal sort server revised ≡ some b)
      × (b.phase ≡ ready)
      × (b.err ≡ none)
      × (b.writes ≡ [])

  IsQuiet-after :
      (server : Answers Rest) (revised w : StatefulSet Rest)
      → server.stored ≡ found w
      → ((n : Merged (PodTemplate Rest)) × (merge_pod_updates same_json deep_equal sort w.template
              revised.template
            ≡ some n)
          × (n.changed ≡ false))
      → IsQuiet server revised
  unfolding apply_stateful_set after_get after_merge
  IsQuiet-after server revised w at (n, there, unchanged) =
      let found_quiet : apply_stateful_set same_json deep_equal sort server revised
          ≡ some record {
            phase = ready;
            err = none;
            object = record w { template = n.current };
            writes = [];
          } =
        rw (at, there, unchanged) refl in
      (
        record {
          phase = ready;
          err = none;
          object = record w { template = n.current };
          writes = [];
        },
        found_quiet,
        refl,
        refl,
        refl,
      )

  -- The only write of an apply, whatever the server answers.
  after_merge-written :
      (server : Answers Rest) (stored : StatefulSet Rest) (m : Merged (PodTemplate Rest))
      (x : Write Rest)
      → (after_merge same_json deep_equal sort server stored m).writes ≡ x ∷ []
      → written x ≡ record stored { template = m.current }
  unfolding after_merge after_write
  after_merge-written server stored m x h = elim (Bool-cases m.changed) [
    | inl differ ↦ update_of server.update_err server.latest (rw differ at h)
    | inr same ↦ absurd (ground arith)
  ]
    where
      update_of :
          (e : Option Err) (latest : Fetched (StatefulSet Rest))
          → (after_write same_json deep_equal sort e latest
              (record stored { template = m.current })).writes
            ≡ x ∷ []
          → written x ≡ record stored { template = m.current }
      update_of (some e) latest w =
          only_write (updates (record stored { template = m.current })) x w
      update_of none (fails e) w = only_write (updates (record stored { template = m.current })) x w
      update_of none (found latest) w =
          only_write (updates (record stored { template = m.current })) x w

  -- The template that has been written takes over nothing more.
  abbrev IsTakenOver : StatefulSet Rest → StatefulSet Rest → Type 0
  IsTakenOver revised w =
      (n : Merged (PodTemplate Rest)) × (merge_pod_updates same_json deep_equal sort w.template
          revised.template
        ≡ some n)
      × (n.changed ≡ false)

  after_get-IsTakenOver :
      (server : Answers Rest) (revised : StatefulSet Rest) (a : Applied Rest) (x : Write Rest)
      → TemplateIsDetermined Rest revised.template
      → a.writes ≡ x ∷ []
      → (f : Fetched (StatefulSet Rest))
      → after_get same_json deep_equal sort server revised f ≡ some a
      → IsTakenOver revised (written x)
  unfolding after_get
  after_get-IsTakenOver server revised a x free writes (fails e) h =
      let sorted = record revised {
        template = sort_stateful_set_slices same_json deep_equal sort revised.template;
      } in
      let first : creates sorted ∷ [] ≡ a.writes = cc in
      subst (λ w. IsTakenOver revised w) (sym (only_write (creates sorted) x (first ∙ writes)))
        (sort_stateful_set_slices_settles same_json deep_equal sort json_self rest_law sorts_names
          sorts_ports revised.template free)
  after_get-IsTakenOver server revised a x free writes (found stored) h =
      elim (Option-cases
        (merge_pod_updates same_json deep_equal sort stored.template revised.template)) [
          | inl panic ↦ absurd (ground arith)
          | inr (m, there) ↦
              let first : after_merge same_json deep_equal sort server stored m ≡ a =
                whole m (rw there at h) in
              let e = after_merge-written server stored m x (ap (λ y. y.writes) first ∙ writes) in
              subst (λ w. IsTakenOver revised w) (sym e)
                (merge_pod_updates_settles same_json deep_equal sort json_self rest_law sorts_names
                  sorts_ports stored.template revised.template m free there)
        ]
    where
      whole :
          (m : Merged (PodTemplate Rest))
          → some (after_merge same_json deep_equal sort server stored m) ≡ some a
          → after_merge same_json deep_equal sort server stored m ≡ a
      whole m e = cc

  -- Once an apply of a StatefulSet has made a write, by a creation or by an update, and that is what
  -- is stored, an apply of the same StatefulSet reports PhaseReady without an error and writes
  -- nothing. The conditions: the comparison by JSON text finds a value equal to itself, the deep one
  -- finds equal exactly the equal values, the sort rearranges a list into the order of its names or
  -- ports, and in every list that the apply sorts no two different elements have the same place in
  -- that order.
  pub apply_stateful_set-IsQuiet :
      (server later : Answers Rest) (revised : StatefulSet Rest) (a : Applied Rest) (x : Write Rest)
      → TemplateIsDetermined Rest revised.template
      → apply_stateful_set same_json deep_equal sort server revised ≡ some a
      → a.writes ≡ x ∷ []
      → later.stored ≡ found (written x)
      → IsQuiet later revised
  unfolding apply_stateful_set
  apply_stateful_set-IsQuiet server later revised a x free h writes at =
      IsQuiet-after later revised (written x) at
        (after_get-IsTakenOver server revised a x free writes server.stored h)
