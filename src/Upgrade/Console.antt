-- ===== src/Upgrade/Console.antt =====
-- What the monitoring console waits for.
use mathlib.Core.Path.{subst}
use splunk_operator_mirror_d.Upgrade.Order.{license_step-goes}
use splunk_operator_mirror_d.Api.{found, fails, Fetched, Phase}
use splunk_operator_mirror_d.Upgrade.{
  goes, console_tier, Answers, Spec, Item, check_items, check_list, search_head_found,
  search_heads_listed, manager_image_step, manager_found, manager_step, validate_upgrade, Verdict,
  image_step, indexer_step, console_step, search_head_step, refers, is_ready, first_of_manager,
  is_named,
}
use splunk_operator_mirror_d.Prelude.{
  inr, [], inl, true, some, none, ◌∷◌, refl, String, List, Bool, all_of, not, ◌≡◌, Option, ◌||◌,
  Bool-cases, arith, ◌&&◌, str_eq, if◌then◌else◌,
}

module _ (w : Answers) (name : String) (spec : Spec) (sort : List Item → List Item) where
  -- Those of a list that the step is about are ready.
  abbrev pub are_ready : (Item → Bool) → List Item → Bool
  are_ready concerns items = all_of (λ i. not (concerns i) || is_ready i.phase) items

  check_items-goes :
      (concerns : Item → Bool) (items : List Item) (next : Verdict)
      → check_items w name spec concerns items next ≡ goes
      → (are_ready concerns items ≡ true) × (next ≡ goes)
  unfolding check_items
  check_items-goes concerns [] next h = (refl, h)
  check_items-goes concerns (i ∷ items) next h =
      elim (Bool-cases (concerns i && not (is_ready i.phase))) [
        | inl bad ↦ ground arith
        | inr good ↦
            let (all, rest) = check_items-goes concerns items next (simp good at h) in
            (ground arith, rest)
      ]

  check_list-goes :
      (concerns : Item → Bool) (items : List Item) (o : Fetched (List Item)) (next : Verdict)
      → check_list w name spec concerns o next ≡ goes
      → (o ≡ found items → are_ready concerns items ≡ true) × (next ≡ goes)
  unfolding check_list
  check_list-goes concerns items (fails e) next h = (λ q. cc, ground arith)
  check_list-goes concerns items (found others) next h =
      let (all, rest) = check_items-goes concerns others next h in (λ q. ground arith, rest)

  search_head_found-goes :
      (next : Verdict) (o : Option Item) → search_head_found w name spec next o ≡ goes → next ≡ goes
  unfolding search_head_found image_step
  search_head_found-goes next none h = h
  search_head_found-goes next (some i) h = ground arith

  search_heads_listed-goes :
      (next : Verdict) (o : Fetched (List Item))
      → search_heads_listed w name spec next o ≡ goes
      → next ≡ goes
  unfolding search_heads_listed
  search_heads_listed-goes next (fails e) h = ground arith
  search_heads_listed-goes next (found items) h =
      search_head_found-goes next (first_of_manager w name spec items) h

  manager_image_step-next :
      (phase : Phase) (next : Verdict) (o : Fetched String)
      → manager_image_step w name spec phase next o ≡ goes
      → next ≡ goes
  unfolding manager_image_step
  manager_image_step-next phase next (fails e) h = ground arith
  manager_image_step-next phase next (found image) h = ground arith

  manager_found-next :
      (next : Verdict) (o : Fetched Phase)
      → manager_found w name spec next next o ≡ goes
      → next ≡ goes
  unfolding manager_found
  manager_found-next next (fails e) h = h
  manager_found-next next (found phase) h = manager_image_step-next phase next w.manager_image h

  manager_step-console :
      manager_step w name spec sort console_tier ≡ goes
      → console_step w name spec console_tier ≡ goes
  unfolding manager_step indexer_step search_head_step
  manager_step-console h =
      let next = search_head_step w name spec console_tier in
      let passes : next ≡ goes = elim (Bool-cases (str_eq spec.manager_ref "")) [
        | inl no_ref ↦
            subst
              (λ b. (if b then next else manager_found w name spec next next w.get_manager) ≡ goes)
              no_ref h
        | inr ref ↦ manager_found-next next w.get_manager (
            subst
              (λ b. (if b then next else manager_found w name spec next next w.get_manager) ≡ goes)
              ref h)
      ] in
      search_heads_listed-goes (console_step w name spec console_tier) w.list_search_heads passes

  -- A monitoring console is upgraded only when all cluster managers and all search head clusters of
  -- its namespace that refer to it are ready, as far as their lists can be read.
  pub validate_upgrade-console :
      (managers search_heads : List Item)
      → validate_upgrade w name spec sort console_tier ≡ goes
      → (w.list_managers ≡ found managers → are_ready (refers w name spec) managers ≡ true)
        × (w.list_search_heads ≡ found search_heads
            → are_ready (refers w name spec) search_heads ≡ true)
  unfolding validate_upgrade console_step
  validate_upgrade-console managers search_heads h =
      let (license, rest) = license_step-goes w name spec sort console_tier refl h in
      let heads = check_list w name spec (refers w name spec) w.list_search_heads (
        check_list w name spec (is_named w name spec) w.list_indexers
          (check_list w name spec (is_named w name spec) w.list_indexers goes)) in
      let (ready_managers, next) =
        check_list-goes (refers w name spec) managers w.list_managers heads
          (manager_step-console rest) in
      let (ready_heads, last) =
        check_list-goes (refers w name spec) search_heads w.list_search_heads
          (check_list w name spec (is_named w name spec) w.list_indexers
            (check_list w name spec (is_named w name spec) w.list_indexers goes))
          next in
      (ready_managers, ready_heads)
