-- ===== src/Owners/Cycle.antt =====
-- How a custom resource becomes an owner of what it shares, and stops being one.
use splunk_operator_mirror_d.Api.{found, Err}
use splunk_operator_mirror_d.Owners.{
  owners_equal, has_owner, count_of_kind, has_uid, OwnerReference, remove_owner, String, List,
  str_eq, set_config_map_owner_ref, set_stateful_set_owner_ref, Option, remove_config_map_owner_ref,
  Custom, Bool, flags_equal, as_owner, gives_up_set,
}
use splunk_operator_mirror_d.Prelude.{
  ◌≡◌, arith, refl, Bool-cases, inl, inr, suc, false, ◌∷◌, true, [], String, List, ◌++◌, str_eq,
  str_eq-refl, none, some, Option, Bool, sym,
}

flags_equal_refl : (f : Option Bool) → flags_equal f f ≡ true
flags_equal_refl none = refl
flags_equal_refl (some true) = refl
flags_equal_refl (some false) = refl

owners_equal_refl : (o : OwnerReference) → owners_equal o o ≡ true
unfolding owners_equal
owners_equal_refl o = ground (
  arith,
  str_eq-refl o.api_version,
  str_eq-refl o.kind,
  str_eq-refl o.name,
  str_eq-refl o.uid,
  flags_equal_refl o.controller,
  flags_equal_refl o.block_deletion,
)

has_owner-append :
    (o : OwnerReference) (l : List OwnerReference) → has_owner o (l ++ (o ∷ [])) ≡ true
unfolding has_owner
has_owner-append o [] = ground (arith, owners_equal_refl o)
has_owner-append o (x ∷ rest) = ground (arith, has_owner-append o rest)

remove_owner-append :
    (o : OwnerReference) (l : List OwnerReference)
    → has_owner o l ≡ false
    → remove_owner o false (l ++ (o ∷ [])) ≡ record { owners = l; count = 1 }
unfolding has_owner remove_owner
remove_owner-append o [] h = ground (arith, owners_equal_refl o)
remove_owner-append o (x ∷ rest) h = elim (Bool-cases (owners_equal x o)) [
  | inl same ↦ absurd (ground arith)
  | inr other ↦ rw (other, remove_owner-append o rest (ground arith)) refl
]

count_of_kind-append :
    (kind : String) (l : List OwnerReference) (o : OwnerReference)
    → str_eq o.kind kind ≡ true
    → count_of_kind kind (l ++ (o ∷ [])) ≡ suc (count_of_kind kind l)
unfolding count_of_kind
count_of_kind-append kind [] o h = ground arith
count_of_kind-append kind (x ∷ rest) o h = ground (arith, count_of_kind-append kind rest o h)

has_uid-append :
    (l : List OwnerReference) (o : OwnerReference) → has_uid o.uid (l ++ (o ∷ [])) ≡ true
unfolding has_uid
has_uid-append [] o = ground (arith, str_eq-refl o.uid)
has_uid-append (x ∷ rest) o = ground (arith, has_uid-append rest o)

gives_up_set-append :
    (cr : Custom) (l : List OwnerReference) → gives_up_set cr (l ++ (as_owner cr false ∷ [])) ≡ true
unfolding gives_up_set
gives_up_set-append cr [] =
    ground (arith, str_eq-refl cr.uid, str_eq-refl cr.kind, str_eq-refl cr.name)
gives_up_set-append cr (x ∷ []) = refl
gives_up_set-append cr (x ∷ y ∷ rest) = refl

-- A custom resource that becomes an owner of the config map raises the number of owners of its kind
-- by one; becoming an owner again writes nothing; and when it stops being one, the owners are those
-- of before, and one reference is reported as removed.
pub set_config_map_owner_ref-cycle :
    (cr : Custom) (owners owners' : List OwnerReference) (update : Option Err)
    → (set_config_map_owner_ref cr owners update).owners ≡ some owners'
    → (count_of_kind cr.kind owners' ≡ suc (count_of_kind cr.kind owners))
      × (set_config_map_owner_ref cr owners' update ≡ record { owners = none; result = none })
      × (remove_config_map_owner_ref cr (found owners') none
          ≡ record { written = some owners; ref_count = 1; result = none })
unfolding set_config_map_owner_ref remove_config_map_owner_ref
set_config_map_owner_ref-cycle cr owners owners' update h =
    elim (Bool-cases (has_owner (as_owner cr false) owners)) [
      | inl owned ↦ absurd (ground arith)
      | inr other ↦
          let grown : (owners ++ (as_owner cr false ∷ [])) ≡ owners' = ground arith in
          rw
            (
              sym grown,
              has_owner-append (as_owner cr false) owners,
              remove_owner-append (as_owner cr false) owners other,
            )
            (
              count_of_kind-append cr.kind owners (as_owner cr false) (str_eq-refl cr.kind),
              refl,
              refl,
            )
    ]

-- A custom resource that was just made an owner of the console's StatefulSet gives the set up,
-- whatever other owners it has; and making it an owner again writes nothing.
pub set_stateful_set_owner_ref-gives_up :
    (cr : Custom) (owners owners' : List OwnerReference) (update : Option Err)
    → (set_stateful_set_owner_ref cr (found owners) update).owners ≡ some owners'
    → (gives_up_set cr owners' ≡ true)
      × (set_stateful_set_owner_ref cr (found owners') update
          ≡ record { owners = none; result = none })
unfolding set_stateful_set_owner_ref
set_stateful_set_owner_ref-gives_up cr owners owners' update h =
    elim (Bool-cases (has_uid cr.uid owners)) [
      | inl owned ↦ absurd (ground arith)
      | inr other ↦
          let grown : (owners ++ (as_owner cr false ∷ [])) ≡ owners' = ground arith in
          rw (sym grown, has_uid-append owners (as_owner cr false))
            (gives_up_set-append cr owners, refl)
    ]
