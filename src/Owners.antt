-- ===== src/Owners.antt =====
-- The owner references of the objects that custom resources share: those of a StatefulSet in
-- pkg/splunk/splkcontroller/statefulset.go, those of the config map of manual app updates in
-- pkg/splunk/enterprise/util.go; and `AsOwner` of pkg/splunk/common/util.go. What the API server
-- answers is an argument.
pub mod Cycle
use splunk_operator_mirror_d.Prelude.{
  some, none, ◌∷◌, [], true, false, suc, String, Option, Bool, List, ℕ, if◌then◌else◌, str_eq, ◌&&◌,
  ◌||◌, ◌++◌, ltb, ◌==◌, length,
}
use splunk_operator_mirror_d.Api.{found, fails, not_found, failed, Fetched, Err}

-- `metav1.OwnerReference`
pub record OwnerReference : Type 0 where
  pub api_version : String
  pub kind : String
  pub name : String
  pub uid : String
  pub controller : Option Bool
  pub block_deletion : Option Bool

-- What is read of a custom resource.
pub record Custom : Type 0 where
  pub api_version : String
  pub kind : String
  pub name : String
  pub uid : String

-- `AsOwner`
abbrev pub as_owner : Custom → Bool → OwnerReference
as_owner cr is_controller = record {
  api_version = cr.api_version;
  kind = cr.kind;
  name = cr.name;
  uid = cr.uid;
  controller = some is_controller;
  block_deletion = none;
}

-- `reflect.DeepEqual` on two pointers to a Boolean
abbrev pub flags_equal : Option Bool → Option Bool → Bool
flags_equal none none = true
flags_equal (some true) (some true) = true
flags_equal (some false) (some false) = true
flags_equal _ _ = false

-- `reflect.DeepEqual` on two references
unfoldable pub owners_equal : OwnerReference → OwnerReference → Bool
owners_equal a b =
    str_eq a.api_version b.api_version
    && str_eq a.kind b.kind
    && str_eq a.name b.name
    && str_eq a.uid b.uid
    && flags_equal a.controller b.controller
    && flags_equal a.block_deletion b.block_deletion

-- The list that is written, if one is, and the error that is returned.
pub record Saved : Type 0 where
  pub owners : Option (List OwnerReference)
  pub result : Option Err

unfoldable pub has_uid : String → List OwnerReference → Bool
has_uid uid [] = false
has_uid uid (o ∷ rest) = str_eq o.uid uid || has_uid uid rest

-- `SetStatefulSetOwnerRef`
unfoldable pub set_stateful_set_owner_ref :
    Custom → Fetched (List OwnerReference) → Option Err → Saved
unfolding has_uid
set_stateful_set_owner_ref cr (fails e) update = record { owners = none; result = some e }
set_stateful_set_owner_ref cr (found owners) update =
    if has_uid cr.uid owners
    then record { owners = none; result = none }
    else record { owners = some (owners ++ (as_owner cr false ∷ [])); result = update }

-- `RemoveUnwantedOwnerRefSs`
unfoldable pub remove_unwanted_owner_refs :
    Custom → Fetched (List OwnerReference) → Option Err → Saved
remove_unwanted_owner_refs cr (fails e) update = record { owners = none; result = some e }
remove_unwanted_owner_refs cr (found owners) update = record {
  owners = some (as_owner cr true ∷ []);
  result = update;
}

-- `isCurrentCROwner` on the first reference
abbrev pub is_current_owner : Custom → OwnerReference → Bool
is_current_owner cr o = str_eq o.uid cr.uid && str_eq o.kind cr.kind && str_eq o.name cr.name

-- whether `DeleteReferencesToAutomatedMCIfExists` takes the console's set away
unfoldable pub gives_up_set : Custom → List OwnerReference → Bool
gives_up_set cr [] = false
gives_up_set cr (o ∷ []) = is_current_owner cr o
gives_up_set cr (o ∷ p ∷ rest) = true

-- What it asks the API server to delete, and the error that is returned.
pub record Deleted : Type 0 where
  pub set_deleted : Bool
  pub map_deleted : Bool
  pub result : Option Err

-- after the set was deleted: its config map, which need not exist
abbrev pub delete_map : Option Err → Option Err → Deleted
delete_map none answer = record { set_deleted = true; map_deleted = true; result = answer }
delete_map (some not_found) answer = record {
  set_deleted = true;
  map_deleted = false;
  result = none;
}
delete_map (some (failed t)) answer = record {
  set_deleted = true;
  map_deleted = false;
  result = some (failed t);
}

-- the delete of the set, with its answer
abbrev pub delete_set : Option Err → Option Err → Option Err → Deleted
delete_set (some e) get_map answer = record {
  set_deleted = true;
  map_deleted = false;
  result = some e;
}
delete_set none get_map answer = delete_map get_map answer

-- `DeleteReferencesToAutomatedMCIfExists`, with the answers of the reads and deletes in their order
unfoldable pub delete_references :
    Custom → Fetched (List OwnerReference) → Option Err → Option Err → Option Err → Deleted
unfolding gives_up_set
delete_references cr (fails e) delete_answer get_map map_answer = record {
  set_deleted = false;
  map_deleted = false;
  result = none;
}
delete_references cr (found owners) delete_answer get_map map_answer =
    if gives_up_set cr owners
    then delete_set delete_answer get_map map_answer
    else record { set_deleted = false; map_deleted = false; result = none }

unfoldable pub has_owner : OwnerReference → List OwnerReference → Bool
has_owner o [] = false
has_owner o (x ∷ rest) = owners_equal x o || has_owner o rest

-- `SetConfigMapOwnerRef`
unfoldable pub set_config_map_owner_ref : Custom → List OwnerReference → Option Err → Saved
unfolding has_owner
set_config_map_owner_ref cr owners update =
    if has_owner (as_owner cr false) owners
    then record { owners = none; result = none }
    else record { owners = some (owners ++ (as_owner cr false ∷ [])); result = update }

-- `getNumOfOwnerRefsKind`
unfoldable pub count_of_kind : String → List OwnerReference → ℕ
count_of_kind kind [] = 0
count_of_kind kind (o ∷ rest) =
    let n = count_of_kind kind rest in if str_eq o.kind kind then suc n else n

pub record Removal : Type 0 where
  pub owners : List OwnerReference
  pub count : ℕ

-- The loop of `RemoveConfigMapOwnerRef`, which shortens the list under its index: the reference
-- after one that it removes is skipped.
unfoldable pub remove_owner : OwnerReference → Bool → List OwnerReference → Removal
remove_owner o skips [] = record { owners = []; count = 0 }
remove_owner o true (x ∷ rest) =
    let r = remove_owner o false rest in record { owners = x ∷ r.owners; count = r.count }
remove_owner o false (x ∷ rest) =
    let r = remove_owner o (owners_equal x o) rest in
    if owners_equal x o
    then record { owners = r.owners; count = suc r.count }
    else record { owners = x ∷ r.owners; count = r.count }

-- What `RemoveConfigMapOwnerRef` writes and returns.
pub record Left : Type 0 where
  pub written : Option (List OwnerReference)
  pub ref_count : ℕ
  pub result : Option Err

abbrev pub after_left_update : Removal → Option Err → Left
after_left_update r none = record { written = some r.owners; ref_count = r.count; result = none }
after_left_update r (some e) = record { written = some r.owners; ref_count = 0; result = some e }

unfoldable pub remove_config_map_owner_ref :
    Custom → Fetched (List OwnerReference) → Option Err → Left
unfolding remove_owner
remove_config_map_owner_ref cr (fails e) update = record {
  written = none;
  ref_count = 0;
  result = some e;
}
remove_config_map_owner_ref cr (found owners) update =
    let r = remove_owner (as_owner cr false) false owners in
    if ltb 0 r.count
    then after_left_update r update
    else record { written = none; ref_count = 0; result = none }

-- `StatefulSetScalingType`
pub data ScalingType : Type 0 where
  not_scaling scales_up scales_down : ScalingType

-- What `IsStatefulSetScalingUpOrDown` returns.
pub record Scaling : Type 0 where
  pub scaling_type : ScalingType
  pub result : Option Err

-- `IsStatefulSetScalingUpOrDown`
unfoldable pub is_scaling_up_or_down : Fetched ℕ → ℕ → Scaling
is_scaling_up_or_down (fails e) desired = record { scaling_type = not_scaling; result = some e }
is_scaling_up_or_down (found replicas) desired =
    if ltb replicas desired
    then record { scaling_type = scales_up; result = none }
    else if ltb desired replicas
    then record { scaling_type = scales_down; result = none }
    else record { scaling_type = not_scaling; result = none }
