-- ===== src/Merge.antt =====
-- The comparison of a stored pod template with a new one: the objects, and the sorting comparisons
-- of pkg/splunk/common/util.go. Go sorts both slices in place, so that a comparison changes both
-- sides. What the code only passes on of a Kubernetes object is of a type of its own, with its
-- comparison by JSON text and by `reflect.DeepEqual`; so is `sort.Slice` an argument.
pub mod Sorted
pub mod Pod
pub mod Settled
pub mod Apply
pub mod Service
pub mod Scenarios
use splunk_operator_mirror_d.Prelude.{
  ◌>>=◌, none, false, [], some, true, ◌∷◌, Option, ℕ, String, Bool, List, if◌then◌else◌, length,
  ◌&&◌, not, str_eq, ltb, ◌==◌, ◌||◌,
}
use Prim.Native.String.{compare, String}

-- An element of a slice: the field that it is sorted by, and the others.
pub record Item (K Rest : Type 0) : Type 0 where
  pub key : K
  pub rest : Rest

-- A nil slice is none.
abbrev pub Slice : Type 0 → Type 0
Slice A = Option (List A)

-- `corev1.Probe`: the four int32 that are compared, and the rest.
pub record Probe (Rest : Type 0) : Type 0 where
  pub initial_delay_seconds : ℕ
  pub timeout_seconds : ℕ
  pub period_seconds : ℕ
  pub failure_threshold : ℕ
  pub handler : Rest

-- `corev1.Container`; nil probes are none. `others` are the fields that are not merged.
pub record Container (Rest : Type 0) : Type 0 where
  pub image : String
  pub ports : Slice (Item ℕ Rest)
  pub volume_mounts : Slice (Item String Rest)
  pub resources : Rest
  pub env : Slice (Item String Rest)
  pub liveness_probe : Option (Probe Rest)
  pub readiness_probe : Option (Probe Rest)
  pub startup_probe : Option (Probe Rest)
  pub others : Rest

pub record InitContainer (Rest : Type 0) : Type 0 where
  pub image : String
  pub others : Rest

-- `corev1.PodTemplateSpec`, its metadata and its spec.
pub record PodTemplate (Rest : Type 0) : Type 0 where
  pub annotations : Rest
  pub labels : Rest
  pub service_account_name : String
  pub affinity : Rest
  pub tolerations : Slice (Item String Rest)
  pub topology_spread_constraints : Slice (Item String Rest)
  pub image_pull_secrets : Slice (Item String Rest)
  pub scheduler_name : String
  pub volumes : Slice (Item String Rest)
  pub init_containers : List (InitContainer Rest)
  pub containers : List (Container Rest)
  pub others : Rest

-- Whether a difference was found, and what the two sides are afterwards.
pub record Merged (A : Type 0) : Type 0 where
  pub changed : Bool
  pub current : A
  pub revised : A

-- `if same { } else { current = revised; result = true }`
unfoldable pub merge_if : {A : Type 0} → Bool → A → A → Merged A
merge_if same current revised =
    if same
    then record { changed = false; current = current; revised = revised }
    else record { changed = true; current = revised; revised = revised }

unfoldable pub slice_length : {A : Type 0} → Slice A → ℕ
slice_length none = 0
slice_length (some xs) = length xs

module _ {K Rest : Type 0} (same_key : K → K → Bool) (deep_equal : Rest → Rest → Bool) where
  unfoldable pub items_equal : List (Item K Rest) → List (Item K Rest) → Bool
  items_equal [] [] = true
  items_equal (a ∷ xs) (b ∷ ys) =
      (same_key a.key b.key && deep_equal a.rest b.rest) && items_equal xs ys
  items_equal xs ys = false

  -- `reflect.DeepEqual` of two slices: a nil slice differs from an empty one.
  unfoldable pub slices_equal : Slice (Item K Rest) → Slice (Item K Rest) → Bool
  slices_equal none none = true
  slices_equal (some xs) (some ys) = items_equal xs ys
  slices_equal xs ys = false

  module _ (sort : List (Item K Rest) → List (Item K Rest)) where
    -- `SortSlice`
    unfoldable pub sort_slice : Slice (Item K Rest) → Slice (Item K Rest)
    sort_slice none = none
    sort_slice (some xs) = some (sort xs)

    -- `if CompareX(current.X, revised.X) { current.X = revised.X; result = true }` with
    -- `sortAndCompareSlices`, which leaves slices of different lengths unsorted.
    unfoldable pub merge_slice :
        Slice (Item K Rest) → Slice (Item K Rest) → Merged (Slice (Item K Rest))
    merge_slice a b =
        if slice_length a == slice_length b
        then merge_if (slices_equal (sort_slice a) (sort_slice b)) (sort_slice a) (sort_slice b)
        else merge_if false a b
