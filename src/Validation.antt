-- ===== src/Validation.antt =====
-- pkg/splunk/enterprise/configuration.go: the checks of the parts of a custom resource's spec. This
-- file holds the result that they share and the order in which they give up.
pub mod Volumes
pub mod Sources
pub mod Framework
pub mod Smartstore
pub mod Scenarios
use splunk_operator_mirror_d.Prelude.{true, false, refl, String, ◌≡◌, Bool, ℕ, ◌↔◌, ◌≢◌}

-- The errors, named for their format texts, with the arguments of `fmt.Errorf`.
pub data Reason : Type 0 where
  duplicate_volume_name bad_storage_type bad_provider volume_does_not_exist : String → Reason
  volume_name_missing : ℕ → Reason
  volume_endpoint_missing volume_path_missing : Reason
  bad_combination : String → String → Reason
  source_name_missing : ℕ → Reason
  duplicate_source_name location_missing source_volume_missing scope_missing : String → Reason
  invalid_source_volume : String → Reason → Reason
  scope_of_other_kind unknown_scope : String → Reason
  bad_premium_type bad_ssl_enablement : Reason
  cluster_ssl_auto : String → Reason
  duplicate_location : String → String → Reason
  default_scope_of_other_kind : Reason
  unknown_default_scope : String → Reason
  invalid_default_volume : Reason → Reason
  download_volume_missing : Reason
  index_name_missing : ℕ → Reason
  duplicate_index_name index_volume_missing : String → Reason
  invalid_index : String → Reason → Reason
  volumes_missing : ℕ → ℕ → Reason

-- `nil`, an error, or a run-time panic.
pub data Validity : Type 0 where
  accepts : Validity
  rejects : Reason → Validity
  panics : Validity

-- One check and, if it returns nil, the rest.
infixr 5 ◌and_then◌
unfoldable pub ◌and_then◌ : Validity → Validity → Validity
accepts and_then rest = rest
rejects e and_then rest = rejects e
panics and_then rest = panics

pub and_then-accepts : (a b : Validity) → (a and_then b ≡ accepts) ↔ ((a ≡ accepts) × (b ≡ accepts))
unfolding ◌and_then◌
and_then-accepts accepts b = (λ h. (refl, h), λ h. h.1)
and_then-accepts (rejects e) b = (λ h. cc, λ h. cc)
and_then-accepts panics b = (λ h. cc, λ h. cc)

-- `if b { return e }`
unfoldable pub refuse_if : Bool → Reason → Validity
refuse_if true e = rejects e
refuse_if false e = accepts

pub refuse_if-accepts : (b : Bool) (e : Reason) → (refuse_if b e ≡ accepts) ↔ (b ≡ false)
unfolding refuse_if
refuse_if-accepts true e = (λ h. cc, λ h. cc)
refuse_if-accepts false e = (λ h. refl, λ h. refl)

-- A chain panics only if a check does that is reached.
pub and_then-panics :
    (a b : Validity) → a ≢ panics → (a ≡ accepts → b ≢ panics) → (a and_then b) ≢ panics
unfolding ◌and_then◌
and_then-panics accepts b h later = later refl
and_then-panics (rejects e) b h later = λ p. cc
and_then-panics panics b h later = absurd (h refl)

pub refuse_if-panics : (b : Bool) (e : Reason) → refuse_if b e ≢ panics
unfolding refuse_if
refuse_if-panics true e = λ p. cc
refuse_if-panics false e = λ p. cc
