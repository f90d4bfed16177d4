-- ===== src/Api.antt =====
-- Names that every component shares: `Phase` of api/v4/common_types.go, Go's `error` values, and
-- what a call of the Kubernetes client gives back.
use splunk_operator_mirror_d.Prelude.{String}

-- `enterpriseApi.Phase`
pub data Phase : Type 0 where
  pending ready updating scaling_up scaling_down terminating error : Phase

-- An `error` that is not nil. `k8serrors.IsNotFound` tells the first one from the others.
pub data Err : Type 0 where
  not_found : Err
  failed : String → Err

-- A read through the client: an object or an error.
pub data Fetched {ℓ} (A : Type ℓ) : Type ℓ where
  found : A → Fetched A
  fails : Err → Fetched A
