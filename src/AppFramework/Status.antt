-- ===== src/AppFramework/Status.antt =====
-- `AppPhaseStatusType` of api/v4/common_types.go, an uint32.
use splunk_operator_mirror_d.Prelude.{ℕ}

abbrev pub download_pending : ℕ
download_pending = 101

abbrev pub download_in_progress : ℕ
download_in_progress = 102

abbrev pub download_complete : ℕ
download_complete = 103

abbrev pub download_error : ℕ
download_error = 199

abbrev pub pod_copy_pending : ℕ
pod_copy_pending = 201

abbrev pub pod_copy_in_progress : ℕ
pod_copy_in_progress = 202

abbrev pub pod_copy_complete : ℕ
pod_copy_complete = 203

abbrev pub missing_from_operator : ℕ
missing_from_operator = 298

abbrev pub pod_copy_error : ℕ
pod_copy_error = 299

abbrev pub install_pending : ℕ
install_pending = 301

abbrev pub install_in_progress : ℕ
install_in_progress = 302

abbrev pub install_complete : ℕ
install_complete = 303

abbrev pub missing_on_pod : ℕ
missing_on_pod = 398

abbrev pub install_error : ℕ
install_error = 399
