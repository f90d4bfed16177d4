-- ===== src/AppFramework/PodNames/Scenarios.antt =====
-- The name of a deployer's pod.
use splunk_operator_mirror_d.AppFramework.PodNames.RoundTrip.{
  get_ordinal_val_from_pod_name-get_applicable_pod_name,
}
use splunk_operator_mirror_d.AppFramework.PodNames.{
  pod_type, get_ordinal_val_from_pod_name, get_applicable_pod_name, count_dashes,
}
use splunk_operator_mirror_d.Prelude.{some, none, refl, ◌≡◌, arith}
use splunk_operator_mirror_d.AppFramework.Types.{other_kind, search_head_cluster}

deployer_type : pod_type search_head_cluster ≡ some "deployer"
unfolding pod_type
deployer_type = refl

get_ordinal_val_from_pod_name-get_applicable_pod_name_example :
    get_ordinal_val_from_pod_name (get_applicable_pod_name search_head_cluster "my-shc-2" 10)
    ≡ some 10
get_ordinal_val_from_pod_name-get_applicable_pod_name_example =
    get_ordinal_val_from_pod_name-get_applicable_pod_name search_head_cluster "deployer" "my-shc-2"
      10 deployer_type (omega arith)

no_pod_of_indexers :
    get_ordinal_val_from_pod_name (get_applicable_pod_name (other_kind "IndexerCluster") "idx" 0)
    ≡ none
unfolding get_ordinal_val_from_pod_name get_applicable_pod_name pod_type count_dashes
no_pod_of_indexers = refl
