-- ===== src/Indexer/Replication/Peers.antt =====
-- What `verifyRFPeers` makes of the replicas.
use splunk_operator_mirror_d.Indexer.Replication.Origin.{
  has_comma, Matches, get_origin_count-none, get_origin_count-decimal,
}
use splunk_operator_mirror_d.AppFramework.PodNames.{decimal}
use splunk_operator_mirror_d.AppFramework.Phases.{contains}
use splunk_operator_mirror_d.Indexer.Replication.{
  verify_rf_peers, ℕ, List, ClusterInfo, ℤ, ltb, origin, comma,
}
use splunk_operator_mirror_d.Prelude.{
  ◌∷◌, false, true, pos, some, ℕ, List, ℤ, ◌<◌, ◌≡◌, ◌^◌, if◌then◌else◌, ltb, arith, ◌++◌, not,
  ◌&&◌, none, ◌↔◌,
}

-- For a cluster with several sites, with a site replication factor in which the count `n`, below
-- 2 ^ 31, and a comma follow the last `origin:`, whatever stands before it: the replicas are raised
-- to `n`, and the warning published, exactly when they are fewer and that is the last comma. With
-- more commas, as in the form that names the sites, they stay as they are.
pub verify_rf_peers-site_factor :
    (front : List ℕ) (n m : ℕ) (rest : List ℕ) (factor : ℤ)
    → n < 2 ^ 31
    → contains rest origin ≡ false
    → let info : ClusterInfo = record {
      is_multi_site = true;
      site_factor = front ++ (origin ++ (decimal n ++ (comma ∷ rest)));
      factor = factor;
    } in
      verify_rf_peers (some info) m
      ≡ some (record {
        replicas = if not (has_comma rest) && ltb m n then n else m;
        is_warned = not (has_comma rest) && ltb m n;
        has_failed = false;
      })
unfolding verify_rf_peers
verify_rf_peers-site_factor front n m rest factor fits once =
    rw (get_origin_count-decimal front n rest fits once) (ground arith)

-- For a cluster with several sites the operator panics exactly if the site replication factor has
-- no `origin:` with a comma somewhere after it.
pub verify_rf_peers-panics :
    (m : ℕ) (text : List ℕ) (factor : ℤ)
    → let info : ClusterInfo = record {
      is_multi_site = true;
      site_factor = text;
      factor = factor;
    } in
      (verify_rf_peers (some info) m ≡ none) ↔ (¬ Matches text)
unfolding verify_rf_peers
verify_rf_peers-panics m text factor =
    let (to, from) = get_origin_count-none text in
    (λ h. to (ground arith), λ other. let panics_there = from other in ground arith)

-- For a cluster with one site the replicas are raised to the replication factor, and the warning
-- published, exactly when they are fewer.
pub verify_rf_peers-factor :
    (n m : ℕ) (text : List ℕ)
    → let info : ClusterInfo = record {
      is_multi_site = false;
      site_factor = text;
      factor = pos n;
    } in
      verify_rf_peers (some info) m
      ≡ some
          (record { replicas = if ltb m n then n else m; is_warned = ltb m n; has_failed = false })
unfolding verify_rf_peers
verify_rf_peers-factor n m text = ground arith
