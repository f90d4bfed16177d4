-- ===== src/AppFramework/Deployment/Scenarios.antt =====
-- Listings of the remote storage and changes of the replicas, on small inputs.
use splunk_operator_mirror_d.AppFramework.Deployment.Sources.{HasKey, listed_apps-HasKey}
use splunk_operator_mirror_d.AppFramework.Deployment.{
  add_or_update, RemoteObject, RepoState, mark_missing, refresh_app, scan_found, scan_object,
  scan_objects, is_on_remote, has_app_extension,
}
use splunk_operator_mirror_d.AppFramework.Types.{
  deploy_complete, active, install, AppDeploymentInfo, RepoState, deleted,
}
use splunk_operator_mirror_d.Prelude.{◌∷◌, false, [], String, List, ◌≡◌, refl, ◌⊎◌}

abbrev known_app : String → RepoState → AppDeploymentInfo
known_app name state = record {
  app_name = name;
  object_hash = "abcd";
  is_update = false;
  size = 0;
  repo_state = state;
  deploy_status = deploy_complete;
  top_folder = "";
  phase_info = record { phase = install; status = 303; fail_count = 0 };
  aux_phase_info = record { phase = install; status = 303; fail_count = 0 } ∷ [];
}

abbrev listing : List RemoteObject
listing =
    record { key = "apps/app1.tgz"; etag = "abcd" }
    ∷ record { key = "apps/app2.tgz"; etag = "ef01" }
    ∷ record { key = "apps/notes.txt"; etag = "2345" }
    ∷ []

abbrev known_apps : List AppDeploymentInfo
known_apps = known_app "app1.tgz" active ∷ known_app "app3.tgz" active ∷ []

listed_apps-HasKey_example : (active ≡ deleted) ⊎ HasKey listing "app1.tgz"
unfolding add_or_update mark_missing refresh_app scan_found scan_object scan_objects is_on_remote
    has_app_extension
listed_apps-HasKey_example =
    listed_apps-HasKey listing known_apps 0 (known_app "app1.tgz" active) refl
