-- ===== src/AppFramework/Deployment/Replicas.antt =====
-- The phase infos of the replicas of an app package, when the number of replicas changes.
use splunk_operator_mirror_d.AppFramework.Phases.{is_complete}
use splunk_operator_mirror_d.AppFramework.Deployment.{is_deleted, replicate, not, ltb}
use splunk_operator_mirror_d.AppFramework.Types.{download, pod_copy, PhaseInfo, AppDeploymentInfo}
use splunk_operator_mirror_d.Prelude.{
  ◌∷◌, true, false, [], ℕ, List, ◌++◌, Bool, if◌then◌else◌, take, length, replicate, not, ◌≡◌, ◌-◌,
  ◌&&◌, ltb, length-append, ◌∙◌, ap, length-replicate, ◌≤◌, arith, length-take, take-append,
  take_all,
}
use splunk_operator_mirror_d.AppFramework.Status

-- `updateAuxPhaseInfo`: `missing` pending copies at the end
unfoldable pub extend_aux : ℕ → List PhaseInfo → List PhaseInfo
extend_aux desired aux =
    aux
    ++ replicate (desired - length aux)
        (record { phase = pod_copy; status = Status.pod_copy_pending; fail_count = 0 })

abbrev pub is_empty : List PhaseInfo → Bool
is_empty [] = true
is_empty (i ∷ is) = false

-- one round of `changePhaseInfo`
unfoldable pub change_phase : ℕ → AppDeploymentInfo → AppDeploymentInfo
unfolding extend_aux
change_phase desired a = if is_deleted a then a else record a {
  phase_info = record a.phase_info { phase = download; status = Status.download_pending };
  aux_phase_info =
      if is_empty a.aux_phase_info then a.aux_phase_info else extend_aux desired a.aux_phase_info;
}

-- one round of `removeStaleEntriesFromAuxPhaseInfo`
unfoldable pub remove_stale : ℕ → AppDeploymentInfo → AppDeploymentInfo
remove_stale desired a =
    if not (is_empty a.aux_phase_info) && ltb desired (length a.aux_phase_info)
    then record a { aux_phase_info = take desired a.aux_phase_info }
    else a

abbrev pending_copy : PhaseInfo
pending_copy = record { phase = pod_copy; status = Status.pod_copy_pending; fail_count = 0 }

extend_aux_lem :
    (desired : ℕ) (aux : List PhaseInfo)
    → length aux ≤ desired
    → (length (extend_aux desired aux) ≡ desired)
      × (take (length aux) (extend_aux desired aux) ≡ aux)
unfolding extend_aux
extend_aux_lem desired aux h =
    let new_infos = replicate (desired - length aux) pending_copy in
    let whole = length-append aux new_infos in
    let size = length-replicate (desired - length aux) pending_copy in
    (omega (arith, whole, size), take-append aux new_infos)

change_phase_lem :
    (desired : ℕ) (a : AppDeploymentInfo)
    → is_deleted a ≡ false
    → is_empty a.aux_phase_info ≡ false
    → ((change_phase desired a).aux_phase_info ≡ extend_aux desired a.aux_phase_info)
      × (is_complete (change_phase desired a).phase_info ≡ false)
unfolding change_phase is_complete
change_phase_lem desired a h e = (ground arith, ground arith)

remove_stale_lem :
    (desired : ℕ) (a : AppDeploymentInfo)
    → is_empty a.aux_phase_info ≡ false
    → desired ≤ length a.aux_phase_info
    → (remove_stale desired a).aux_phase_info ≡ take desired a.aux_phase_info
unfolding remove_stale
remove_stale_lem desired a e h = ground (arith, take_all desired a.aux_phase_info)

-- An app package that is not deleted and has infos of its replicas. On more replicas its infos
-- are kept in order with pending copies for the new replicas, one info for each replica, and a
-- download starts again; on fewer replicas exactly the first ones are kept.
pub resize-aux :
    (desired : ℕ) (a : AppDeploymentInfo)
    → is_deleted a ≡ false
    → is_empty a.aux_phase_info ≡ false
    → let grown = change_phase desired a in
      let shrunk = remove_stale desired a in
      (length a.aux_phase_info ≤ desired
        → (length grown.aux_phase_info ≡ desired)
          × (take (length a.aux_phase_info) grown.aux_phase_info ≡ a.aux_phase_info)
          × (is_complete grown.phase_info ≡ false))
      × (desired ≤ length a.aux_phase_info
          → (length shrunk.aux_phase_info ≡ desired)
            × (shrunk.aux_phase_info ≡ take desired a.aux_phase_info))
resize-aux desired a h e =
    let (same, open_again) = change_phase_lem desired a h e in
    (
      λ le.
          let (size, kept) = extend_aux_lem desired a.aux_phase_info le in
          (ap length same ∙ size, ap (take (length a.aux_phase_info)) same ∙ kept, open_again),
      λ le.
          let cut_off = remove_stale_lem desired a e le in
          (ap length cut_off ∙ length-take desired a.aux_phase_info le, cut_off),
    )
