-- ===== src/AppFramework/Pipeline/Downloads.antt =====
-- Attempts to download an app package: how many there are, and what an attempt leaves behind.
use splunk_operator_mirror_d.AppFramework.Types.{AppDeploymentInfo, Config, Worker}
use splunk_operator_mirror_d.AppFramework.Phases.{retries_reached}
use splunk_operator_mirror_d.AppFramework.Pipeline.Running.{download_app, handle_download, Download}
use splunk_operator_mirror_d.Prelude.{
  true, suc, false, zero, refl, ℕ, ◌+◌, ◌≡◌, ◌<◌, ◌≢◌, ◌^◌, ◌↔◌, arith, ltb, ◌≤◌, ◌∙◌, ap, ◌&&◌,
}
use splunk_operator_mirror_d.AppFramework.Status

-- `k` attempts that all fail: the key is not found, or the package does not arrive.
abbrev pub failed_downloads : ℕ → AppDeploymentInfo → AppDeploymentInfo
unfolding download_app
failed_downloads zero a = a
failed_downloads (suc k) a = failed_downloads k (download_app true false a)

failed_downloads-count :
    (k : ℕ) (a : AppDeploymentInfo)
    → a.phase_info.fail_count + k < 2 ^ 32
    → ((failed_downloads k a).phase_info.fail_count ≡ a.phase_info.fail_count + k)
      × ((failed_downloads k a).phase_info.phase ≡ a.phase_info.phase)
unfolding failed_downloads
failed_downloads-count zero a h = (omega arith, refl)
failed_downloads-count (suc k) a h =
    let once = download_app true false a in
    let one : once.phase_info.fail_count ≡ a.phase_info.fail_count + 1 =
      unfold download_app in omega arith in
    let (count, same) = failed_downloads-count k once (omega arith) in
    (omega arith, same ∙ unfold download_app in refl)

-- A package with no failures is tried once and then `max_retries` times: after `k` failed downloads
-- the retries are used up exactly when `k` is greater than `max_retries`. `k` fits an uint32.
pub failed_downloads-retries :
    (cfg : Config) (k : ℕ) (a : AppDeploymentInfo)
    → a.phase_info.fail_count ≡ 0
    → k < 2 ^ 32
    → retries_reached cfg (failed_downloads k a).phase_info ≡ ltb cfg.max_retries k
unfolding retries_reached
failed_downloads-retries cfg k a z h =
    let (count, same) = failed_downloads-count k a (omega arith) in
    let exact : (failed_downloads k a).phase_info.fail_count ≡ k = omega arith in
    ap (ltb cfg.max_retries) exact

-- After a download is handled, an active worker is still active with its package not complete, so
-- that no visit hands it over again, exactly when the space was reserved and then the directory or
-- the client of the remote storage was missing.
pub handle_download-stuck :
    (d : Download) (w : Worker) (a : AppDeploymentInfo) (free : ℕ)
    → w.is_active ≡ true
    → let (w', a', left) = handle_download d w a free in
      ((w'.is_active ≡ true) × (a'.phase_info.status ≢ Status.download_complete)) ↔ (
        (d.is_downloaded ≡ false)
        × (d.has_volume ≡ true)
        × (a.size ≤ free)
        × ((d.has_dir && d.has_client) ≡ false))
unfolding handle_download
handle_download-stuck d w a free h = (λ (on, st). ground arith, λ (n, v, le, m). ground arith)
