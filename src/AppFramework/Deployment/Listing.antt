-- ===== src/AppFramework/Deployment/Listing.antt =====
-- What `AddOrUpdateAppSrcDeploymentInfoList` reports as a change.
use mathlib.Core.Bool.{false≢true}
use splunk_operator_mirror_d.AppFramework.Types.{AppDeploymentInfo}
use splunk_operator_mirror_d.AppFramework.Deployment.{
  refresh_app, scan_object, scan_objects, add_or_update, scan_found, RemoteObject,
  AppDeploymentInfo, Scan, Bool, all_of, not, has_app_extension, str_eq, is_current, updated_app,
  base_name,
}
use splunk_operator_mirror_d.Prelude.{
  inr, none, true, ◌∷◌, false, inl, some, [], refl, String, List, Bool, ◌≡◌, all_of, ◌++◌,
  if◌then◌else◌, not, arith, ◌⊎◌, Bool-cases, ap, str_eq, ◌||◌, sym, ◌∙◌,
}

-- The first app of that name has that hash and is not deleted.
abbrev pub is_known : String → String → List AppDeploymentInfo → Bool
is_known name etag [] = false
is_known name etag (a ∷ rest) =
    if str_eq a.app_name name then is_current etag a else is_known name etag rest

-- An object that changes nothing: it is no app package, or its app is known.
abbrev pub is_settled : List AppDeploymentInfo → RemoteObject → Bool
is_settled apps o = not (has_app_extension o.key) || is_known (base_name o.key) o.etag apps

refresh_app-known :
    (name etag : String) (apps : List AppDeploymentInfo)
    → is_known name etag apps ≡ true
    → refresh_app name etag apps ≡ some (apps, false)
unfolding refresh_app
refresh_app-known name etag [] h = cc
refresh_app-known name etag (a ∷ rest) h = ground (arith, refresh_app-known name etag rest)

refresh_app-unknown :
    (name etag : String) (apps : List AppDeploymentInfo)
    → is_known name etag apps ≡ false
    → (refresh_app name etag apps ≡ none)
      ⊎ ((apps' : List AppDeploymentInfo) × (refresh_app name etag apps ≡ some (apps', true)))
unfolding refresh_app
refresh_app-unknown name etag [] h = inl refl
refresh_app-unknown name etag (a ∷ rest) h = elim (Bool-cases (str_eq a.app_name name)) [
  | inl same ↦ inr (updated_app etag a ∷ rest, ground arith)
  | inr other ↦ elim (refresh_app-unknown name etag rest (ground arith)) [
    | inl e ↦ inl (ground arith)
    | inr (apps', e) ↦ inr (a ∷ apps', ground arith)
  ]
]

abbrev pub start : List AppDeploymentInfo → Scan
start apps = record { known = apps; added = []; changed = false }

scan_object-settled :
    (o : RemoteObject) (apps : List AppDeploymentInfo)
    → is_settled apps o ≡ true
    → scan_object o (start apps) ≡ start apps
unfolding scan_object scan_found
scan_object-settled o apps h = elim (Bool-cases (has_app_extension o.key)) [
  | inr other ↦ rw other refl
  | inl app ↦
      let q = refresh_app-known (base_name o.key) o.etag apps (simp app at h) in rw (app, q) refl
]

scan_object-unsettled :
    (o : RemoteObject) (apps : List AppDeploymentInfo)
    → is_settled apps o ≡ false
    → (scan_object o (start apps)).changed ≡ true
unfolding scan_object scan_found
scan_object-unsettled o apps h = elim (Bool-cases (has_app_extension o.key)) [
  | inr other ↦ ground arith
  | inl app ↦ elim (refresh_app-unknown (base_name o.key) o.etag apps (simp app at h)) [
    | inl q ↦ rw (app, q) refl
    | inr (apps', q) ↦ rw (app, q) refl
  ]
]

scan_object-changed :
    (o : RemoteObject) (s : Scan) → s.changed ≡ true → (scan_object o s).changed ≡ true
unfolding scan_object scan_found
scan_object-changed o s h = ground arith

scan_objects-changed :
    (os : List RemoteObject) (s : Scan) → s.changed ≡ true → (scan_objects os s).changed ≡ true
unfolding scan_objects
scan_objects-changed [] s h = h
scan_objects-changed (o ∷ os) s h =
    scan_objects-changed os (scan_object o s) (scan_object-changed o s h)

scan_objects-settled :
    (os : List RemoteObject) (apps : List AppDeploymentInfo)
    → all_of (is_settled apps) os ≡ true
    → scan_objects os (start apps) ≡ start apps
unfolding scan_objects
scan_objects-settled [] apps h = refl
scan_objects-settled (o ∷ os) apps h =
    rw (scan_object-settled o apps (ground arith)) (scan_objects-settled os apps (ground arith))

scan_objects-unsettled :
    (os : List RemoteObject) (apps : List AppDeploymentInfo)
    → all_of (is_settled apps) os ≡ false
    → (scan_objects os (start apps)).changed ≡ true
unfolding scan_objects
scan_objects-unsettled [] apps h = cc
scan_objects-unsettled (o ∷ os) apps h = elim (Bool-cases (is_settled apps o)) [
  | inl same ↦
      let q = scan_object-settled o apps same in
      ap (λ s. (scan_objects os s).changed) q ∙ scan_objects-unsettled os apps (simp same at h)
  | inr other ↦
      scan_objects-changed os (scan_object o (start apps)) (scan_object-unsettled o apps other)
]

append-nil : (apps : List AppDeploymentInfo) → apps ++ [] ≡ apps
append-nil [] = refl
append-nil (a ∷ rest) = ap (λ l. a ∷ l) (append-nil rest)

-- A listing is reported as a change exactly when one of its objects is an app package whose app is
-- not known under its name with its hash, or is deleted; without a change the list of the apps
-- stays as it is.
pub add_or_update-changed :
    (os : List RemoteObject) (apps : List AppDeploymentInfo)
    → ((add_or_update os apps).1 ≡ not (all_of (is_settled apps) os))
      × ((add_or_update os apps).1 ≡ false → (add_or_update os apps).0 ≡ apps)
unfolding add_or_update
add_or_update-changed os apps = elim (Bool-cases (all_of (is_settled apps) os)) [
  | inl all ↦
      let q = scan_objects-settled os apps all in (rw (q, all) refl, λ e. rw q (append-nil apps))
  | inr some_new ↦
      let q = scan_objects-unsettled os apps some_new in
      (rw some_new q, λ e. absurd (false≢true (sym e ∙ q)))
]
