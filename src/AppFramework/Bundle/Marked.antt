-- ===== src/AppFramework/Bundle/Marked.antt =====
-- Which apps a complete push counts as installed, told without the code.
use splunk_operator_mirror_d.AppFramework.Phases.{scope_of, is_pod_copy}
use splunk_operator_mirror_d.AppFramework.Deployment.Changes.{
  set_cluster_installed, set_installed, BundleStage,
}
use splunk_operator_mirror_d.AppFramework.Types.{
  pod_copy, install, Config, AppDeploymentInfo, AppPhase,
}
use splunk_operator_mirror_d.AppFramework.Status
use splunk_operator_mirror_d.Prelude.{
  [], ◌∷◌, inl, inr, true, false, refl, String, List, ◌≡◌, ◌⊎◌, arith, Bool-cases, str_eq, eq_iff,
  map, str_eq-ne, ◌==◌,
}

-- Lists of one length whose members are related, place by place.
abbrev pub Each {ℓ} : {A : Type ℓ} → (A → A → Type 0) → List A → List A → Type 0
Each R [] [] = Unit
Each R (x ∷ xs) (y ∷ ys) = R x y × Each R xs ys
Each R _ _ = ⊥

-- An app of a source of this scope whose copy to the pods is complete, before the push.
abbrev pub IsCopied : String → AppDeploymentInfo → Type 0
IsCopied scope a =
    (scope ≡ "cluster")
    × (a.phase_info.phase ≡ pod_copy)
    × (a.phase_info.status ≡ Status.pod_copy_complete)

-- A copied app is shown as installed, and otherwise as before; any other app is as before.
abbrev pub AppMarks : String → AppDeploymentInfo → AppDeploymentInfo → Type 0
AppMarks scope a b =
    (IsCopied scope a
      × (b ≡ record a {
        phase_info = record a.phase_info { phase = install; status = Status.install_complete };
      }))
    ⊎ ((¬ IsCopied scope a) × (b ≡ a))

abbrev pub SourceMarks :
    Config → String × List AppDeploymentInfo → String × List AppDeploymentInfo → Type 0
SourceMarks cfg (src, apps) (src', apps') =
    (src' ≡ src) × Each (AppMarks (scope_of cfg src)) apps apps'

is_pod_copy-eq : (p : AppPhase) → is_pod_copy p ≡ true → p ≡ pod_copy
is_pod_copy-eq p h = ground arith

set_installed-AppMarks : (a : AppDeploymentInfo) → AppMarks "cluster" a (set_installed a)
unfolding set_installed
set_installed-AppMarks a = elim (Bool-cases (is_pod_copy a.phase_info.phase)) [
  | inr other ↦ inr (λ (c, p, s). ground arith, ground arith)
  | inl copy ↦ elim (Bool-cases (a.phase_info.status == Status.pod_copy_complete)) [
    | inl done ↦ inl ((refl, is_pod_copy-eq a.phase_info.phase copy, ground arith), ground arith)
    | inr unfinished ↦ inr (λ (c, p, s). ground arith, ground arith)
  ]
]

cluster_apps-Each :
    (apps : List AppDeploymentInfo) → Each (AppMarks "cluster") apps (map set_installed apps)
cluster_apps-Each [] = tt
cluster_apps-Each (a ∷ apps) = (set_installed-AppMarks a, cluster_apps-Each apps)

other_apps-Each :
    (scope : String) (apps : List AppDeploymentInfo)
    → str_eq scope "cluster" ≡ false
    → Each (AppMarks scope) apps apps
other_apps-Each scope [] h = tt
other_apps-Each scope (a ∷ apps) h =
    (inr (λ (c, p, s). str_eq-ne scope "cluster" h c, refl), other_apps-Each scope apps h)

pub sources-Each :
    (cfg : Config) (sources : List (String × List AppDeploymentInfo)) (stage : BundleStage)
    → Each
        (SourceMarks cfg)
        sources
        (set_cluster_installed cfg (record { sources = sources; bundle_stage = stage })).sources
unfolding set_cluster_installed
sources-Each cfg [] stage = tt
sources-Each cfg ((src, apps) ∷ rest) stage =
    elim (Bool-cases (str_eq (scope_of cfg src) "cluster")) [
      | inl cluster ↦ rw (cluster) (
        (refl, rw ((eq_iff (scope_of cfg src) "cluster").0 cluster) (cluster_apps-Each apps)),
        sources-Each cfg rest stage,
      )
      | inr other ↦
          rw other
            ((refl, other_apps-Each (scope_of cfg src) apps other), sources-Each cfg rest stage)
    ]
