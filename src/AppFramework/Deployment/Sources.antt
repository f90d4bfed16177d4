-- ===== src/AppFramework/Deployment/Sources.antt =====
-- Which apps of a source stay active after a listing.
use splunk_operator_mirror_d.AppFramework.Types.{AppDeploymentInfo, deleted}
use splunk_operator_mirror_d.AppFramework.Phases.{codes}
use splunk_operator_mirror_d.AppFramework.Deployment.{
  mark_missing, refresh_app, ends_with, RemoteObject, ℕ, equal_codes, codes, AppDeploymentInfo,
  base_name, Bool, all_of, is_deleted, is_on_remote, Scan, scan_found, scan_object, scan_objects,
  add_or_update, Option, str_eq, updated_app, new_app, has_app_extension,
}
use splunk_operator_mirror_d.Prelude.{
  some, [], true, ◌∷◌, refl, List, String, ℕ, ◌≡◌, arith, Bool, all_of, ◌||◌, inl, none, false, inr,
  Option, str_eq, ◌++◌, Bool-cases, eq_iff, zero, suc, get_elem?, ap, ◌⊎◌,
}

equal_codes_refl : (s : List ℕ) → equal_codes s s ≡ true
equal_codes_refl [] = refl
equal_codes_refl (c ∷ s) = ground (arith, equal_codes_refl s)

ends_with_refl : (s : List ℕ) → ends_with s s ≡ true
ends_with_refl [] = refl
ends_with_refl (c ∷ s) = ground (arith, equal_codes_refl (c ∷ s))

ends_with-base_name : (key : String) → ends_with (codes key) (codes (base_name key)) ≡ true
ends_with-base_name String.[] = refl
ends_with-base_name (String.◌∷◌ c s) =
    ground (arith, ends_with-base_name s, ends_with_refl (codes (String.◌∷◌ c s)))

-- An app that is deleted, or whose name a key of the listing ends in.
abbrev pub is_backed : List RemoteObject → AppDeploymentInfo → Bool
is_backed os a = is_deleted a || is_on_remote a.app_name os

mark_missing-backed :
    (os : List RemoteObject) (apps : List AppDeploymentInfo)
    → all_of (is_backed os) (mark_missing os apps) ≡ true
unfolding mark_missing
mark_missing-backed os [] = refl
mark_missing-backed os (a ∷ rest) = ground (arith, mark_missing-backed os rest)

abbrev backed_result : List RemoteObject → Option (List AppDeploymentInfo × Bool) → Bool
backed_result os none = true
backed_result os (some (apps, c)) = all_of (is_backed os) apps

updated_app-backed :
    (os : List RemoteObject) (name etag : String) (a : AppDeploymentInfo)
    → is_on_remote name os ≡ true
    → str_eq a.app_name name ≡ true
    → is_backed os (updated_app etag a) ≡ true
updated_app-backed os name etag a on same =
    let e : a.app_name ≡ name = (eq_iff a.app_name name).0 same in ground arith

refresh_app-backed :
    (os : List RemoteObject) (name etag : String) (apps : List AppDeploymentInfo)
    → is_on_remote name os ≡ true
    → all_of (is_backed os) apps ≡ true
    → backed_result os (refresh_app name etag apps) ≡ true
unfolding refresh_app
refresh_app-backed os name etag [] on h = refl
refresh_app-backed os name etag (a ∷ rest) on h =
    ground (arith, refresh_app-backed os name etag rest on, updated_app-backed os name etag a on)

all_of-snoc :
    (os : List RemoteObject) (apps : List AppDeploymentInfo) (a : AppDeploymentInfo)
    → all_of (is_backed os) apps ≡ true
    → is_backed os a ≡ true
    → all_of (is_backed os) (apps ++ (a ∷ [])) ≡ true
all_of-snoc os [] a h k = ground arith
all_of-snoc os (b ∷ apps) a h k = ground (arith, all_of-snoc os apps a)

all_of-append :
    (os : List RemoteObject) (apps others : List AppDeploymentInfo)
    → all_of (is_backed os) apps ≡ true
    → all_of (is_backed os) others ≡ true
    → all_of (is_backed os) (apps ++ others) ≡ true
all_of-append os [] others h k = k
all_of-append os (b ∷ apps) others h k = ground (arith, all_of-append os apps others)

abbrev IsBacked : List RemoteObject → Scan → Type 0
IsBacked os s = (all_of (is_backed os) s.known ≡ true) × (all_of (is_backed os) s.added ≡ true)

scan_found-IsBacked :
    (os : List RemoteObject) (o : RemoteObject) (s : Scan)
    (r : Option (List AppDeploymentInfo × Bool))
    → is_on_remote (base_name o.key) os ≡ true
    → backed_result os r ≡ true
    → IsBacked os s
    → IsBacked os (scan_found o s r)
unfolding scan_found
scan_found-IsBacked os o s none on b (h, k) =
    (h, all_of-snoc os s.added (new_app (base_name o.key) o.etag) k (ground arith))
scan_found-IsBacked os o s (some (apps, c)) on b (h, k) = (b, k)

scan_object-IsBacked :
    (os : List RemoteObject) (o : RemoteObject) (s : Scan)
    → is_on_remote (base_name o.key) os ≡ true
    → IsBacked os s
    → IsBacked os (scan_object o s)
unfolding scan_object
scan_object-IsBacked os o s on (h, k) = elim (Bool-cases (has_app_extension o.key)) [
  | inr other ↦ rw other (h, k)
  | inl app ↦
      let r = refresh_app (base_name o.key) o.etag s.known in
      rw app (
        scan_found-IsBacked os o s r on
          (refresh_app-backed os (base_name o.key) o.etag s.known on h) (h, k))
]

-- The rest of a listing is scanned, all of whose objects the listing has.
abbrev AreListed : List RemoteObject → List RemoteObject → Type 0
AreListed os ps = all_of (λ p. is_on_remote (base_name p.key) os) ps ≡ true

scan_objects-IsBacked :
    (os ps : List RemoteObject) (s : Scan)
    → AreListed os ps
    → IsBacked os s
    → IsBacked os (scan_objects ps s)
unfolding scan_objects
scan_objects-IsBacked os [] s l h = h
scan_objects-IsBacked os (p ∷ ps) s l h =
    scan_objects-IsBacked os ps (scan_object p s) (ground arith)
      (scan_object-IsBacked os p s (ground arith) h)

is_on_remote-cons :
    (name : String) (o : RemoteObject) (os : List RemoteObject)
    → is_on_remote name os ≡ true
    → is_on_remote name (o ∷ os) ≡ true
unfolding is_on_remote
is_on_remote-cons name o os h = ground arith

AreListed-cons :
    (o : RemoteObject) (os ps : List RemoteObject) → AreListed os ps → AreListed (o ∷ os) ps
AreListed-cons o os [] h = refl
AreListed-cons o os (p ∷ ps) h =
    ground (arith, AreListed-cons o os ps, is_on_remote-cons (base_name p.key) o os)

AreListed-refl : (os : List RemoteObject) → AreListed os os
unfolding is_on_remote
AreListed-refl [] = refl
AreListed-refl (o ∷ os) =
    ground (arith, AreListed-cons o os os (AreListed-refl os), ends_with-base_name o.key)

listed_apps-backed :
    (os : List RemoteObject) (apps : List AppDeploymentInfo)
    → all_of (is_backed os) (add_or_update os (mark_missing os apps)).0 ≡ true
unfolding add_or_update
listed_apps-backed os apps =
    let left = mark_missing os apps in
    let begun : Scan = record { known = left; added = []; changed = false } in
    let (h, k) =
      scan_objects-IsBacked os os begun (AreListed-refl os) (mark_missing-backed os apps, refl) in
    all_of-append os (scan_objects os begun).known (scan_objects os begun).added h k

is_deleted-eq : (a : AppDeploymentInfo) → is_deleted a ≡ true → a.repo_state ≡ deleted
is_deleted-eq a h = ground arith

-- One of the listed objects has a key that ends in this name.
abbrev pub HasKey : List RemoteObject → String → Type 0
HasKey os name =
    (n : ℕ) × (o : RemoteObject) × (get_elem? os n ≡ some o)
    × (front : List ℕ) × (codes o.key ≡ front ++ codes name)

equal_codes-eq : (s t : List ℕ) → equal_codes s t ≡ true → s ≡ t
equal_codes-eq [] [] h = refl
equal_codes-eq [] (d ∷ t) h = cc
equal_codes-eq (c ∷ s) [] h = cc
equal_codes-eq (c ∷ s) (d ∷ t) h = ground (arith, equal_codes-eq s t)

ends_with-front : (s t : List ℕ) → ends_with s t ≡ true → (front : List ℕ) × (s ≡ front ++ t)
ends_with-front [] t h = ([], equal_codes-eq [] t h)
ends_with-front (c ∷ s) t h = elim (Bool-cases (equal_codes (c ∷ s) t)) [
  | inl same ↦ ([], equal_codes-eq (c ∷ s) t same)
  | inr other ↦
      let (front, e) = ends_with-front s t (ground arith) in (c ∷ front, ap (λ l. c ∷ l) e)
]

is_on_remote-HasKey :
    (name : String) (os : List RemoteObject) → is_on_remote name os ≡ true → HasKey os name
unfolding is_on_remote
is_on_remote-HasKey name [] h = cc
is_on_remote-HasKey name (o ∷ os) h = elim (Bool-cases (ends_with (codes o.key) (codes name))) [
  | inl here ↦
      let (front, e) = ends_with-front (codes o.key) (codes name) here in (0, o, refl, front, e)
  | inr other ↦
      let (n, p, there, front, e) = is_on_remote-HasKey name os (ground arith) in
      (suc n, p, there, front, e)
]

backed_at :
    (os : List RemoteObject) (apps : List AppDeploymentInfo) (n : ℕ) (a : AppDeploymentInfo)
    → all_of (is_backed os) apps ≡ true
    → get_elem? apps n ≡ some a
    → is_backed os a ≡ true
backed_at os [] n a h e = cc
backed_at os (b ∷ apps) zero a h e = ground arith
backed_at os (b ∷ apps) (suc n) a h e = backed_at os apps n a (ground arith) e

-- After a listing of an app source, every app of the source is marked as deleted, or one of the
-- listed objects has a key that ends in the name of the app.
pub listed_apps-HasKey :
    (os : List RemoteObject) (apps : List AppDeploymentInfo) (n : ℕ) (a : AppDeploymentInfo)
    → get_elem? (add_or_update os (mark_missing os apps)).0 n ≡ some a
    → (a.repo_state ≡ deleted) ⊎ HasKey os a.app_name
listed_apps-HasKey os apps n a e =
    let after = (add_or_update os (mark_missing os apps)).0 in
    let backed = backed_at os after n a (listed_apps-backed os apps) e in
    elim (Bool-cases (is_on_remote a.app_name os)) [
      | inl on ↦ inr (is_on_remote-HasKey a.app_name os on)
      | inr off ↦ inl (is_deleted-eq a (ground arith))
    ]
