-- ===== src/UploadManifest/Checked.antt =====
-- When the script uploads.
use zen_desktop_localcdn.Common.{
  Bool, true, false, ◌||◌, List, [], ◌∷◌, Option, none, some, if◌then◌else◌, Text, codes, Result,
  ok, throw, bind-eq-ok, All, ◌≡◌, ◌⊎◌, inl, inr, refl, sym, ap, ◌∙◌,
}
use zen_desktop_localcdn.UploadManifest.{
  Release, Stored, not_found, not_ok, version_of, World, Target, platform_assets, manifest_url,
  not_at_least, compare_stored, fetch_and_compare_manifest, check_all, Exit, Run, has_arg,
  is_forced, stop_with, after_check, with_body, with_release, upload_manifests,
}

-- The manifest of a target is not there, or of an older version.
abbrev pub MayReplace : World → Text → Target → Type 0
MayReplace w v t =
    (w.stored (manifest_url t) ≡ ok not_found)
    ⊎ ((old : Text) × (w.stored (manifest_url t) ≡ ok (version_of old)) × (w.lte v old ≡ ok false))

compare_stored-ok :
    (w : World) (v : Text) (s : Stored) {u : Unit {0}}
    → compare_stored w v s ≡ ok u
    → (s ≡ not_found) ⊎ ((old : Text) × (s ≡ version_of old) × (w.lte v old ≡ ok false))
compare_stored-ok w v not_found h = inl refl
compare_stored-ok w v not_ok h = cc
compare_stored-ok w v (version_of old) h =
    let (b, l, k) = bind-eq-ok (w.lte v old) not_at_least h in
    inr (old, refl, l ∙ ap ok (smaller b k))
  where
    smaller : (b : Bool) {u : Unit {0}} → not_at_least b ≡ ok u → b ≡ false
    smaller true e = cc
    smaller false e = refl

check_all-MayReplace :
    (w : World) (v : Text) (ts : List Target) {u : Unit {0}}
    → check_all w v ts ≡ ok u
    → All (MayReplace w v) ts
unfolding check_all
check_all-MayReplace w v [] h = tt
check_all-MayReplace w v (t ∷ ts) h =
    let (u, now, later) = bind-eq-ok (fetch_and_compare_manifest w v t) _ h in
    let (s, found, compared) = bind-eq-ok (w.stored (manifest_url t)) _ now in
    (
      elim (compare_stored-ok w v s compared) [
        | inl e ↦ inl (found ∙ ap ok e)
        | inr (old, e, l) ↦ inr (old, found ∙ ap ok e, l)
      ],
      check_all-MayReplace w v ts later,
    )

-- Nothing is published, or the manifests of all platforms may be replaced by the release's.
abbrev Checked : World → Run → Type 0
Checked w run =
    (run.effects ≡ [])
    ⊎ ((r : Release) × (w.latest_release ≡ ok (some r))
        × All (MayReplace w r.tag_name) platform_assets)

after_check-Checked :
    (w : World) (r : Release) (m : Result (Unit {0})) (run : Run)
    → w.latest_release ≡ ok (some r)
    → m ≡ check_all w r.tag_name platform_assets
    → Checked w (after_check m run)
after_check-Checked w r (throw e) run found same = inl refl
after_check-Checked w r (ok u) run found same =
    inr (r, found, check_all-MayReplace w r.tag_name platform_assets (sym same))

with_body-Checked :
    (w : World) (args : List Text) (r : Release) (body : Option Text)
    → w.latest_release ≡ ok (some r)
    → is_forced args ≡ false
    → Checked w (with_body w args r body)
with_body-Checked w args r none found h = inl refl
with_body-Checked w args r (some body) found h =
    after_check-Checked w r _ _ found
      (ap (λ b. if b then ok tt else check_all w r.tag_name platform_assets) h)

with_release-Checked :
    (w : World) (args : List Text) (m : Result (Option Release))
    → w.latest_release ≡ m
    → is_forced args ≡ false
    → Checked w (with_release w args m)
with_release-Checked w args (throw e) found h = inl refl
with_release-Checked w args (ok none) found h = inl refl
with_release-Checked w args (ok (some r)) found h = with_body-Checked w args r r.body found h

if-Checked :
    (w : World) (b : Bool) (x : Exit) (run : Run)
    → Checked w run
    → Checked w (if b then stop_with x else run)
if-Checked w true x run h = inl refl
if-Checked w false x run h = h

-- Without `--force` nothing is published unless, for each of the six platforms, the manifest that is
-- stored is missing or of an older version than the release.
pub upload_manifests-checked :
    (w : World) (args : List Text)
    → is_forced args ≡ false
    → ((upload_manifests w args).effects ≡ [])
      ⊎ ((r : Release) × (w.latest_release ≡ ok (some r))
          × All (MayReplace w r.tag_name) platform_assets)
unfolding upload_manifests
upload_manifests-checked w args h =
    if-Checked w (has_arg (codes "--help") args || has_arg (codes "-h") args) _
      (with_release w args w.latest_release) (with_release-Checked w args w.latest_release refl h)
