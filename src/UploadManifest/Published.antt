-- ===== src/UploadManifest/Published.antt =====
-- What the script uploads.
use zen_desktop_localcdn.Common.{
  text_eq, text_eq_iff, Bool-cases, ℕ, Bool, true, false, ◌||◌, List, [], ◌∷◌, Option, none, some,
  if◌then◌else◌, Text, codes, Result, ok, throw, ◌>>=◌, bind-eq-ok, ok_or, All, ◌≡◌, ◌⊎◌, inl, inr,
  refl, sym, ap, ◌∙◌,
}
use zen_desktop_localcdn.UploadManifest.{
  hash_of, sha256_remote_asset, Asset, Release, Manifest, World, Target, platform_assets,
  bucket_key, check_all, Effect, uploaded, printed, done, Run, operate, publish_one, continue_run,
  publish_all, process_exit, find_asset, create_manifest_for_sys_arch, has_arg, is_forced, is_dry,
  stop_with, after_check, with_body, with_release, upload_manifests,
}

abbrev pub key_of : Effect → Text
key_of (uploaded key m) = key
key_of (printed key m) = key

abbrev pub manifest_of : Effect → Manifest
manifest_of (uploaded key m) = m
manifest_of (printed key m) = m

abbrev pub was_printed : Effect → Bool
was_printed (uploaded key m) = false
was_printed (printed key m) = true

abbrev pub Among : Asset → List Asset → Type 0
Among a [] = ⊥
Among a (b ∷ bs) = (b ≡ a) ⊎ Among a bs

-- The effect is that of the target's manifest, at its key: it names the release's asset for the target,
-- and has the hash of that asset's bytes and the text of the release.
pub record IsPublished (w : World) (dry : Bool) (v body : Text) (assets : List Asset) (t : Target)
    (e : Effect) : Type 0 where
  pub asset : Asset
  pub bytes : List ℕ
  pub at_key : key_of e ≡ bucket_key t
  pub as_asked : was_printed e ≡ dry
  pub of_release : Among asset assets
  pub of_target : asset.name ≡ t.asset_name
  pub downloaded : w.download asset.browser_download_url ≡ ok (some bytes)
  pub has_url : (manifest_of e).asset_url ≡ asset.browser_download_url
  pub has_hash : (manifest_of e).sha256 ≡ w.hash bytes
  pub has_version : (manifest_of e).version ≡ v
  pub has_text : w.plaintext body ≡ ok (manifest_of e).description

-- One effect for each target, in their order.
abbrev pub Each : (Target → Effect → Type 0) → List Target → List Effect → Type 0
Each P [] [] = Unit
Each P (t ∷ ts) (e ∷ es) = P t e × Each P ts es
Each P ts es = ⊥

find_asset-ok :
    (name : Text) (assets : List Asset) {a : Asset}
    → find_asset name assets ≡ ok a
    → (a.name ≡ name) × Among a assets
unfolding find_asset
find_asset-ok name [] h = cc
find_asset-ok name (b ∷ assets) {a} h = elim (Bool-cases (text_eq b.name name)) [
  | inl e ↦
      let same : b ≡ a =
        ap (ok_or a) (sym (ap (λ x. if x then ok b else find_asset name assets) e) ∙ h) in
      (ap (λ (x : Asset). x.name) (sym same) ∙ (text_eq_iff b.name name).0 e, inl same)
  | inr e ↦
      let (n, there) =
        find_asset-ok name assets
          (sym (ap (λ x. if x then ok b else find_asset name assets) e) ∙ h) in
      (n, inr there)
]

hash_of-ok :
    (w : World) (o : Option (List ℕ)) {s : Text}
    → hash_of w o ≡ ok s
    → (bytes : List ℕ) × (o ≡ some bytes) × (s ≡ w.hash bytes)
hash_of-ok w none h = cc
hash_of-ok w (some bytes) {s} h = (bytes, refl, ap (ok_or s) (sym h))

operate-ok :
    (w : World) (dry : Bool) (t : Target) (m : Manifest) {e : Effect}
    → operate w dry t m ≡ ok e
    → (key_of e ≡ bucket_key t) × (was_printed e ≡ dry) × (m ≡ manifest_of e)
operate-ok w true t m {e} h = (
  ap (λ r. key_of (ok_or e r)) (sym h),
  ap (λ r. was_printed (ok_or e r)) (sym h),
  ap (λ r. manifest_of (ok_or e r)) h,
)
operate-ok w false t m {e} h =
    let (u, _, k) = bind-eq-ok (w.put_object (bucket_key t) m) _ h in
    (
      ap (λ r. key_of (ok_or e r)) (sym k),
      ap (λ r. was_printed (ok_or e r)) (sym k),
      ap (λ r. manifest_of (ok_or e r)) k,
    )

publish_one-IsPublished :
    (w : World) (dry : Bool) (v body : Text) (assets : List Asset) (t : Target) (e : Effect)
    → publish_one w dry v body assets t ≡ ok e
    → IsPublished w dry v body assets t e
unfolding publish_one create_manifest_for_sys_arch sha256_remote_asset
publish_one-IsPublished w dry v body assets t e h =
    let (m, made, k) =
      bind-eq-ok (find_asset t.asset_name assets >>= create_manifest_for_sys_arch w v body) _ h in
    let (key, way, same) = operate-ok w dry t m k in
    let (a, found, made2) = bind-eq-ok (find_asset t.asset_name assets) _ made in
    let (d, described, made3) = bind-eq-ok (w.plaintext body) _ made2 in
    let (s, hashed, made4) = bind-eq-ok (sha256_remote_asset w a.browser_download_url) _ made3 in
    let (o, got, hashed2) = bind-eq-ok (w.download a.browser_download_url) _ hashed in
    let (bytes, some_bytes, hash_is) = hash_of-ok w o hashed2 in
    let (named, there) = find_asset-ok t.asset_name assets found in
    let final = ap (ok_or m) made4 ∙ same in
    record {
      asset = a;
      bytes = bytes;
      at_key = key;
      as_asked = way;
      of_release = there;
      of_target = named;
      downloaded = got ∙ ap ok some_bytes;
      has_url = sym (ap (λ (x : Manifest). x.asset_url) final);
      has_hash = sym (ap (λ (x : Manifest). x.sha256) final) ∙ hash_is;
      has_version = sym (ap (λ (x : Manifest). x.version) final);
      has_text = described ∙ ap (λ (x : Manifest). ok x.description) final;
    }

-- A run that ends well has published all, and every run only in its own way.
abbrev Published : World → Bool → Text → Text → List Asset → List Target → Run → Type 0
Published w dry v body assets ts run =
    (run.exit ≡ done → Each (IsPublished w dry v body assets) ts run.effects)
    × All (λ e. was_printed e ≡ dry) run.effects

continue_run-Published :
    (w : World) (dry : Bool) (v body : Text) (assets : List Asset) (r : Result Effect) (t : Target)
    (ts : List Target) (rest : Run)
    → ((e : Effect) → r ≡ ok e → IsPublished w dry v body assets t e)
    → Published w dry v body assets ts rest
    → Published w dry v body assets (t ∷ ts) (continue_run r rest)
continue_run-Published w dry v body assets (throw e) t ts rest f h = (λ k. cc, tt)
continue_run-Published w dry v body assets (ok e) t ts rest f (h, each) =
    (λ k. (f e refl, h k), ((f e refl).as_asked, each))

publish_all-Published :
    (w : World) (dry : Bool) (v body : Text) (assets : List Asset) (ts : List Target)
    → Published w dry v body assets ts (publish_all w dry v body assets ts)
unfolding publish_all
publish_all-Published w dry v body assets [] = (λ h. tt, tt)
publish_all-Published w dry v body assets (t ∷ ts) =
    continue_run-Published w dry v body assets (publish_one w dry v body assets t) t ts
      (publish_all w dry v body assets ts) (publish_one-IsPublished w dry v body assets t)
      (publish_all-Published w dry v body assets ts)

-- What the whole script has done: the release is the latest one, and has a text.
abbrev Finished : World → List Text → Run → Type 0
Finished w args run =
    (run.exit ≡ done
      → (r : Release) × (body : Text) × (w.latest_release ≡ ok (some r))
        × (r.body ≡ some body)
        × Each (IsPublished w (is_dry args) r.tag_name body r.assets) platform_assets run.effects)
    × All (λ e. was_printed e ≡ is_dry args) run.effects

after_check-Finished :
    (w : World) (args : List Text) (m : Result (Unit {0})) (run : Run)
    → Finished w args run
    → Finished w args (after_check m run)
after_check-Finished w args (throw e) run h = (λ k. cc, tt)
after_check-Finished w args (ok u) run h = h

with_body-Finished :
    (w : World) (args : List Text) (r : Release) (b : Option Text)
    → w.latest_release ≡ ok (some r)
    → r.body ≡ b
    → Finished w args (with_body w args r b)
with_body-Finished w args r none found e = (λ k. cc, tt)
with_body-Finished w args r (some body) found e =
    let (all, each) =
      publish_all-Published w (is_dry args) r.tag_name body r.assets platform_assets in
    after_check-Finished w args
      (if is_forced args then ok tt else check_all w r.tag_name platform_assets) _
      (λ k. (r, body, found, e, all k), each)

with_release-Finished :
    (w : World) (args : List Text) (m : Result (Option Release))
    → w.latest_release ≡ m
    → Finished w args (with_release w args m)
with_release-Finished w args (throw e) found = (λ k. cc, tt)
with_release-Finished w args (ok none) found = (λ k. cc, tt)
with_release-Finished w args (ok (some r)) found = with_body-Finished w args r r.body found refl

if-Finished :
    (w : World) (args : List Text) (b : Bool) (n : ℕ) (run : Run)
    → Finished w args run
    → Finished w args (if b then stop_with (process_exit n) else run)
if-Finished w args true n run h = (λ k. cc, tt)
if-Finished w args false n run h = h

-- A run that ends well (not by `--help`) has one effect for each of the six platforms, in their order,
-- at the platform's key: a manifest with the version and the text of the latest release, the address of
-- the release's asset that has the platform's name, and the hash of the bytes at that address. With
-- `--dry-run` all effects of a run, however it ends, are only printed, and without it all are uploads.
pub upload_manifests-IsPublished :
    (w : World) (args : List Text)
    → ((upload_manifests w args).exit ≡ done
        → (r : Release) × (body : Text) × (w.latest_release ≡ ok (some r))
          × (r.body ≡ some body)
          × Each
              (IsPublished w (is_dry args) r.tag_name body r.assets)
              platform_assets
              (upload_manifests w args).effects)
      × All (λ e. was_printed e ≡ is_dry args) (upload_manifests w args).effects
unfolding upload_manifests
upload_manifests-IsPublished w args =
    if-Finished w args (has_arg (codes "--help") args || has_arg (codes "-h") args) 0
      (with_release w args w.latest_release) (with_release-Finished w args w.latest_release refl)
