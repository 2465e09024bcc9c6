-- ===== src/Samples/Manifests.antt =====
-- A release with all assets, and a store where only some manifests are older.
use zen_desktop_localcdn.Common.{
  Text, List, false, [], ◌∷◌, some, if◌then◌else◌, codes, text_eq, ok, All, ◌≡◌, ◌⊎◌, refl,
  not_newer, take, length,
}
use zen_desktop_localcdn.UploadManifest.{
  Asset, Release, not_found, version_of, World, Target, platform_assets, done, uncaught,
  upload_manifests,
}
use zen_desktop_localcdn.UploadManifest.Published.{
  Each, IsPublished, was_printed, upload_manifests-IsPublished,
}
use zen_desktop_localcdn.UploadManifest.Checked.{MayReplace, upload_manifests-checked}

abbrev all_assets : List Target → List Asset
all_assets [] = []
all_assets (t ∷ ts) =
    record { name = t.asset_name; browser_download_url = t.asset_name } ∷ all_assets ts

abbrev sample_release : Release
sample_release = record {
  tag_name = codes "v2";
  body = some (codes "News");
  assets = all_assets platform_assets;
}

-- The first platform has version `v1`, the others none; `v1` and `v2` are compared.
abbrev sample_world : World
sample_world = record {
  latest_release = ok (some sample_release);
  stored = λ url.
      if text_eq url
        (codes "https://update-manifests.zenprivacy.net/stable/darwin/arm64/manifest.json")
      then ok (version_of (codes "v1"))
      else ok not_found;
  lte = λ a b. ok (text_eq b (codes "v2"));
  plaintext = λ s. ok s;
  download = λ url. ok (some url);
  hash = λ bytes. codes "00";
  put_object = λ key m. ok tt;
}

-- The same release again.
abbrev published_world : World
published_world = record sample_world { stored = λ url. ok (version_of (codes "v2")) }

not_again : upload_manifests published_world [] ≡ record { effects = []; exit = uncaught not_newer }
unfolding upload_manifests
not_again = refl

-- The last asset is missing: the script fails, behind five uploads.
abbrev partial_world : World
partial_world = record sample_world {
  latest_release =
      ok (some (record sample_release { assets = all_assets (take 5 platform_assets) }));
}

partial : length (upload_manifests partial_world []).effects ≡ 5
unfolding upload_manifests
partial = refl

all_done : (upload_manifests sample_world []).exit ≡ done
unfolding upload_manifests
all_done = refl

upload_manifests-checked_example :
    ((upload_manifests sample_world []).effects ≡ [])
    ⊎ ((r : Release) × (sample_world.latest_release ≡ ok (some r))
        × All (MayReplace sample_world r.tag_name) platform_assets)
upload_manifests-checked_example = upload_manifests-checked sample_world [] refl

upload_manifests-IsPublished_example :
    ((upload_manifests sample_world []).exit ≡ done
      → (r : Release) × (body : Text) × (sample_world.latest_release ≡ ok (some r))
        × (r.body ≡ some body)
        × Each
            (IsPublished sample_world false r.tag_name body r.assets)
            platform_assets
            (upload_manifests sample_world []).effects)
    × All (λ e. was_printed e ≡ false) (upload_manifests sample_world []).effects
upload_manifests-IsPublished_example = upload_manifests-IsPublished sample_world []
