-- ===== src/UploadManifest.antt =====
-- scripts/src/upload-manifest.ts: the script that publishes the manifests of a release.
pub mod Checked
pub mod Published
use zen_desktop_localcdn.Common.{
  ℕ, Bool, true, false, ◌||◌, List, [], ◌∷◌, ◌++◌, Option, none, some, if◌then◌else◌, Text, codes,
  text_eq, Result, ok, throw, ◌>>=◌, Failure, empty_release_body, missing_asset, fetch_failed,
  not_newer,
}

pub record Asset : Type 0 where
  pub name : Text
  pub browser_download_url : Text

-- `res.data` of the latest release.
pub record Release : Type 0 where
  pub tag_name : Text
  pub body : Option Text
  pub assets : List Asset

pub record Manifest : Type 0 where
  pub version : Text
  pub description : Text
  pub asset_url : Text
  pub sha256 : Text

-- What a manifest's address answers: 404, another status that is not ok, or a manifest's version.
pub data Stored : Type 0 where
  not_found not_ok : Stored
  version_of : Text → Stored

-- What the script takes from outside: GitHub, the web, the libraries `semver`, `marked` and
-- `html-to-text`, the hash, and the bucket.
pub record World : Type 0 where
  -- `none` is a status other than 200.
  pub latest_release : Result (Option Release)
  pub stored : Text → Result Stored
  pub lte : Text → Text → Result Bool
  pub plaintext : Text → Result Text
  -- The bytes at an address, if the status is ok.
  pub download : Text → Result (Option (List ℕ))
  pub hash : List ℕ → Text
  pub put_object : Text → Manifest → Result (Unit {0})

pub record Target : Type 0 where
  pub platform : Text
  pub arch : Text
  pub asset_name : Text

abbrev target : Text → Text → Text → Target
target p a n = record { platform = p; arch = a; asset_name = n }

-- `PLATFORM_ASSETS`, in the order of its keys.
abbrev pub platform_assets : List Target
platform_assets =
    target (codes "darwin") (codes "arm64") (codes "Zen_darwin_arm64.tar.gz")
    ∷ target (codes "darwin") (codes "amd64") (codes "Zen_darwin_amd64.tar.gz")
    ∷ target (codes "windows") (codes "arm64") (codes "Zen_windows_arm64.zip")
    ∷ target (codes "windows") (codes "amd64") (codes "Zen_windows_amd64.zip")
    ∷ target (codes "linux") (codes "amd64") (codes "Zen_linux_amd64.tar.gz")
    ∷ target (codes "linux") (codes "arm64") (codes "Zen_linux_arm64.tar.gz")
    ∷ []

abbrev below : Text → Target → Text
below base t = base ++ (b'/' ∷ t.platform) ++ (b'/' ∷ t.arch) ++ codes "/manifest.json"

abbrev pub manifest_url : Target → Text
manifest_url = below (codes "https://update-manifests.zenprivacy.net/stable")

abbrev pub bucket_key : Target → Text
bucket_key = below (codes "stable")

abbrev not_at_least : Bool → Result (Unit {0})
not_at_least true = throw not_newer
not_at_least false = ok tt

abbrev pub compare_stored : World → Text → Stored → Result (Unit {0})
compare_stored w release_version not_found = ok tt
compare_stored w release_version not_ok = throw fetch_failed
compare_stored w release_version (version_of v) = w.lte release_version v >>= not_at_least

unfoldable pub fetch_and_compare_manifest : World → Text → Target → Result (Unit {0})
fetch_and_compare_manifest w release_version t =
    w.stored (manifest_url t) >>= compare_stored w release_version

unfoldable pub check_all : World → Text → List Target → Result (Unit {0})
unfolding fetch_and_compare_manifest
check_all w v [] = ok tt
check_all w v (t ∷ ts) = fetch_and_compare_manifest w v t >>= λ u. check_all w v ts

abbrev pub hash_of : World → Option (List ℕ) → Result Text
hash_of w none = throw fetch_failed
hash_of w (some data_bytes) = ok (w.hash data_bytes)

unfoldable pub sha256_remote_asset : World → Text → Result Text
sha256_remote_asset w url = w.download url >>= hash_of w

unfoldable pub create_manifest_for_sys_arch : World → Text → Text → Asset → Result Manifest
unfolding sha256_remote_asset
create_manifest_for_sys_arch w release_version release_body asset =
    w.plaintext release_body >>= λ description.
    sha256_remote_asset w asset.browser_download_url >>= λ sha256. ok (record {
      version = release_version;
      description = description;
      asset_url = asset.browser_download_url;
      sha256 = sha256;
    })

-- `release.assets.find((a) => a.name === assetName)`, which must be there.
unfoldable pub find_asset : Text → List Asset → Result Asset
unfolding text_eq
find_asset name [] = throw missing_asset
find_asset name (a ∷ assets) = if text_eq a.name name then ok a else find_asset name assets

-- What the script leaves: an object in the bucket, or a line that says so.
pub data Effect : Type 0 where
  uploaded printed : Text → Manifest → Effect

-- How it ends.
pub data Exit : Type 0 where
  done : Exit
  process_exit : ℕ → Exit
  uncaught : Failure → Exit

pub record Run : Type 0 where
  pub effects : List Effect
  pub exit : Exit

abbrev pub then_run : Effect → Run → Run
then_run e r = record r { effects = e ∷ r.effects }

-- `op({ manifest, platform, arch })`
abbrev pub operate : World → Bool → Target → Manifest → Result Effect
operate w true t m = ok (printed (bucket_key t) m)
operate w false t m = w.put_object (bucket_key t) m >>= λ u. ok (uploaded (bucket_key t) m)

unfoldable pub publish_one : World → Bool → Text → Text → List Asset → Target → Result Effect
unfolding find_asset create_manifest_for_sys_arch
publish_one w dry v body assets t =
    find_asset t.asset_name assets >>= create_manifest_for_sys_arch w v body >>= operate w dry t

abbrev pub continue_run : Result Effect → Run → Run
continue_run (throw e) rest = record { effects = []; exit = uncaught e }
continue_run (ok e) rest = then_run e rest

unfoldable pub publish_all : World → Bool → Text → Text → List Asset → List Target → Run
unfolding publish_one
publish_all w dry v body assets [] = record { effects = []; exit = done }
publish_all w dry v body assets (t ∷ ts) =
    continue_run (publish_one w dry v body assets t) (publish_all w dry v body assets ts)

abbrev pub has_arg : Text → List Text → Bool
has_arg a [] = false
has_arg a (b ∷ bs) = if text_eq b a then true else has_arg a bs

abbrev pub is_forced : List Text → Bool
is_forced args = has_arg (codes "--force") args

abbrev pub is_dry : List Text → Bool
is_dry args = has_arg (codes "--dry-run") args

abbrev pub stop_with : Exit → Run
stop_with x = record { effects = []; exit = x }

abbrev pub after_check : Result (Unit {0}) → Run → Run
after_check (throw e) run = stop_with (uncaught e)
after_check (ok u) run = run

abbrev pub with_body : World → List Text → Release → Option Text → Run
with_body w args r none = stop_with (uncaught empty_release_body)
with_body w args r (some body) =
    after_check (if is_forced args then ok tt else check_all w r.tag_name platform_assets)
      (publish_all w (is_dry args) r.tag_name body r.assets platform_assets)

abbrev pub with_release : World → List Text → Result (Option Release) → Run
with_release w args (throw e) = stop_with (uncaught e)
with_release w args (ok none) = stop_with (process_exit 1)
with_release w args (ok (some r)) = with_body w args r r.body

-- The script, at its arguments.
unfoldable pub upload_manifests : World → List Text → Run
unfolding publish_all check_all text_eq
upload_manifests w args =
    if has_arg (codes "--help") args || has_arg (codes "-h") args
    then stop_with (process_exit 0)
    else with_release w args w.latest_release
