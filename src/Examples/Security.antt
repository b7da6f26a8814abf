-- ===== src/Examples/Security.antt =====
-- Security checks of a host with one container, of a source build that is behind its branch, and
-- of a release.
use fleetdeck.Prelude.{
  ℕ, ◌+◌, ◌≡◌, refl, ◌⊎◌, false, Option, none, some, List, [], ◌∷◌, String, ◌==◌, if◌then◌else◌,
  length, Outcome, ok,
}
use fleetdeck.Prelude.Dict.{lookup}
use fleetdeck.Regex.{match_string}
use fleetdeck.Monitor.Types.{AlertProvider}
use fleetdeck.SecurityWatch.Types.{check, Report, counts, count_containers, count_images}
use fleetdeck.SecurityWatch.Tools.{
  Inspected, Scan, Tools, absent, container_id_pattern, image_id_pattern,
}
use fleetdeck.SecurityWatch.Scans.{scan, severe_findings}
use fleetdeck.SecurityWatch.Host.{host}
use fleetdeck.SecurityWatch.Inventory.{container_findings, images_of, read_items, run}
use fleetdeck.SecurityWatch.Inventory.Complete.{IsComplete, run-IsComplete}
use fleetdeck.SecurityWatch.Release.{
  responded, ReleaseInfo, Groups, Lookups, release, source_release, repository_pattern,
  source_branch_pattern, source_commit_pattern,
}
use fleetdeck.SecurityWatch.Release.Evidence.{Version, Reads, Finds, IsOutdated, release-IsOutdated}
use fleetdeck.SecurityWatch.Release.Tracking.{IsEvidenced, source_release-IsEvidenced}
use fleetdeck.SecurityWatch.Delivery.{State, NotifyError, notify, inform, inform_all}
use fleetdeck.SecurityWatch.Delivery.Once.{notify_again}

abbrev web_id : String
web_id = "0123456789ab"

abbrev web_image : String
web_image = "sha256:0123456789abcdef0123456789abcdef0123456789abcdef0123456789abcdef"

abbrev web : Inspected
web = record {
  id = web_id;
  image = web_image;
  user = "0:0";
  privileged = false;
  network = "host";
  pid = "";
  security = "no-new-privileges" ∷ [];
  caps = [];
  mounts = [];
}

abbrev web_scan : Scan
web_scan = record {
  schema_version = 2;
  artifact_type = "container_image";
  image_id = web_image;
  eosl = false;
  vulnerabilities = record { id = "CVE-2026-1"; severity = "HIGH" } ∷ [];
}

abbrev before_colon : String → String
before_colon s = if s == "0:0" then "0" else s

abbrev lower_name : String → String
lower_name s = if s == "HIGH" then "high" else "critical"

abbrev small_host : Tools
small_host = record {
  host_os = "linux";
  list_ids = some (web_id ∷ []);
  inspect = λ ids. some (some web ∷ []);
  trivy = λ id. some (some web_scan);
  split_colon = before_colon;
  to_lower = lower_name;
  reboot_marker = absent;
  simulate_upgrade = some ("Reading package lists" ∷ "Inst openssl" ∷ []);
  index_time = some 1000;
  now = 1000;
}

web_checked : (run small_host (check "unknown" "")).inventory.status ≡ "checked"
unfolding run scan host read_items images_of container_findings severe_findings match_string ◌==◌
    container_id_pattern image_id_pattern
web_checked = refl

run-IsComplete_example :
    (ids : List String) × (small_host.list_ids ≡ some ids)
    × IsComplete small_host (length ids) (run small_host (check "unknown" ""))
run-IsComplete_example = run-IsComplete small_host (check "unknown" "") web_checked

abbrev published : ReleaseInfo
published = record { tag_name = "v1.10.0"; draft = false; prerelease = false }

abbrev groups_of : String → Option Groups
groups_of s =
    if s == "v1.10.0"
    then some (record { major = "1"; minor = "10"; patch = "0"; suffix = "" })
    else some (record { major = "1"; minor = "9"; patch = "3"; suffix = "" })

abbrev parse_number : String → Option ℕ
parse_number s =
    if s == "1"
    then some 1
    else if s == "10"
    then some 10
    else if s == "9"
    then some 9
    else if s == "3"
    then some 3
    else if s == "0"
    then some 0
    else none

abbrev old_commit : String
old_commit = "0123456789abcdef0123456789abcdef01234567"

abbrev new_commit : String
new_commit = "89abcdef0123456789abcdef0123456789abcdef"

abbrev forge : Lookups
forge = record {
  get = λ path. responded 200 (some path);
  unmarshal_release = λ body. some published;
  unmarshal_ref = λ body.
      some (record { ref = "refs/heads/main"; object_type = "commit"; object_sha = new_commit });
  unmarshal_comparison = λ body. some (record {
    status = "ahead";
    ahead_by = 2;
    behind_by = 0;
    base_sha = old_commit;
    merge_base_sha = old_commit;
  });
  find_submatch = groups_of;
  parse_uint = parse_number;
  path_escape = λ s. s;
}

abbrev installed_version : Version
installed_version = record { major = 1; minor = 9; patch = 3 }

abbrev latest_version : Version
latest_version = record { major = 1; minor = 10; patch = 0 }

abbrev installed_groups : Groups
installed_groups = record { major = "1"; minor = "9"; patch = "3"; suffix = "" }

abbrev latest_groups : Groups
latest_groups = record { major = "1"; minor = "10"; patch = "0"; suffix = "" }

published_found : Finds forge "fleetdeck/fleetdeck" published latest_groups
unfolding match_string repository_pattern ◌==◌
published_found = record {
  body = "/repos/fleetdeck/fleetdeck/releases/latest";
  named = refl;
  answered = refl;
  decoded = refl;
  published = (refl, refl);
  parsed = refl;
}

installed_read : Reads forge installed_groups installed_version
unfolding ◌==◌
installed_read = record { major = refl; minor = refl; patch = refl }

latest_read : Reads forge latest_groups latest_version
unfolding ◌==◌
latest_read = record { major = refl; minor = refl; patch = refl }

installed_parsed : groups_of "v1.9.3" ≡ some installed_groups
unfolding ◌==◌
installed_parsed = refl

release-IsOutdated_example :
    (((release forge "" "" "fleetdeck/fleetdeck" "v1.9.3").status ≡ "update_available")
      × IsOutdated forge installed_groups installed_version latest_groups latest_version)
    ⊎ (((release forge "" "" "fleetdeck/fleetdeck" "v1.9.3").status ≡ "up_to_date")
        × (IsOutdated forge installed_groups installed_version latest_groups latest_version → ⊥))
release-IsOutdated_example =
    release-IsOutdated forge "" "fleetdeck/fleetdeck" "v1.9.3" published installed_groups
      latest_groups installed_version latest_version published_found installed_parsed installed_read
      latest_read

behind_branch :
    (source_release forge old_commit "main" "fleetdeck/fleetdeck" "dev").code
    ≡ "source_commit_update_available"
unfolding source_release match_string repository_pattern source_branch_pattern source_commit_pattern
    ◌==◌
behind_branch = refl

source_release-IsEvidenced_example :
    IsEvidenced forge old_commit "main" "fleetdeck/fleetdeck"
      (source_release forge old_commit "main" "fleetdeck/fleetdeck" "dev")
source_release-IsEvidenced_example =
    source_release-IsEvidenced forge old_commit "main" "fleetdeck/fleetdeck" "dev"

-- A provider that counts the alerts it was sent.
abbrev bell : AlertProvider ℕ
bell = record { name = "bell"; send = λ alert n. (false, n + 1) }

abbrev no_deliveries : State
no_deliveries = record { version = 1; report = none; deliveries = [] }

abbrev small_report : Report
small_report = record {
  checked_at = 5;
  release = check "unknown" "";
  host = check "up_to_date" "";
  inventory = check "checked" "";
  images = [];
  containers = [];
}

abbrev digest_all : Report → Option String
digest_all r = some "d"

abbrev after_first : Outcome NotifyError (Unit {0}) × State × ℕ
after_first = notify digest_all no_deliveries small_report "host" (bell ∷ []) 0

first_told : after_first.0 ≡ ok tt
unfolding notify inform_all inform counts lookup ◌==◌ count_containers count_images
first_told = refl

notify_again_example :
    notify digest_all after_first.1 (record small_report { checked_at = 9 }) "host" (bell ∷ []) 1
    ≡ (ok tt, record after_first.1 { report = some (record small_report { checked_at = 9 }) }, 1)
notify_again_example =
    notify_again digest_all no_deliveries small_report (record small_report { checked_at = 9 })
      "host" "host" (bell ∷ []) 0 1 first_told refl
