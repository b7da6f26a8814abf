-- ===== src/SecurityWatch/Types.antt =====
-- internal/securitywatch/check.go: the report and `Report.Counts`.
use fleetdeck.Prelude.{ℕ, ◌+◌, Bool, true, false, List, [], ◌∷◌, String, ◌==◌, if◌then◌else◌}

pub record Check : Type 0 where
  pub status : String
  pub code : String
  pub installed : String
  pub latest : String
  pub count : ℕ
  pub reboot_required : Bool
  pub source_branch : String

pub record Finding : Type 0 where
  pub id : String
  pub severity : String

pub record Image : Type 0 where
  pub id : String
  pub status : String
  pub code : String
  pub findings : List Finding

pub record Container : Type 0 where
  pub id : String
  pub image_id : String
  pub findings : List Finding

pub record Report : Type 0 where
  pub checked_at : ℕ
  pub release : Check
  pub host : Check
  pub inventory : Check
  pub images : List Image
  pub containers : List Container

-- A check with a status and a code, and no more.
abbrev pub check : String → String → Check
check status code = record {
  status = status;
  code = code;
  installed = "";
  latest = "";
  count = 0;
  reboot_required = false;
  source_branch = "";
}

pub record Counts : Type 0 where
  pub critical : ℕ
  pub warning : ℕ
  pub unknown : ℕ

abbrev pub one_if : Bool → ℕ
one_if true = 1
one_if false = 0

abbrev pub count_check : Check → Counts → Counts
count_check c n = record n {
  unknown = n.unknown + one_if (c.status == "unknown");
  warning = n.warning + one_if (c.status == "update_available") + one_if c.reboot_required;
}

unfoldable pub count_findings : List Finding → Counts → Counts
count_findings [] n = n
count_findings (f ∷ fs) n = count_findings fs (
    if f.severity == "critical"
    then record n { critical = n.critical + 1 }
    else record n { warning = n.warning + 1 })

unfoldable pub count_images : List Image → Counts → Counts
count_images [] n = n
count_images (i ∷ is) n =
    count_images is (
      count_findings i.findings (record n { unknown = n.unknown + one_if (i.status == "unknown") }))

unfoldable pub count_containers : List Container → Counts → Counts
count_containers [] n = n
count_containers (c ∷ cs) n = count_containers cs (count_findings c.findings n)

-- `Report.Counts`
unfoldable pub counts : Report → Counts
counts r = count_containers r.containers (
    count_images r.images (
      count_check r.inventory (
        count_check r.host
          (count_check r.release (record { critical = 0; warning = 0; unknown = 0 })))))
