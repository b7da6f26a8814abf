-- ===== src/SecurityWatch/Tools.antt =====
-- internal/securitywatch/check.go: what the tools print, decoded, and how findings are sorted. A decoder
-- yields the items of a stream up to the first that it refuses. Severity names in lower case,
-- `strings.Fields`, `strings.Split` and the clock are part of the record.
use fleetdeck.Prelude.{ℕ, Bool, true, false, ◌||◌, Option, List, [], ◌∷◌, String, ◌==◌, eqb}
use fleetdeck.Prelude.Texts.{codes, has_suffix, contains, text_leb}
use fleetdeck.Regex.{
  Regex, class, cat, times, upto, plus, literal, is_lower, is_upper, is_digit, is_hex,
}
use fleetdeck.SecurityWatch.Types.{Finding, Container}

-- `^sha256:[a-f0-9]{64}$`
unfoldable pub image_id_pattern : Regex
unfolding times literal
image_id_pattern = cat (literal (codes "sha256:")) (times 64 (class is_hex))

-- `^[a-f0-9]{12,64}$`
unfoldable pub container_id_pattern : Regex
unfolding times upto
container_id_pattern = cat (times 12 (class is_hex)) (upto 52 (class is_hex))

-- `^[A-Za-z0-9_.:-]+$`
unfoldable pub vulnerability_pattern : Regex
unfolding plus
vulnerability_pattern = plus (
    class (λ c.
      is_lower c
      || is_upper c
      || is_digit c
      || eqb c b'_'
      || eqb c b'.'
      || eqb c b':'
      || eqb c b'-'))

pub record Mount : Type 0 where
  pub source : String
  pub destination : String

-- What `docker inspect` prints of a container.
pub record Inspected : Type 0 where
  pub id : String
  pub image : String
  pub user : String
  pub privileged : Bool
  pub network : String
  pub pid : String
  pub security : List String
  pub caps : List String
  pub mounts : List Mount

pub record Vulnerability : Type 0 where
  pub id : String
  pub severity : String

-- What Trivy prints of an image; `eosl` is false where no system is named.
pub record Scan : Type 0 where
  pub schema_version : ℕ
  pub artifact_type : String
  pub image_id : String
  pub eosl : Bool
  pub vulnerabilities : List Vulnerability

-- A marker file of the host.
pub data Marker : Type 0 where
  absent irregular unreadable : Marker
  regular : Marker

pub record Tools : Type 0 where
  pub host_os : String
  pub list_ids : Option (List String)
  pub inspect : List String → Option (List (Option Inspected))
  pub trivy : String → Option (Option Scan)
  pub split_colon : String → String
  pub to_lower : String → String
  pub reboot_marker : Marker
  pub simulate_upgrade : Option (List String)
  pub index_time : Option ℕ
  pub now : ℕ

abbrev pub finding : String → String → Finding
finding id severity = record { id = id; severity = severity }

abbrev pub when : Bool → Finding → List Finding → List Finding
when true f fs = f ∷ fs
when false f fs = fs

abbrev pub is_no_new_privileges : String → Bool
is_no_new_privileges opt =
    opt == "no-new-privileges" || opt == "no-new-privileges:true" || opt == "no-new-privileges=true"

-- One finding for each option that disables confinement.
abbrev pub unconfined_findings : List String → List Finding → List Finding
unconfined_findings [] fs = fs
unconfined_findings (opt ∷ opts) fs =
    when (contains (codes opt) (codes "unconfined"))
      (finding "runtime_confinement_disabled" "critical") (unconfined_findings opts fs)

abbrev pub socket_findings : List Mount → List Finding
socket_findings [] = []
socket_findings (m ∷ ms) =
    when
      (has_suffix (codes m.source) (codes "/docker.sock")
        || has_suffix (codes m.destination) (codes "/docker.sock"))
      (finding "docker_socket_mounted" "critical") (socket_findings ms)

abbrev pub id_before : Finding → Finding → Bool
id_before f g = text_leb f.id g.id

abbrev pub container_before : Container → Container → Bool
container_before c d = text_leb c.id d.id
