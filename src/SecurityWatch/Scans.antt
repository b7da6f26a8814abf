-- ===== src/SecurityWatch/Scans.antt =====
-- internal/securitywatch/check.go: `Checker.scan`.
use fleetdeck.Prelude.{
  Bool, true, false, not, ◌&&◌, ◌||◌, Option, none, some, List, [], ◌∷◌, ◌++◌, String, ◌==◌,
  byte_length, leb, eqb, if◌then◌else◌, any, sort_by,
}
use fleetdeck.Regex.{match_string}
use fleetdeck.SecurityWatch.Types.{Finding, Image}
use fleetdeck.SecurityWatch.Tools.{
  Scan, Tools, Vulnerability, finding, id_before, vulnerability_pattern,
}

module _ (tools : Tools) where
  abbrev pub is_severe : String → Bool
  is_severe s = s == "HIGH" || s == "CRITICAL"

  -- The key of the source joins the two texts; as the second is HIGH or CRITICAL, it tells them apart.
  abbrev pub is_seen_finding : Vulnerability → List Vulnerability → Bool
  is_seen_finding v seen = any (λ u. u.id == v.id && u.severity == v.severity) seen

  abbrev pub is_proper : String → Bool
  is_proper id = leb (byte_length id) 160 && match_string vulnerability_pattern id

  -- The loop over the vulnerabilities: the findings so far, and whether each has a proper identity.
  unfoldable pub severe_findings : List Vulnerability → List Vulnerability → List Finding × Bool
  severe_findings seen [] = ([], true)
  severe_findings seen (v ∷ vs) =
      let fresh = is_severe v.severity && not (is_seen_finding v seen) in
      let (findings, proper) = severe_findings (if fresh then v ∷ seen else seen) vs in
      if not (is_severe v.severity)
      then (findings, proper)
      else if not (is_proper v.id)
      then ([], false)
      else if fresh
      then (finding v.id (tools.to_lower v.severity) ∷ findings, proper)
      else (findings, proper)

  abbrev pub unknown_image : String → String → List Finding → Image
  unknown_image id code findings = record {
    id = id;
    status = "unknown";
    code = code;
    findings = findings;
  }

  abbrev pub is_scan_of : String → Scan → Bool
  is_scan_of id s =
      eqb s.schema_version 2 && s.artifact_type == "container_image" && s.image_id == id

  abbrev pub finish_scan : String → Scan → List Finding × Bool → Image
  finish_scan id s (findings, false) = unknown_image id "invalid_vulnerability_identity" findings
  finish_scan id s (findings, true) = record {
    id = id;
    status = "checked";
    code = "";
    findings =
        sort_by id_before
          (findings ++ (if s.eosl then finding "unsupported_os_release" "warning" ∷ [] else []));
  }

  abbrev pub after_scan : String → Option (Option Scan) → Image
  after_scan id none = unknown_image id "vulnerability_scan_failed_or_unavailable" []
  after_scan id (some none) = unknown_image id "invalid_or_mismatched_scan" []
  after_scan id (some (some s)) =
      if is_scan_of id s
      then finish_scan id s (severe_findings [] s.vulnerabilities)
      else unknown_image id "invalid_or_mismatched_scan" []

  unfoldable pub scan : String → Image
  scan id = after_scan id (tools.trivy id)
