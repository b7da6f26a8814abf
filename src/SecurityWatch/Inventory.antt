-- ===== src/SecurityWatch/Inventory.antt =====
-- internal/securitywatch/check.go: `Checker.Run`.
pub mod Complete
use fleetdeck.Prelude.{
  ℕ, zero, suc, ◌+◌, ◌-◌, ◌*◌, ◌≤◌, ◌<◌, ◌≡◌, refl, sym, ap, ◌∙◌, ◌≢◌, ◌↔◌, ◌⊎◌, inl, inr, Bool,
  true, false, not, ◌&&◌, ◌||◌, Option, none, some, List, [], ◌∷◌, ◌++◌, map, String, arith, ◌==◌,
  eq_iff, eq_refl, byte_length, ltb, leb, eqb, if◌then◌else◌, Bool-cases, Option-cases, length, all,
  any, All, length-append, rev_onto, rev_onto-append, is_nil, sort_by, length-sort_by, any-sort_by,
  Outcome, ok, err, ◌>>=◌, ◌>>◌, guard, Outcome-cases,
}
use fleetdeck.Prelude.Dict.{
  Dict, lookup, insert, delete, delete_if, lookup-insert, lookup-delete, length-insert,
  length-delete, length-delete_if, IsDistinct, drop_if, lookup-delete_if, insert-IsDistinct,
  delete-IsDistinct, delete_if-IsDistinct, length-insert_found,
}
use fleetdeck.Prelude.Texts.{codes, has_prefix, has_suffix, contains, text_leb}
use fleetdeck.Regex.{
  Regex, class, cat, times, upto, plus, literal, match_string, is_lower, is_upper, is_digit, is_hex,
}
use fleetdeck.SecurityWatch.Types.{Check, check, Finding, Image, Container, Report}
use fleetdeck.SecurityWatch.Tools.{
  Inspected, Marker, Mount, Scan, Tools, Vulnerability, absent, container_before,
  container_id_pattern, finding, id_before, image_id_pattern, irregular, is_no_new_privileges,
  regular, socket_findings, unconfined_findings, unreadable, vulnerability_pattern, when,
}
use fleetdeck.SecurityWatch.Scans.{
  after_scan, finish_scan, is_proper, is_scan_of, is_seen_finding, is_severe, scan, severe_findings,
  unknown_image,
}
use fleetdeck.SecurityWatch.Host.{after_marker, after_upgrade, count_upgrades, host, is_index_fresh}

module _ (tools : Tools) where
  -- The findings on a container, in the order of the checks.
  unfoldable pub container_findings : Inspected → List Finding
  container_findings item =
      let user = tools.split_colon item.user in
      when (user == "" || user == "0" || user == "root")
        (finding "root_or_image_default_startup_user" "warning")
        (unconfined_findings item.security (
          when (not (any is_no_new_privileges item.security))
            (finding "no_new_privileges_missing" "warning")
            (when item.privileged (finding "privileged_container" "critical") (
              when (item.network == "host" || item.pid == "host")
                (finding "shared_host_namespace" "warning")
                (when (not (is_nil item.caps)) (finding "additional_linux_capabilities" "warning")
                  (socket_findings item.mounts))))))

  abbrev pub container_of : Inspected → Container
  container_of item = record {
    id = item.id;
    image_id = item.image;
    findings = sort_by id_before (container_findings item);
  }

  abbrev pub is_identified : Inspected → Bool
  is_identified item =
      match_string container_id_pattern item.id && match_string image_id_pattern item.image

  -- The loop over the stream: the containers, and whether it came to the end.
  unfoldable pub read_items : List (Option Inspected) → List Container × Bool
  read_items [] = ([], true)
  read_items (none ∷ items) = ([], false)
  read_items (some item ∷ items) =
      let (containers, complete) = read_items items in
      if is_identified item then (container_of item ∷ containers, complete) else ([], false)

  -- The images of the containers, each once.
  abbrev pub add_image : String → List String → List String
  add_image id ids = if any (λ i. i == id) ids then ids else id ∷ ids

  unfoldable pub images_of : List Container → List String
  images_of [] = []
  images_of (c ∷ cs) = add_image c.image_id (images_of cs)

  abbrev pub counted_inventory : ℕ → Check
  counted_inventory n = record (check "checked" "") { count = n }

  -- The images of the containers are scanned, unless there are too many of them.
  abbrev pub scan_images : Report → Report
  scan_images report =
      let ids = sort_by text_leb (images_of report.containers) in
      if ltb 100 (length ids)
      then record report { inventory = check "unknown" "image_limit_exceeded" }
      else record report {
        images = map (scan tools) ids;
        containers = sort_by container_before report.containers;
      }

  abbrev pub after_items : ℕ → List Container × Bool → Report → Report
  after_items n (containers, false) report = record report {
    inventory = check "unknown" "invalid_container_inspection";
    containers = containers;
  }
  after_items n (containers, true) report = scan_images (record report {
    inventory =
        if eqb (length containers) n
        then counted_inventory n
        else check "unknown" "incomplete_container_inventory";
    containers = containers;
  })

  abbrev pub after_inspect : ℕ → Option (List (Option Inspected)) → Report → Report
  after_inspect n none report = record report {
    inventory = check "unknown" "container_inspection_failed";
  }
  after_inspect n (some items) report = after_items n (read_items items) report

  abbrev pub after_ids : Option (List String) → Report → Report
  after_ids none report = record report {
    inventory = check "unknown" "docker_inventory_unavailable";
  }
  after_ids (some ids) report =
      if ltb 200 (length ids)
      then record report { inventory = check "unknown" "container_limit_exceeded" }
      else if not (all (match_string container_id_pattern) ids)
      then record report { inventory = check "unknown" "invalid_container_identity" }
      else if is_nil ids
      then record report { inventory = counted_inventory 0 }
      else after_inspect (length ids) (tools.inspect ids) report

  -- `Run`, given the release check.
  unfoldable pub run : Check → Report
  run release = after_ids tools.list_ids (record {
    checked_at = tools.now;
    release = release;
    host = host tools;
    inventory = check "" "";
    images = [];
    containers = [];
  })
