-- ===== src/SecurityWatch/Host.antt =====
-- internal/securitywatch/check.go: `Checker.host`.
use fleetdeck.Prelude.{
  ℕ, ◌+◌, ◌-◌, Bool, true, false, ◌&&◌, Option, none, some, List, [], ◌∷◌, String, ◌==◌, ltb, leb,
  if◌then◌else◌,
}
use fleetdeck.Prelude.Texts.{codes, has_prefix}
use fleetdeck.SecurityWatch.Types.{Check, check}
use fleetdeck.SecurityWatch.Tools.{Marker, Tools, absent, irregular, regular, unreadable}

module _ (tools : Tools) where
  abbrev pub is_index_fresh : Bool
  is_index_fresh = elim tools.index_time [
    | none ↦ false
    | some at ↦ leb (tools.now - at) 172800000000000 && leb at (tools.now + 60000000000)
  ]

  abbrev pub count_upgrades : List String → ℕ
  count_upgrades [] = 0
  count_upgrades (line ∷ lines) =
      let rest = count_upgrades lines in
      if has_prefix (codes line) (codes "Inst ") then rest + 1 else rest

  abbrev pub after_upgrade : Option (List String) → Check → Check
  after_upgrade none c = record c { code = "apt_unavailable_or_failed" }
  after_upgrade (some lines) c =
      let counted = record c { count = count_upgrades lines } in
      if is_index_fresh
      then record counted {
        status = if ltb 0 (count_upgrades lines) then "update_available" else "up_to_date";
      }
      else record counted { code = "apt_index_freshness_unverified" }

  abbrev pub after_marker : Marker → Check
  after_marker irregular = check "unknown" "host_reboot_status_unverified"
  after_marker unreadable = check "unknown" "host_reboot_status_unverified"
  after_marker absent = after_upgrade tools.simulate_upgrade (check "unknown" "")
  after_marker regular =
      after_upgrade tools.simulate_upgrade (record (check "unknown" "") { reboot_required = true })

  -- `host`
  unfoldable pub host : Check
  host =
      if tools.host_os == "linux"
      then after_marker tools.reboot_marker
      else check "not_applicable" "linux_host_check_only"
