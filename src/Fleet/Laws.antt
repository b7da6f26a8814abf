-- ===== src/Fleet/Laws.antt =====
-- What an accepted snapshot shows.
use fleetdeck.Prelude.{
  ℕ, ◌+◌, ◌*◌, ◌≤◌, ◌≡◌, ◌≢◌, ◌⊎◌, true, false, Option, some, List, [], ◌∷◌, String, byte_length,
  length, All,
}
use fleetdeck.Fleet.{pos, Project, Snapshot, valid_id, is_ahead_option, is_zero, max_age, second}

-- No name occurs twice.
abbrev pub AreDistinct : List Project → Type 0
AreDistinct [] = Unit
AreDistinct (p ∷ ps) = All (λ q. q.name ≢ p.name) ps × AreDistinct ps

pub record IsProject (now : ℕ) (p : Project) : Type 0 where
  pub named : valid_id p.name ≡ true
  pub short : byte_length p.registry_status ≤ 40
  pub backed_up : is_ahead_option now p.last_backup ≡ false

-- An observation that claims to be current was made within the age, and not ahead of the clock.
abbrev pub IsCurrent : ℕ → String → Option ℕ → ℕ → Type 0
IsCurrent now observation checked_at age =
    (observation ≡ "unknown")
    ⊎ ((at : ℕ) × (checked_at ≡ some at) × (1 ≤ at) × (at ≤ now + 30 * second) × (now ≤ at + age))

pub record IsAccepted (node : String) (now : ℕ) (s : Snapshot) : Type 0 where
  pub owner : s.node_id ≡ node
  pub generated : (s.generated_at ≤ now + 30 * second) × (now ≤ s.generated_at + max_age)
  pub projects : AreDistinct s.projects × All (IsProject now) s.projects
  pub few : length s.projects ≤ 500
  pub monitoring : IsCurrent now s.monitoring.observation s.monitoring.checked_at max_age
  pub security : IsCurrent now s.security.observation s.security.checked_at (93600 * second)
  pub clean_monitoring :
      s.monitoring.observation ≡ "ok"
      → (is_zero s.monitoring.healthy ≡ false)
        × (s.monitoring.unhealthy ≡ pos 0)
        × (s.monitoring.unknown ≡ pos 0)
  pub clean_security :
      s.security.observation ≡ "ok"
      → (s.security.critical ≡ pos 0)
        × (s.security.high ≡ pos 0)
        × (s.security.runtime_findings ≡ pos 0)
        × (s.security.unknown ≡ pos 0)
