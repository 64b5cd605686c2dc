-- ===== src/Manager/Defaults.antt =====
-- open.go: what NewConnectionManager makes of a configuration that leaves its fields unset.
use fluxor_db.Base.{◌≡◌, refl}
use fluxor_db.Base.Int.{pos}
use fluxor_db.Config.{sqlite, dual_query}
use fluxor_db.Manager.{
  AdvancedConfig, new_connection_manager, with_defaults, new_connection_validator, driver_name,
}

-- A configuration without a type, a validation query and a validation time is opened as SQLite
-- with the query SELECT 1 FROM DUAL, and its validator has an empty query and no time.
pub unset_defaults :
    (c : AdvancedConfig)
    → c.database_type ≡ ""
    → c.validation_query ≡ ""
    → c.validation_timeout ≡ pos 0
    → let cm = new_connection_manager c in
      (driver_name cm.config.database_type ≡ ("sqlite3", sqlite))
      × (cm.config.validation_query ≡ dual_query)
      × (cm.config.validation_timeout ≡ pos 5000000000)
      × (cm.validator.validation_query ≡ "")
      × (cm.validator.timeout ≡ pos 0)
unfolding new_connection_manager with_defaults new_connection_validator driver_name
unset_defaults c no_type no_query no_timeout =
    rw (no_type, no_query, no_timeout) (refl, refl, refl, refl, refl)
