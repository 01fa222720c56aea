-- ===== src/Store/Credentials.antt =====
-- The plugin credentials of crates/pluribus-store-sqlite/src/lib.rs: `read_plugin_credential` and
-- `replace_plugin_credential`.
mod Tests
use pluribus.Base.{
  ℕ, ◌≡◌, String, Bool, true, false, ◌&&◌, Option, none, some, List, arith, ◌==◌, nat_eq, list_eq,
  option_eq, lookup, insert, lookup-insert, ==_refl, ==_iff, if◌then◌else◌,
}
use pluribus.Store.Tables.{Database, PairKey, pair_eq, pair_beq_iff}

abbrev credential : String → String → PairKey
credential handle provider = record { first = handle; second = provider }

unfoldable read_plugin_credential : Database → String → String → Option (List ℕ)
read_plugin_credential db handle provider =
    lookup (credential handle provider) db.plugin_credentials

-- With an expected value, an update of the row that holds it; without one, an insertion that
-- leaves a row that is there. The answer says whether a row changed.
unfoldable replace_plugin_credential :
    Database → String → String → Option (List ℕ) → List ℕ → Bool × Database
replace_plugin_credential db handle provider (some previous) value =
    elim (lookup (credential handle provider) db.plugin_credentials) [
      | none ↦ (false, db)
      | some old ↦
          if old == previous
          then (
            true,
            record db {
              plugin_credentials = insert (credential handle provider) value db.plugin_credentials;
            },
          )
          else (false, db)
    ]
replace_plugin_credential db handle provider none value =
    elim (lookup (credential handle provider) db.plugin_credentials) [
      | none ↦ (
        true,
        record db {
          plugin_credentials = insert (credential handle provider) value db.plugin_credentials;
        },
      )
      | some old ↦ (false, db)
    ]

-- A replacement is a compare-and-swap: it succeeds exactly when the credential is the expected one,
-- and then, and only then, the credential is the new value; no other credential changes.
replace_plugin_credential_lem :
    (db : Database) (handle provider : String) (expected : Option (List ℕ)) (value : List ℕ)
    (other : String) (at : String)
    → ((replace_plugin_credential db handle provider expected value).0
        ≡ (read_plugin_credential db handle provider == expected))
      × (read_plugin_credential
            (replace_plugin_credential db handle provider expected value).1
            other
            at
          ≡ (if (read_plugin_credential db handle provider == expected)
                && (credential handle provider == credential other at)
              then some value
              else read_plugin_credential db other at))
unfolding replace_plugin_credential read_plugin_credential
replace_plugin_credential_lem db handle provider none value other at = ground (
  arith,
  lookup-insert (credential handle provider) (credential other at) value db.plugin_credentials,
)
replace_plugin_credential_lem db handle provider (some previous) value other at = ground (
  arith,
  lookup-insert (credential handle provider) (credential other at) value db.plugin_credentials,
)
