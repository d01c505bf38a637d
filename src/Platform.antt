-- ===== src/Platform.antt =====
-- What the router takes from packages outside the repository: github.com/google/uuid reads and
-- writes identifiers, and time.Time marshals itself. A parsed identifier's text is read back.
use masterdata_sync_working.Prelude.{ℕ, String, Option, some, ◌≡◌}

pub record Platform : Type 0 where
  -- uuid.Parse, `none` for an error
  pub parse_uuid : String → Option ℕ
  -- uuid.UUID.String
  pub uuid_string : ℕ → String
  -- time.Time as JSON text
  pub time_string : ℕ → String
  pub parse_uuid-uuid_string : (id : ℕ) → parse_uuid (uuid_string id) ≡ some id
