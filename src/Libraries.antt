-- ===== src/Libraries.antt =====
-- What the program calls in third-party crates, as parameters: `uuid`, `chrono`, `serde_json`, `sha2`
-- with `hex`, and the SQLite reading of an Anki collection.
use anki_backup_tool.Base.{ℕ, String, true, Option, some, List, ◌≡◌, ◌≢◌, ◌<◌, ◌≤◌}
use anki_backup_tool.Base.Int.{ℤ}
use anki_backup_tool.Base.Order.{SameItems}
use anki_backup_tool.Base.Text.{text_lt}
use anki_backup_tool.Backup.{Uuid, DateTime, year_10000, Bytes, BackupStats, BackupEntry}

-- `serde_json::Value`, as far as the program looks into one.
mutual
  pub data Value : Type 0 where
    str : String → Value
    obj : Fields → Value
    other : Value

  pub data Fields : Type 0 where
    end : Fields
    field : String → Value → Fields → Fields

-- The tables of an Anki collection that the program queries; `none` for a table that is not there.
-- A row of `decks` is `none` where its columns have other types than the query asks for.
pub record Collection : Type 0 where
  -- the deck of each card
  pub cards : Option (List ℤ)
  pub notes : Option ℕ
  pub revlog : Option ℕ
  pub decks : Option (List (Option (ℤ × String)))
  -- the column `decks` of the first row of `col`
  pub col_decks : Option String

pub record Libraries : Type 0 where
  -- uuid
  pub uuid_to_string : Uuid → String
  pub uuid_parse_str : String → Option Uuid
  -- chrono: `to_rfc3339`, `parse_from_rfc3339` in UTC, and `to_rfc3339_opts(Secs, true)`
  pub to_rfc3339 : DateTime → String
  pub parse_from_rfc3339 : String → Option DateTime
  pub to_rfc3339_secs : DateTime → String
  -- sqlx: a time as a `TIMESTAMPTZ` keeps it
  pub timestamptz : DateTime → DateTime
  -- serde_json
  pub stats_to_json : BackupStats → Option String
  pub stats_from_json : String → Option BackupStats
  pub entry_to_json : BackupEntry → Option Bytes
  pub pointer_to_json : Uuid → String → DateTime → Option Bytes
  pub json_from_str : String → Option Value
  -- sha2 and hex
  pub sha256 : Bytes → Bytes
  pub hex_encode : Bytes → String
  -- rusqlite on a file's content, and the order in which it returns the groups of a query
  pub open_collection : Bytes → Option Collection
  pub group_order : List (ℤ × ℕ) → List (ℤ × ℕ)

-- The documented behaviour that theorems rely on.
pub record IsLawful (L : Libraries) : Type 0 where
  pub uuid_parse_to_string : (u : Uuid) → L.uuid_parse_str (L.uuid_to_string u) ≡ some u
  -- a time of a four-digit year is read back, and such times are ordered as texts as they are in time
  pub parse_to_rfc3339 :
      (t : DateTime) → t < year_10000 → L.parse_from_rfc3339 (L.to_rfc3339 t) ≡ some t
  pub to_rfc3339_mono :
      (t u : DateTime) → t < u → u < year_10000 → text_lt (L.to_rfc3339 t) (L.to_rfc3339 u) ≡ true
  pub to_rfc3339_secs-nonempty : (t : DateTime) → L.to_rfc3339_secs t ≢ ""
  pub timestamptz_mono : (t u : DateTime) → t ≤ u → L.timestamptz t ≤ L.timestamptz u
  pub timestamptz-le : (t : DateTime) → L.timestamptz t ≤ t
  pub stats_json :
      (s : BackupStats) (j : String) → L.stats_to_json s ≡ some j → L.stats_from_json j ≡ some s
  pub group_order-SameItems : (gs : List (ℤ × ℕ)) → SameItems (L.group_order gs) gs
