-- ===== src/Database.antt =====
-- legacy/app/models/parcel.py, legacy/app/core/db.py: the table of parcels and a session on it.
-- PostgreSQL and SQLAlchemy are not in the repository: a session is the interface `Database`, whose
-- laws state documented behaviour. No other transaction writes while a session is open, and a lost
-- connection is not modelled.
pub mod Memory
use taxlien_gateway.Prelude.{
  ℕ, ◌≡◌, ◌≢◌, Bool, true, false, ◌&&◌, Option, none, some, List, [], ◌∷◌, String, str_eq,
  if◌then◌else◌,
}

-- The columns of the unique constraint _parcel_platform_uc.
pub record ParcelKey : Type 0 where
  pub parcel_id : String
  pub platform : String
  pub state : String
  pub county : String

-- A row; `payload` is the column "data". The number `id`, which nothing reads, is left out.
pub record Parcel : Type 0 where
  pub key : ParcelKey
  pub payload : String
  pub scraped_at : ℕ
  pub worker_id : String

abbrev pub key_eq : ParcelKey → ParcelKey → Bool
key_eq k j =
    str_eq k.parcel_id j.parcel_id
    && str_eq k.platform j.platform
    && str_eq k.state j.state
    && str_eq k.county j.county

-- The columns that ON CONFLICT DO UPDATE sets.
pub data Column : Type 0 where
  payload_column scraped_at_column worker_id_column : Column

-- INSERT of a row, and the columns set to the row's on a conflict of its key.
pub record Upsert : Type 0 where
  pub values : Parcel
  pub sets : List Column

abbrev set_column : Column → Parcel → Parcel → Parcel
set_column payload_column new old = record old { payload = new.payload }
set_column scraped_at_column new old = record old { scraped_at = new.scraped_at }
set_column worker_id_column new old = record old { worker_id = new.worker_id }

abbrev set_columns : List Column → Parcel → Parcel → Parcel
set_columns [] new old = old
set_columns (c ∷ cs) new old = set_columns cs new (set_column c new old)

-- The row that a statement leaves under its key.
abbrev pub upserted : Upsert → Option Parcel → Parcel
upserted u none = u.values
upserted u (some old) = set_columns u.sets u.values old

pub record Database : Type 1 where
  pub Session : Type 0
  -- What others see, and what the session itself sees.
  pub committed : Session → ParcelKey → Option Parcel
  pub pending : Session → ParcelKey → Option Parcel
  -- A statement has failed, and the server refuses the others until the transaction ends.
  pub aborted : Session → Bool
  -- The text of the exception, if the statement fails.
  pub execute : Upsert → Session → Option String × Session
  pub commit : Session → Session
  pub committed-execute :
      (u : Upsert) (k : ParcelKey) (d : Session) → committed (execute u d).1 k ≡ committed d k
  pub pending-execute :
      (u : Upsert) (k : ParcelKey) (d : Session)
      → (execute u d).0 ≡ none
      → pending (execute u d).1 k
        ≡ (if key_eq u.values.key k then some (upserted u (pending d k)) else pending d k)
  pub aborted-execute :
      (u : Upsert) (d : Session) → (execute u d).0 ≡ none → aborted (execute u d).1 ≡ false
  pub execute-aborted :
      (u : Upsert) (d : Session)
      → aborted d ≡ true
      → ((e : String) × ((execute u d).0 ≡ some e)) × (aborted (execute u d).1 ≡ true)
  pub committed-commit :
      (k : ParcelKey) (d : Session) → aborted d ≡ false → committed (commit d) k ≡ pending d k
  -- COMMIT of an aborted transaction rolls it back.
  pub committed-commit_aborted :
      (k : ParcelKey) (d : Session) → aborted d ≡ true → committed (commit d) k ≡ committed d k
