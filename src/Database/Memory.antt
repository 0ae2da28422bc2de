-- ===== src/Database/Memory.antt =====
-- A table in memory that has the laws of `Database`, for any choice of the rows that it refuses.
use taxlien_gateway.Prelude.{
  ◌≡◌, inl, inr, Bool, true, false, Option, none, some, String, if◌then◌else◌, arith, Bool-cases,
}
use taxlien_gateway.Database.{ParcelKey, Parcel, key_eq, Upsert, upserted, Database}

pub record Table : Type 0 where
  pub rows : ParcelKey → Option Parcel
  pub mine : ParcelKey → Option Parcel
  pub broken : Bool

abbrev pub empty_table : Table
empty_table = record { rows = λ k. none; mine = λ k. none; broken = false }

module _ (refuses : Parcel → Bool) where
  abbrev pub run : Upsert → Table → Option String × Table
  run u d =
      let written = λ (k : ParcelKey).
        if key_eq u.values.key k then some (upserted u (d.mine k)) else d.mine k in
      if d.broken
      then (some "current transaction is aborted", d)
      else if refuses u.values
      then (some "statement failed", record d { broken = true })
      else (none, record d { mine = written })

  pub rows-run : (u : Upsert) (k : ParcelKey) (d : Table) → (run u d).1.rows k ≡ d.rows k
  rows-run u k d = ground arith

  pub mine-run :
      (u : Upsert) (k : ParcelKey) (d : Table)
      → (run u d).0 ≡ none
      → (run u d).1.mine k
        ≡ (if key_eq u.values.key k then some (upserted u (d.mine k)) else d.mine k)
  mine-run u k d e = elim (Bool-cases d.broken) [
    | inl b ↦ cc (rw b at e)
    | inr ok ↦ elim (Bool-cases (refuses u.values)) [
      | inl refused ↦ cc (rw (ok, refused) at e)
      | inr taken ↦ rw (ok, taken)
    ]
  ]

  pub broken-run : (u : Upsert) (d : Table) → (run u d).0 ≡ none → (run u d).1.broken ≡ false
  broken-run u d e = ground arith

  pub run-broken :
      (u : Upsert) (d : Table)
      → d.broken ≡ true
      → ((e : String) × ((run u d).0 ≡ some e)) × ((run u d).1.broken ≡ true)
  run-broken u d b = (("current transaction is aborted", rw b), ground (arith, b))

  abbrev pub table : Database
  table = record {
    Session = Table;
    committed = λ d k. d.rows k;
    pending = λ d k. d.mine k;
    aborted = λ d. d.broken;
    execute = run;
    commit = λ d.
        if d.broken then record d { mine = d.rows; broken = false } else record d { rows = d.mine };
    committed-execute = rows-run;
    pending-execute = mine-run;
    aborted-execute = broken-run;
    execute-aborted = run-broken;
    committed-commit = λ k d ok. rw ok;
    committed-commit_aborted = λ k d b. rw b;
  }
