-- ===== src/Lifecycle/Session.antt =====
-- legacy/app/core/db.py: `get_db` runs a handler on a session. What the session's methods do is a
-- parameter.
use taxlien_gateway.Prelude.{
  ◌≡◌, ◌↔◌, ◌⊎◌, inl, inr, refl, Option, none, some, List, [], ◌∷◌, ◌++◌, String, arith,
}

-- The calls that are made of a session, in their order. The handler's own are not listed.
pub data Call : Type 0 where
  handle commit rollback close exit : Call

-- What is raised, with its text: an `Exception`, or what is not one, such as a cancellation or a
-- GeneratorExit.
pub data Raised : Type 0 where
  exception : String → Raised
  interruption : String → Raised

-- How each of them ends: `none` is no exception.
pub record Ends : Type 0 where
  pub handled : Option Raised
  pub committed : Option Raised
  pub rolled_back : Option Raised
  pub closed : Option Raised

abbrev raise_after : Option Raised → String → Raised
raise_after none e = exception e
raise_after (some r) e = r

-- `except Exception`: only an `Exception` is followed by a rollback; `raise` raises it again, unless
-- the rollback raises.
abbrev raise_again : Ends → Raised → Option Raised × List Call
raise_again ends (interruption e) = (some (interruption e), [])
raise_again ends (exception e) = (some (raise_after ends.rolled_back e), rollback ∷ [])

-- What leaves the `try` statement with its `except` block, and the calls made.
abbrev attempt : Ends → Option Raised × List Call
attempt ends = elim ends.handled [
  | some e ↦ let (raised, calls) = raise_again ends e in (raised, handle ∷ calls)
  | none ↦ elim ends.committed [
    | some e ↦ let (raised, calls) = raise_again ends e in (raised, handle ∷ commit ∷ calls)
    | none ↦ (none, handle ∷ commit ∷ [])
  ]
]

-- `finally` closes the session, and an exception of `close` takes the place of the one before;
-- leaving the `async with` block closes it once more.
unfoldable pub get_db : Ends → Option Raised × List Call
get_db ends =
    let (raised, calls) = attempt ends in
    (elim ends.closed [ none ↦ raised | some e ↦ some e ], calls ++ close ∷ exit ∷ [])

-- The request succeeds exactly if the handler, the commit and the closing all do.
abbrev pub AllFine : Ends → Type 0
AllFine ends = (ends.handled ≡ none) × (ends.committed ≡ none) × (ends.closed ≡ none)

-- The handler raises an `Exception`, or it returns and the commit does.
abbrev pub Failed : Ends → Type 0
Failed ends =
    (e : String) × ((ends.handled ≡ some (exception e))
      ⊎ ((ends.handled ≡ none) × (ends.committed ≡ some (exception e))))

-- What `get_db` does, by the four calls that can raise.
get_db_cases :
    (handled committed rolled_back closed : Option Raised)
    → let ends : Ends = record {
      handled = handled;
      committed = committed;
      rolled_back = rolled_back;
      closed = closed;
    } in
      (((handled ≡ none)
          × (¬ Failed ends)
          × ((get_db ends).1 ≡ handle ∷ commit ∷ close ∷ exit ∷ []))
        ⊎ ((handled ≡ none)
            × Failed ends
            × ((get_db ends).1 ≡ handle ∷ commit ∷ rollback ∷ close ∷ exit ∷ []))
        ⊎ ((¬ (handled ≡ none))
            × Failed ends
            × ((get_db ends).1 ≡ handle ∷ rollback ∷ close ∷ exit ∷ []))
        ⊎ ((¬ (handled ≡ none)) × (¬ Failed ends) × ((get_db ends).1 ≡ handle ∷ close ∷ exit ∷ [])))
      × (((get_db ends).0 ≡ none) ↔ AllFine ends)
unfolding get_db
get_db_cases none none r c = (inl (refl, λ p. ground (arith, p), refl), ground arith)
get_db_cases none (some (interruption e)) r c =
    (inl (refl, λ p. ground (arith, p), refl), ground arith)
get_db_cases none (some (exception e)) r c =
    (inr (inl (refl, (e, inr (refl, refl)), refl)), ground arith)
get_db_cases (some (interruption e)) m r c =
    (inr (inr (inr (λ p. ground (arith, p), λ p. ground (arith, p), refl))), ground arith)
get_db_cases (some (exception e)) m r c =
    (inr (inr (inl (λ p. ground (arith, p), (e, inl refl), refl))), ground arith)

-- The commit is attempted exactly if the handler raised nothing, the session is rolled back exactly
-- if the handler or else the commit raised an `Exception` (so not after a cancellation), and in every
-- case it is then closed, at the end and whatever was raised; nothing is raised out of `get_db`
-- exactly if none of handler, commit and closing raised.
pub get_db_calls :
    (ends : Ends)
    → (((ends.handled ≡ none)
          × (¬ Failed ends)
          × ((get_db ends).1 ≡ handle ∷ commit ∷ close ∷ exit ∷ []))
        ⊎ ((ends.handled ≡ none)
            × Failed ends
            × ((get_db ends).1 ≡ handle ∷ commit ∷ rollback ∷ close ∷ exit ∷ []))
        ⊎ ((¬ (ends.handled ≡ none))
            × Failed ends
            × ((get_db ends).1 ≡ handle ∷ rollback ∷ close ∷ exit ∷ []))
        ⊎ ((¬ (ends.handled ≡ none))
            × (¬ Failed ends)
            × ((get_db ends).1 ≡ handle ∷ close ∷ exit ∷ [])))
      × (((get_db ends).0 ≡ none) ↔ AllFine ends)
get_db_calls ends = get_db_cases ends.handled ends.committed ends.rolled_back ends.closed
