-- ===== src/Apps/Unrouted.antt =====
-- legacy/app/apps: paths that no route stands for.
use taxlien_gateway.Prelude.{
  ◌≡◌, ◌⊎◌, inl, inr, refl, Bool, true, false, Bool-cases, none, List, [], ◌∷◌, String, starts_with,
  str_eq, if◌then◌else◌, arith,
}
use taxlien_gateway.Http.{Request}
use taxlien_gateway.Apps.Routes.{Route, start_of, Matching, find_route}
use taxlien_gateway.Apps.{create_public_app, create_parcel_internal_app, create_party_internal_app}

module _ (m : Matching) where
  open m use {matches, matches-start}

  -- The path begins with the start of none of the routes' templates.
  abbrev is_elsewhere : String → List Route → Bool
  is_elsewhere path [] = true
  is_elsewhere path (r ∷ rs) =
      if starts_with path (start_of r.template) then false else is_elsewhere path rs

  find_route-elsewhere :
      (rs : List Route) (req : Request)
      → is_elsewhere req.path rs ≡ true
      → find_route m rs req ≡ none
  unfolding find_route
  find_route-elsewhere [] req h = refl
  find_route-elsewhere (r ∷ rs) req h =
      elim (Bool-cases (starts_with req.path (start_of r.template))) [
        | inl starts ↦ absurd (ground (arith, rw starts at h))
        | inr off ↦
            let ih = find_route-elsewhere rs req (rw off at h) in
            elim (Bool-cases (matches r.template req.path)) [
              | inl here ↦ absurd (ground (arith, matches-start r.template req.path here, off))
              | inr other ↦ elim (Bool-cases (str_eq r.method req.method)) [
                | inl same ↦ rw (same, other) ih
                | inr differs ↦ rw differs ih
              ]
            ]
      ]

  elsewhere :
      (path : String)
      → (path ≡ "/metrics") ⊎ (path ≡ "/internal/work") ⊎ (path ≡ "/internal/results")
      → (is_elsewhere path create_public_app.routes ≡ true)
        × (is_elsewhere path create_parcel_internal_app.routes ≡ true)
        × (is_elsewhere path create_party_internal_app.routes ≡ true)
  unfolding create_public_app create_parcel_internal_app create_party_internal_app
  elsewhere path (inl e) = rw e (refl, refl, refl)
  elsewhere path (inr (inl e)) = rw e (refl, refl, refl)
  elsewhere path (inr (inr e)) = rw e (refl, refl, refl)

  -- None of the three applications has a route for the paths "/metrics", "/internal/work" and
  -- "/internal/results", whatever the method.
  pub tested_paths_are_unrouted :
      (req : Request)
      → (req.path ≡ "/metrics") ⊎ (req.path ≡ "/internal/work") ⊎ (req.path ≡ "/internal/results")
      → (find_route m create_public_app.routes req ≡ none)
        × (find_route m create_parcel_internal_app.routes req ≡ none)
        × (find_route m create_party_internal_app.routes req ≡ none)
  tested_paths_are_unrouted req which =
      let (a, b, c) = elsewhere req.path which in
      (
        find_route-elsewhere create_public_app.routes req a,
        find_route-elsewhere create_parcel_internal_app.routes req b,
        find_route-elsewhere create_party_internal_app.routes req c,
      )
