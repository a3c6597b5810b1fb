-- ===== src/Lanelets/Nearest.antt =====
-- The search loop of findNearestLane and findNearestConnectedLane against its specification: the
-- lane that is found is a drivable lane of the list, and no drivable lane is closer.
use autoware_agent.Base.{
  ◌≡◌, refl, sym, ◌∙◌, ◌⊎◌, inl, inr, true, false, List, [], ◌∷◌, Option, none, some, ℤ, Bool-cases,
  subst, All, Any,
}
use autoware_agent.Geometry.{LocalCoordinate}
use autoware_agent.Lanelets.Geometry.{Lanelet, Platform, is_drivable, midpoint, distance}
use autoware_agent.Lanelets.Drivable.{ForCars, is_drivable-ForCars, ForCars-is_drivable}
use autoware_agent.Lanelets.Map.{lane_distance, consider, nearest}

-- What the search relies on in the comparison of doubles; both hold with NaN too.
pub record IsOrdered {F : Type 0} (p : Platform F) : Type 0 where
  pub lt_irrefl : (a : F) → p.lt a a ≡ false
  pub lt_trans : (a b c : F) → p.lt a b ≡ true → p.lt b c ≡ true → p.lt a c ≡ true

module _ {F : Type 0} (p : Platform F) (offset_x offset_y : F) (target : LocalCoordinate F) where
  -- The straight line from the query to a point of the map that is moved by the map's offset.
  abbrev pub straight_line : LocalCoordinate F → F
  straight_line mid = p.sqrt (
      p.add (p.mul (p.sub (p.add offset_x mid.x) target.x) (p.sub (p.add offset_x mid.x) target.x))
        (p.mul (p.sub (p.add offset_y mid.y) target.y) (p.sub (p.add offset_y mid.y) target.y)))

  -- A drivable lane with a midpoint at distance `best.0`, and with the id `best.1`.
  abbrev pub Candidate : F × ℤ → Lanelet F → Type 0
  Candidate best ll =
      ForCars ll.subtype
      × (ll.id ≡ best.1)
      × ((mid : LocalCoordinate F) × (midpoint ll.centerline ≡ some mid)
          × (straight_line mid ≡ best.0))

  -- The lane is not drivable, has no midpoint, or is not closer than `d`.
  abbrev pub NotCloser : F → Lanelet F → Type 0
  NotCloser d ll =
      (mid : LocalCoordinate F)
      → ForCars ll.subtype
      → midpoint ll.centerline ≡ some mid
      → p.lt (straight_line mid) d ≡ false

  abbrev Round : Lanelet F → F × ℤ → F × ℤ → Type 0
  Round ll best r = ((r ≡ best) × NotCloser best.0 ll) ⊎ ((p.lt r.0 best.0 ≡ true) × Candidate r ll)

  consider_mid-Round :
      (ll : Lanelet F) (best : F × ℤ) (o : Option (LocalCoordinate F))
      → midpoint ll.centerline ≡ o
      → is_drivable ll.subtype ≡ true
      → Round ll best (consider p offset_x offset_y target ll best)
  unfolding consider lane_distance distance
  consider_mid-Round ll (d, i) none no_mid ok_type =
      rw (ok_type, no_mid) (inl (refl, λ mid _ e. cc))
  consider_mid-Round ll (d, i) (some mid) at_mid ok_type =
      elim (Bool-cases (p.lt (straight_line mid) d)) [
        | inl less ↦
            rw (ok_type, at_mid, less)
              (inr (less, (is_drivable-ForCars ll.subtype ok_type, refl, (mid, refl, refl))))
        | inr not_less ↦
            rw (ok_type, at_mid, not_less)
              (inl (
                refl,
                λ mid' _ at_mid'.
                    let e : mid ≡ mid' = cc at_mid' in
                    subst (λ q. p.lt (straight_line q) d ≡ false) e not_less,
              ))
      ]

  consider-Round :
      (ll : Lanelet F) (best : F × ℤ) → Round ll best (consider p offset_x offset_y target ll best)
  unfolding consider
  consider-Round ll best = elim (Bool-cases (is_drivable ll.subtype)) [
    | inl ok_type ↦ consider_mid-Round ll best (midpoint ll.centerline) refl ok_type
    | inr skipped ↦
        rw skipped (inl (refl, λ mid e _. cc (sym skipped ∙ ForCars-is_drivable ll.subtype e)))
  ]

module _ {F : Type 0} (p : Platform F) (order : IsOrdered p) (offset_x offset_y : F)
    (target : LocalCoordinate F) where
  NotCloser-anti :
      (ll : Lanelet F) (d d' : F)
      → p.lt d' d ≡ true
      → NotCloser p offset_x offset_y target d ll
      → NotCloser p offset_x offset_y target d' ll
  NotCloser-anti ll d d' less h mid ok_type at_mid =
      let dist = straight_line p offset_x offset_y target mid in
      elim (Bool-cases (p.lt dist d')) [
        | inl closer ↦ cc (sym (order.lt_trans dist d' d closer less) ∙ h mid ok_type at_mid)
        | inr far ↦ far
      ]

  Candidate-NotCloser :
      (ll : Lanelet F) (r : F × ℤ)
      → Candidate p offset_x offset_y target r ll
      → NotCloser p offset_x offset_y target r.0 ll
  Candidate-NotCloser ll r (_, _, (mid, at_mid, same)) mid' _ at_mid' =
      let e : mid ≡ mid' = cc (sym at_mid ∙ at_mid') in
      subst (λ q. p.lt (straight_line p offset_x offset_y target q) r.0 ≡ false) e
        (rw same (order.lt_irrefl r.0))

  -- The result is the start value or a candidate that is closer, and no lane is closer.
  abbrev pub Searched : List (Lanelet F) → F × ℤ → F × ℤ → Type 0
  Searched lls best r =
      ((r ≡ best) ⊎ ((p.lt r.0 best.0 ≡ true) × Any (Candidate p offset_x offset_y target r) lls))
      × All (NotCloser p offset_x offset_y target r.0) lls

  pub nearest-Searched :
      (lls : List (Lanelet F)) (best : F × ℤ)
      → Searched lls best (nearest p offset_x offset_y target lls best)
  unfolding nearest
  nearest-Searched [] best = (inl refl, tt)
  nearest-Searched (ll ∷ lls) best =
      search_on (consider p offset_x offset_y target ll best)
        (consider-Round p offset_x offset_y target ll best)
        (nearest p offset_x offset_y target lls (consider p offset_x offset_y target ll best))
        (nearest-Searched lls (consider p offset_x offset_y target ll best))
    where
      head_NotCloser :
          (a r : F × ℤ)
          → (r ≡ a) ⊎ ((p.lt r.0 a.0 ≡ true) × Any (Candidate p offset_x offset_y target r) lls)
          → NotCloser p offset_x offset_y target a.0 ll
          → NotCloser p offset_x offset_y target r.0 ll
      head_NotCloser a r (inl same) h = rw same h
      head_NotCloser a r (inr (less, _)) h = NotCloser-anti ll a.0 r.0 less h

      search_on :
          (a : F × ℤ)
          → Round p offset_x offset_y target ll best a
          → (r : F × ℤ) → Searched lls a r
          → Searched (ll ∷ lls) best r
      search_on a (inl (kept, h)) r (inl same, rest) =
          (inl (same ∙ kept), (head_NotCloser a r (inl same) (rw kept h), rest))
      search_on a (inl (kept, h)) r (inr (less, found), rest) = (
        inr (rw kept at less, inr found),
        (head_NotCloser a r (inr (less, found)) (rw kept h), rest),
      )
      search_on a (inr (won, cand)) r (inl same, rest) = (
        inr (rw same (won, inl cand)),
        (head_NotCloser a r (inl same) (Candidate-NotCloser ll a cand), rest),
      )
      search_on a (inr (won, cand)) r (inr (less, found), rest) = (
        inr (order.lt_trans r.0 a.0 best.0 less won, inr found),
        (head_NotCloser a r (inr (less, found)) (Candidate-NotCloser ll a cand), rest),
      )
