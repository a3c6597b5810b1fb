-- ===== src/Trip/Diagram/Lookups.antt =====
-- The commands of a trip that look up a lane: startTrip at the pickup and move at the goal, where
-- the lane is found.
use autoware_agent.Base.{
  ℕ, ◌≡◌, refl, sym, ap, subst, ◌∙◌, true, false, Option, none, some, ℤ, in_int64, ok, ◌>>=◌,
  Result, Returns,
}
use autoware_agent.Decimal.{to_string, stoll}
use autoware_agent.Decimal.RoundTrip.{stoll-to_string}
use autoware_agent.Geometry.{LaneInfo, Lanes}
use autoware_agent.Trip.State.{
  routes_ready, waiting_for_pickup_start, waiting_for_move, HeldRoute, TripController, send,
  do_publish_goal,
}
use autoware_agent.Trip.Commands.{start_at, start_held, start_trip, move_to, move_held, move}
use autoware_agent.Trip.Events.{start, move_on, dropped, step}
use autoware_agent.Trip.Diagram.Stages.{Luggage, At, Due, state-At, state_test, moved-At, moved-Due}

-- The lanes that a trip finds: at the pickup, and from there at the goal.
pub record Found {F M : Type 0} (e : Lanes F M) (m : M) (pickup goal : HeldRoute F) : Type 0 where
  pub lane : LaneInfo F
  pub map : M
  pub at_pickup : e.get_lane_by_id m pickup.goal_lane_id ≡ ok (some lane, map)
  pub lane_in_int64 : in_int64 lane.lane_id ≡ true
  pub goal_lane : LaneInfo F
  pub last_map : M
  pub at_goal :
      e.find_nearest_connected_lane map goal.goal_gps lane.lane_id true
      ≡ ok (some goal_lane, last_map)

module _ {F M : Type 0} (e : Lanes F M) (pickup goal : HeldRoute F) where
  -- With both routes held, before the start.
  abbrev pub Ready : M → TripController F M → Type 0
  Ready m c =
      (c.status.state ≡ routes_ready)
      × (c.pickup_route ≡ some pickup)
      × (c.trip_route ≡ some goal)
      × (c.lanelet_map ≡ m)

  -- What the trip takes to the goal, and what it is left with there.
  abbrev pub packed : (m : M) → Found e m pickup goal → Luggage F M
  packed m f = record { route = some goal; lanes = f.map; from = to_string f.lane.lane_id }

  abbrev pub arrived_with : (m : M) → Found e m pickup goal → Luggage F M
  arrived_with m f = record {
    route = some goal;
    lanes = f.last_map;
    from = to_string f.lane.lane_id;
  }

  start_held-At :
      (c : TripController F M) (m : M) (f : Found e m pickup goal) (now : ℕ)
      → c.status.state ≡ routes_ready
      → c.trip_route ≡ some goal
      → c.lanelet_map ≡ m
      → c.engaging_for_pickup ≡ true
      → Returns
          (At waiting_for_pickup_start true (packed m f))
          (dropped e (start_held e c (some pickup) (some goal) now))
  unfolding start_held start_at
  start_held-At c m f now st kept same flag = rw (state_test c routes_ready st) (
      subst
        (λ (r : Result (Option (LaneInfo F) × M)).
          Returns (At waiting_for_pickup_start true (packed m f)) (
            dropped e (
              r >>= λ found.
              ok (start_at e (record c { lanelet_map = found.1 }) pickup now found.0))))
        (sym (
          subst (λ q. e.get_lane_by_id q pickup.goal_lane_id ≡ ok (some f.lane, f.map)) (sym same)
            f.at_pickup))
        (moved-At _ routes_ready waiting_for_pickup_start true (packed m f) now (λ i. (
          st i,
          flag i,
          record { route = kept i; lanes = f.map; from = to_string f.lane.lane_id },
        ))))

  pub start-At :
      (c : TripController F M) (m : M) (f : Found e m pickup goal) (now : ℕ)
      → Ready m c
      → Returns (At waiting_for_pickup_start true (packed m f)) (step e c now start)
  unfolding step start_trip
  start-At c m f now (st, held, kept, same) =
      subst
        (λ (o : Option (HeldRoute F) × Option (HeldRoute F)).
          Returns (At waiting_for_pickup_start true (packed m f)) (
            dropped e (
              start_held e (record c { engaging_for_pickup = true; current_route_state = none }) o.0
                o.1 now)))
        (λ i. (sym held i, sym kept i))
        (start_held-At (record c { engaging_for_pickup = true; current_route_state = none }) m f now
          st kept same refl)

  move_held-Due :
      (c : TripController F M) (m : M) (f : Found e m pickup goal) (now : ℕ)
      → At waiting_for_move true (packed m f) c
      → Returns (Due false (arrived_with m f)) (dropped e (move_held e c (some goal) now))
  unfolding move_held move_to do_publish_goal send
  move_held-Due c m f now at =
      let from = ap (λ k. k.2.from) at in
      let lanes = ap (λ k. k.2.lanes) at in
      subst
        (λ (r : Result ℤ). Returns (Due false (arrived_with m f)) (
          dropped e (
            r >>= λ i. e.find_nearest_connected_lane c.lanelet_map goal.goal_gps i true >>= λ found.
            ok (move_to e (record c { lanelet_map = found.1 }) goal now found.0))))
        (sym (ap (λ t. stoll t) from ∙ stoll-to_string f.lane.lane_id f.lane_in_int64))
        (subst
          (λ (r : Result (Option (LaneInfo F) × M)). Returns (Due false (arrived_with m f)) (
            dropped e (
              r >>= λ found. ok (move_to e (record c { lanelet_map = found.1 }) goal now found.0))))
          (sym (
            ap (λ q. e.find_nearest_connected_lane q goal.goal_gps f.lane.lane_id true) lanes
            ∙ f.at_goal))
          (moved-Due _ waiting_for_move false (arrived_with m f) now
            (λ i. (
              (at i).0,
              false,
              record { route = (at i).2.route; lanes = f.last_map; from = (at i).2.from },
            ))
            refl))

  pub move-Due :
      (c : TripController F M) (m : M) (f : Found e m pickup goal) (now : ℕ)
      → At waiting_for_move true (packed m f) c
      → Returns (Due false (arrived_with m f)) (step e c now move_on)
  unfolding step move
  move-Due c m f now at =
      rw (state_test c waiting_for_move (state-At c waiting_for_move true (packed m f) at)) (
        subst
          (λ (t : Option (HeldRoute F)).
            Returns (Due false (arrived_with m f)) (dropped e (move_held e c t now)))
          (sym (ap (λ k. k.2.route) at)) (move_held-Due c m f now at))
