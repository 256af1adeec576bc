-- ===== src/Fleet/Waypoints/Route.antt =====
-- waypoints.py: the shape of a route.
use hanium_smart_parkin.Base.{
  ℕ, ◌+◌, ◌≡◌, refl, ◌≢◌, true, false, Option, none, some, List, [], ◌∷◌, arith, is_some, length,
}
use hanium_smart_parkin.Base.Float.{Float}
use hanium_smart_parkin.Base.Arithmetic.{Arithmetic}
use hanium_smart_parkin.Fleet.Graph.{Node, node_coordinates, slot_routes}
use hanium_smart_parkin.Fleet.Waypoints.{
  SlotSpec, Waypoint, cruise, final, make, slot_waypoints, cruise_waypoints, build_along,
  build_waypoints,
}

module _ {F : Type 0} ⦃fl : Float F⦄ ⦃ar : Arithmetic F⦄ (s : SlotSpec F) (r : ℕ) where
  -- A waypoint on the way, with the number `i`.
  abbrev pub IsStep : ℕ → Waypoint F → Type 0
  IsStep i w =
      (w.route_id ≡ r)
      × (w.waypoint_id ≡ i)
      × (w.is_final ≡ false)
      × (w.heading_required ≡ is_some w.target_heading_deg)

  -- The waypoint at which the car is parked: the center of the slot, in its direction.
  abbrev pub IsParking : ℕ → Waypoint F → Type 0
  IsParking i w =
      (w.route_id ≡ r)
      × (w.waypoint_id ≡ i)
      × (w.is_final ≡ true)
      × (w.phase ≡ final)
      × (w.x ≡ s.center_x)
      × (w.y ≡ s.center_y)
      × (w.target_heading_deg ≡ some s.target_heading_deg)
      × (w.heading_required ≡ true)

  -- Waypoints numbered one by one from `i`, of which the last one alone is final.
  abbrev pub IsRoute : ℕ → List (Waypoint F) → Type 0
  IsRoute i [] = ⊥
  IsRoute i (w ∷ []) = IsParking i w
  IsRoute i (w ∷ v ∷ ws) = IsStep i w × IsRoute (i + 1) (v ∷ ws)

  IsRoute-cons :
      (i : ℕ) (w : Waypoint F) (ws : List (Waypoint F))
      → IsStep i w
      → IsRoute (i + 1) ws
      → IsRoute i (w ∷ ws)
  IsRoute-cons i w [] h k = absurd k
  IsRoute-cons i w (v ∷ ws) h k = (h, k)

  slot_waypoints-IsRoute : (i : ℕ) → IsRoute i (slot_waypoints s r i)
  unfolding slot_waypoints make
  slot_waypoints-IsRoute i = ground arith

  cruise_waypoints-IsRoute :
      (i : ℕ) (node : Node) (nodes : List Node)
      → IsRoute i (cruise_waypoints s r i node nodes)
        × (length (cruise_waypoints s r i node nodes) ≡ length nodes + 4)
  unfolding cruise_waypoints slot_waypoints make
  cruise_waypoints-IsRoute i node [] = (slot_waypoints-IsRoute i, refl)
  cruise_waypoints-IsRoute i node (next ∷ nodes) =
      let (ok, n) = cruise_waypoints-IsRoute (i + 1) next nodes in
      (
        IsRoute-cons i
            (make r i cruise (node_coordinates node).0 (node_coordinates node).1 none false)
            (cruise_waypoints s r (i + 1) next nodes) (refl, refl, refl, refl) ok,
        omega (arith, n),
      )

  -- What `build_waypoints` gives for the nodes of a route.
  abbrev pub Builds : List Node → Option (List (Waypoint F)) → Type 0
  Builds nodes none = nodes ≡ []
  Builds nodes (some ws) = (nodes ≢ []) × (length ws ≡ length nodes + 3) × IsRoute 1 ws

  build_along-Builds : (nodes : List Node) → Builds nodes (build_along s r nodes)
  unfolding build_along
  build_along-Builds [] = refl
  build_along-Builds (node ∷ nodes) =
      let (ok, n) = cruise_waypoints-IsRoute 1 node nodes in ((λ e. cc), omega (arith, n), ok)

  -- A route without a node is refused. Else there is a waypoint for each node but the last, and four
  -- for the slot; all bear the route's id, they are numbered from 1, and exactly the last is final: it
  -- is the center of the slot, and asks for the slot's direction.
  pub build_waypoints-Builds :
      (route : Option (List Node))
      → Builds
          (elim route [ none ↦ slot_routes s.slot_id | some nodes ↦ nodes ])
          (build_waypoints s r route)
  unfolding build_waypoints
  build_waypoints-Builds none = build_along-Builds (slot_routes s.slot_id)
  build_waypoints-Builds (some nodes) = build_along-Builds nodes
