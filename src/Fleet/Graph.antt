-- ===== src/Fleet/Graph.antt =====
-- integrated/host/rl/parking_env.py: the slots, the nodes of the lanes and the routes into the slots.
use hanium_smart_parkin.Base.{ℕ, List, [], ◌∷◌}
use hanium_smart_parkin.Base.Arithmetic.{Arithmetic}

pub data Slot : Type 0 where
  a1 a2 a3 a4 b1 b2 b3 b4 : Slot

-- `front s` is "A1_front" and so on.
pub data Node : Type 0 where
  entrance junction exit lane_pt_4 lane_pt_3 lane_pt_2 lane_pt_1 : Node
  front : Slot → Node

-- The order of the keys of `SLOT_COORDINATES`
abbrev pub slots : List Slot
slots = a1 ∷ a2 ∷ a3 ∷ a4 ∷ b1 ∷ b2 ∷ b3 ∷ b4 ∷ []

module _ {F : Type 0} ⦃ar : Arithmetic F⦄ where
  abbrev pub mm : ℕ → F
  mm n = ar.literal n 0

  -- `SLOT_COORDINATES`
  unfoldable pub slot_coordinates : Slot → F × F
  slot_coordinates a1 = (mm 425, mm 150)
  slot_coordinates a2 = (mm 650, mm 150)
  slot_coordinates a3 = (mm 875, mm 150)
  slot_coordinates a4 = (mm 1100, mm 150)
  slot_coordinates b1 = (mm 425, mm 1050)
  slot_coordinates b2 = (mm 650, mm 1050)
  slot_coordinates b3 = (mm 875, mm 1050)
  slot_coordinates b4 = (mm 1100, mm 1050)

  -- The fronts within `NODE_COORDINATES`
  front_coordinates : Slot → F × F
  front_coordinates a1 = (mm 425, mm 150)
  front_coordinates a2 = (mm 650, mm 150)
  front_coordinates a3 = (mm 875, mm 150)
  front_coordinates a4 = (mm 1100, mm 150)
  front_coordinates b1 = (mm 425, mm 1050)
  front_coordinates b2 = (mm 650, mm 1050)
  front_coordinates b3 = (mm 875, mm 1050)
  front_coordinates b4 = (mm 1100, mm 1050)

  -- `NODE_COORDINATES`
  unfoldable pub node_coordinates : Node → F × F
  unfolding front_coordinates
  node_coordinates entrance = (mm 150, mm 100)
  node_coordinates junction = (mm 150, mm 600)
  node_coordinates exit = (mm 150, mm 1200)
  node_coordinates lane_pt_4 = (mm 425, mm 600)
  node_coordinates lane_pt_3 = (mm 650, mm 600)
  node_coordinates lane_pt_2 = (mm 875, mm 600)
  node_coordinates lane_pt_1 = (mm 1100, mm 600)
  node_coordinates (front s) = front_coordinates s

-- `SLOT_ROUTES`
unfoldable pub slot_routes : Slot → List Node
slot_routes b1 = entrance ∷ junction ∷ lane_pt_4 ∷ front b1 ∷ []
slot_routes b2 = entrance ∷ junction ∷ lane_pt_4 ∷ lane_pt_3 ∷ front b2 ∷ []
slot_routes b3 = entrance ∷ junction ∷ lane_pt_4 ∷ lane_pt_3 ∷ lane_pt_2 ∷ front b3 ∷ []
slot_routes b4 = entrance ∷ junction ∷ lane_pt_4 ∷ lane_pt_3 ∷ lane_pt_2 ∷ lane_pt_1 ∷ front b4 ∷ []
slot_routes a1 = entrance ∷ junction ∷ lane_pt_4 ∷ front a1 ∷ []
slot_routes a2 = entrance ∷ junction ∷ lane_pt_4 ∷ lane_pt_3 ∷ front a2 ∷ []
slot_routes a3 = entrance ∷ junction ∷ lane_pt_4 ∷ lane_pt_3 ∷ lane_pt_2 ∷ front a3 ∷ []
slot_routes a4 = entrance ∷ junction ∷ lane_pt_4 ∷ lane_pt_3 ∷ lane_pt_2 ∷ lane_pt_1 ∷ front a4 ∷ []
