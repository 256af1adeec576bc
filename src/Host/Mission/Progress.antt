-- ===== src/Host/Mission/Progress.antt =====
-- mission.py: how a route is worked off.
use hanium_smart_parkin.Base.{
  ℕ, zero, suc, ◌+◌, ◌<◌, ◌≤◌, ◌⊎◌, ◌≡◌, refl, sym, ap, ◌∙◌, inl, inr, Bool, true, false, ◌||◌,
  ◌==◌, List, [], ◌∷◌, length, get_elem?, All, arith, if◌then◌else◌, Bool-cases,
}
use mathlib.Core.Path.{subst}
use hanium_smart_parkin.Host.Model.{running, done, Waypoint, ControlCommand}
use hanium_smart_parkin.Host.Mission.{
  HostWaypointMission, is_align, new, is_final_index, is_final_waypoint, notify_result,
}

module _ {F : Type 0} where
  -- How many arrivals a route takes: up to its first waypoint marked final, or its last one.
  abbrev pub arrivals_to_finish : List (Waypoint F) → ℕ
  arrivals_to_finish [] = 0
  arrivals_to_finish (w ∷ []) = 1
  arrivals_to_finish (w ∷ v ∷ ws) =
      let rest = arrivals_to_finish (v ∷ ws) in if w.is_final then 1 else suc rest

  abbrev pub drop : ℕ → List (Waypoint F) → List (Waypoint F)
  drop zero ws = ws
  drop (suc i) [] = []
  drop (suc i) (w ∷ ws) = drop i ws

  -- `_is_final_index` of a list and an index
  abbrev is_end : List (Waypoint F) → ℕ → Bool
  is_end ws i = is_final_waypoint (get_elem? ws i) || (i + 1 == length ws)

  arrivals-drop :
      (ws : List (Waypoint F)) (i : ℕ)
      → i < length ws
      → arrivals_to_finish (drop i ws)
        ≡ (if is_end ws i then 1 else suc (arrivals_to_finish (drop (suc i) ws)))
  arrivals-drop [] i h = ground arith
  arrivals-drop (w ∷ []) zero h = ground arith
  arrivals-drop (w ∷ v ∷ ws) zero h = ground arith
  arrivals-drop (w ∷ ws) (suc i) h = ground (arith, arrivals-drop ws i)

  arrivals-rest :
      (ws : List (Waypoint F)) (i : ℕ)
      → i < length ws
      → is_end ws i ≡ false
      → 1 ≤ arrivals_to_finish (drop (suc i) ws)
  arrivals-rest [] i h e = ground arith
  arrivals-rest (w ∷ []) zero h e = ground arith
  arrivals-rest (w ∷ v ∷ []) zero h e = ground arith
  arrivals-rest (w ∷ v ∷ u ∷ ws) zero h e = ground arith
  arrivals-rest (w ∷ ws) (suc i) h e = ground (arith, arrivals-rest ws i)

  drop-le : (ws : List (Waypoint F)) (i : ℕ) → 1 ≤ arrivals_to_finish (drop i ws) → i < length ws
  drop-le [] zero h = ground arith
  drop-le [] (suc i) h = ground arith
  drop-le (w ∷ ws) zero h = ground arith
  drop-le (w ∷ ws) (suc i) h = ground (arith, drop-le ws i)

  -- The commands of a run of the controller, one after the other.
  unfoldable pub notify_each :
      List (ControlCommand F) → HostWaypointMission F → HostWaypointMission F
  notify_each [] m = m
  notify_each (c ∷ cs) m = notify_each cs (notify_result c m)

  abbrev pub count_arrived : List (ControlCommand F) → ℕ
  count_arrived [] = 0
  count_arrived (c ∷ cs) = let n = count_arrived cs in if c.arrived then suc n else n

  -- None of the commands asks for a new plan.
  abbrev pub IsStraight : ControlCommand F → Type 0
  IsStraight c = is_align c.mode ≡ false

  notify_ended :
      (c : ControlCommand F) (m : HostWaypointMission F) → m.status ≡ done → notify_result c m ≡ m
  unfolding notify_result
  notify_ended c m e = rw e refl

  notify_each-ended :
      (cs : List (ControlCommand F)) (m : HostWaypointMission F)
      → m.status ≡ done
      → notify_each cs m ≡ m
  unfolding notify_each
  notify_each-ended [] m e = refl
  notify_each-ended (c ∷ cs) m e =
      ap (notify_each cs) (notify_ended c m e) ∙ notify_each-ended cs m e

  -- Where a mission is after k arrivals, of r that it needed.
  abbrev pub IsAfter : ℕ → ℕ → HostWaypointMission F → HostWaypointMission F → Type 0
  IsAfter k r m m' =
      (((k < r) × (m'.status ≡ running) × (m'.index ≡ m.index + k))
        ⊎ ((r ≤ k) × (m'.status ≡ done)))
      × (m'.waypoints ≡ m.waypoints)

  notify_arrived :
      (c : ControlCommand F) (m : HostWaypointMission F)
      → m.status ≡ running
      → is_align c.mode ≡ false
      → c.arrived ≡ true
      → notify_result c m ≡ (
          if is_end m.waypoints m.index
          then record m { status = done }
          else record m { index = m.index + 1 })
  unfolding notify_result is_final_index
  notify_arrived c m e s a = rw (e, s, a) refl

  notify_moving :
      (c : ControlCommand F) (m : HostWaypointMission F)
      → m.status ≡ running
      → is_align c.mode ≡ false
      → c.arrived ≡ false
      → notify_result c m ≡ m
  unfolding notify_result
  notify_moving c m e s a = rw (e, s, a) refl

  -- The commands do to every running mission what its route says.
  abbrev pub Follows : List (ControlCommand F) → Type 0
  Follows cs =
      (m : HostWaypointMission F) (r : ℕ)
      → m.status ≡ running
      → arrivals_to_finish (drop m.index m.waypoints) ≡ r
      → 1 ≤ r
      → IsAfter (count_arrived cs) r m (notify_each cs m)

  one_more :
      (n r' r : ℕ) (m m' : HostWaypointMission F)
      → r ≡ suc r'
      → IsAfter n r' (record m { index = m.index + 1 }) m'
      → IsAfter (suc n) r m m'
  one_more n r' r m m' e h = ground arith

  count_arrived-cons :
      (c : ControlCommand F) (cs : List (ControlCommand F))
      → c.arrived ≡ true
      → suc (count_arrived cs) ≡ count_arrived (c ∷ cs)
  count_arrived-cons c cs a = ground arith

  arrive-IsAfter :
      (cs : List (ControlCommand F)) (m m1 : HostWaypointMission F) (r : ℕ)
      → Follows cs
      → m.status ≡ running
      → arrivals_to_finish (drop m.index m.waypoints) ≡ r
      → 1 ≤ r
      → m1 ≡ (
          if is_end m.waypoints m.index
          then record m { status = done }
          else record m { index = m.index + 1 })
      → IsAfter (suc (count_arrived cs)) r m (notify_each cs m1)
  arrive-IsAfter cs m m1 r ih e k pos step =
      let inside = drop-le m.waypoints m.index (rw k pos) in
      let next = arrivals-drop m.waypoints m.index inside in
      let succ : suc m.index ≡ m.index + 1 = omega arith in
      elim (Bool-cases (is_end m.waypoints m.index)) [
        | inl z ↦
            let m2 = record m { status = done } in
            let same : notify_each cs m1 ≡ m2 =
              ap (notify_each cs) (step ∙ rw z refl) ∙ notify_each-ended cs m2 refl in
            subst (λ x. IsAfter (suc (count_arrived cs)) r m x) (sym same) (ground arith)
        | inr z ↦
            let m2 = record m { index = m.index + 1 } in
            let same : notify_each cs m1 ≡ notify_each cs m2 =
              ap (notify_each cs) (step ∙ rw z refl) in
            let rest = arrivals-rest m.waypoints m.index inside z in
            let num =
              sym k ∙ next ∙ rw z (ap (λ i. suc (arrivals_to_finish (drop i m.waypoints))) succ) in
            let after =
              ih m2 (arrivals_to_finish (drop (m.index + 1) m.waypoints)) e refl (rw⁻¹ succ rest) in
            subst (λ x. IsAfter (suc (count_arrived cs)) r m x) (sym same)
              (one_more (count_arrived cs) (arrivals_to_finish (drop (m.index + 1) m.waypoints)) r m
                (notify_each cs m2) num after)
      ]

  pub notify_each-IsAfter : (cs : List (ControlCommand F)) → All IsStraight cs → Follows cs
  unfolding notify_each
  notify_each-IsAfter [] ss m r e k pos = ground arith
  notify_each-IsAfter (c ∷ cs) (s, ss) m r e k pos = elim (Bool-cases c.arrived) [
    | inr a ↦
        subst
          (λ x.
            IsAfter (if c.arrived then suc (count_arrived cs) else count_arrived cs) r m
              (notify_each cs x))
          (sym (notify_moving c m e s a)) (rw a (notify_each-IsAfter cs ss m r e k pos))
    | inl a ↦
        subst (λ n. IsAfter n r m (notify_each cs (notify_result c m))) (count_arrived-cons c cs a)
          (arrive-IsAfter cs m (notify_result c m) r (notify_each-IsAfter cs ss) e k pos
            (notify_arrived c m e s a))
  ]

  arrivals-pos : (w : Waypoint F) (ws : List (Waypoint F)) → 1 ≤ arrivals_to_finish (w ∷ ws)
  arrivals-pos w [] = omega arith
  arrivals-pos w (v ∷ ws) = ground arith

  -- Of a new mission with a route that is not empty, and any commands none of which is ALIGN: while
  -- fewer of them have arrived than the waypoints up to the first one marked final, or else the last
  -- one, the mission runs and its index is their number; from then on it is DONE. The route stays.
  pub route-IsAfter :
      (ws : List (Waypoint F)) (cs : List (ControlCommand F))
      → All IsStraight cs
      → 1 ≤ length ws
      → IsAfter (count_arrived cs) (arrivals_to_finish ws) (new ws) (notify_each cs (new ws))
  unfolding new
  route-IsAfter [] cs ss h = ground arith
  route-IsAfter (w ∷ ws) cs ss h =
      notify_each-IsAfter cs ss (new (w ∷ ws)) _ refl refl (arrivals-pos w ws)
