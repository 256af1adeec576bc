-- ===== src/Host/Pursuit/Gates.antt =====
-- pose_controller.py: when the controller may move the car, and what an arrival is.
use hanium_smart_parkin.Base.{
  ◌≡◌, ap, inl, inr, Bool, true, false, none, arith, is_some, Option-cases,
}
use hanium_smart_parkin.Base.Float.{Float, le}
use hanium_smart_parkin.Base.Arithmetic.{Arithmetic}
use hanium_smart_parkin.Host.Model.{
  ControlMode, arrived, hold, align, drive, brake, Pose, Waypoint, ControlCommand, ControllerConfig,
  brake_radius_cm, bearing_deg,
}
use hanium_smart_parkin.Host.Pursuit.{Memory, halt, stopped, needs_alignment, pursue, compute}

module _ {F : Type 0} ⦃fl : Float F⦄ ⦃ar : Arithmetic F⦄ (cfg : ControllerConfig F) where
  -- The distance to the waypoint in cm.
  abbrev pub distance_cm : Pose F → Waypoint F → F
  distance_cm pose w =
      ar.div (ar.hypot (ar.sub w.x_mm pose.x_mm) (ar.sub w.y_mm pose.y_mm)) (ar.literal 10 0)

  abbrev pub IsZero : ControlCommand F → Type 0
  IsZero cmd = (cmd.throttle ≡ fl.nought) × (cmd.steering ≡ fl.nought)

  -- The pose is valid, has a heading and is not too old.
  abbrev pub IsFresh : Pose F → F → Type 0
  IsFresh pose now =
      (pose.valid ≡ true)
      × (is_some pose.heading_deg ≡ true)
      × (fl.lt cfg.max_pose_age_s (ar.sub now pose.timestamp) ≡ false)

  -- What a command is about, by its mode.
  abbrev pub Meets :
      Pose F → Waypoint F → Bool → F → ControlCommand F × Memory F → ControlMode → Type 0
  Meets pose w allow now (cmd, mem) hold = IsZero cmd × (cmd.arrived ≡ false) × (mem ≡ none)
  Meets pose w allow now (cmd, mem) align =
      IsZero cmd
      × (cmd.arrived ≡ false)
      × IsFresh pose now
      × (le (distance_cm pose w) (brake_radius_cm cfg w.position_tolerance_cm) ≡ true)
      × (w.heading_required ≡ true)
  Meets pose w allow now (cmd, mem) arrived =
      IsZero cmd
      × (cmd.arrived ≡ true)
      × IsFresh pose now
      × (le (distance_cm pose w) (brake_radius_cm cfg w.position_tolerance_cm) ≡ true)
      × (mem ≡ none)
  Meets pose w allow now (cmd, mem) drive =
      (fl.lt fl.nought cmd.throttle ≡ true)
      × (cmd.arrived ≡ false)
      × IsFresh pose now
      × (allow ≡ true)
      × (le (distance_cm pose w) (brake_radius_cm cfg w.position_tolerance_cm) ≡ false)
  Meets pose w allow now (cmd, mem) brake =
      (fl.lt fl.nought cmd.throttle ≡ false)
      × (cmd.arrived ≡ false)
      × IsFresh pose now
      × (allow ≡ true)
      × (le (distance_cm pose w) (brake_radius_cm cfg w.position_tolerance_cm) ≡ false)

  pub pursue-Meets :
      (pose : Pose F) (w : Waypoint F) (allow : Bool) (now : F) (mem : Memory F) (bearing h : F)
      → IsFresh pose now
      → let r = pursue cfg w allow now mem (distance_cm pose w) bearing h in
        Meets pose w allow now r r.0.mode
  unfolding pursue halt stopped needs_alignment
  pursue-Meets pose w allow now mem bearing h fresh = ground arith

  -- Each mode of a command says what it should. HOLD, ALIGN and ARRIVED stop the car; ALIGN and
  -- ARRIVED stand for a valid fresh pose within the brake radius; the car moves only in DRIVE or BRAKE,
  -- which need a valid fresh pose with a heading, the permission to drive, and a farther waypoint.
  pub compute-Meets :
      (pose : Pose F) (w : Waypoint F) (allow : Bool) (now : F) (mem : Memory F)
      → let r = compute cfg pose w allow now mem in Meets pose w allow now r r.0.mode
  unfolding compute halt stopped
  compute-Meets pose w allow now mem = elim (Option-cases pose.heading_deg) [
    | inl e ↦ ground arith
    | inr (h, e) ↦ ground (
      arith,
      λ (v : pose.valid ≡ true) (t : fl.lt cfg.max_pose_age_s (ar.sub now pose.timestamp) ≡ false).
          pursue-Meets pose w allow now mem (bearing_deg pose.x_mm pose.y_mm w.x_mm w.y_mm) h
            (v, ap is_some e, t),
    )
  ]
