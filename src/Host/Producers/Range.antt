-- ===== src/Host/Producers/Range.antt =====
-- producers.py: the range of a command of the driver and of the autopilot.
use hanium_smart_parkin.Base.{◌≡◌, if_both, Bool, false, Option, none, some}
use hanium_smart_parkin.Base.Float.{Float, is_nought}
use hanium_smart_parkin.Base.Arithmetic.{Arithmetic}
use hanium_smart_parkin.Host.Model.{Pose, Waypoint, ControllerConfig, or_nought}
use hanium_smart_parkin.Host.Pursuit.{Memory}
use hanium_smart_parkin.Host.Pursuit.Range.{
  IsForward, IsLimit, IsInRange, clamp-IsForward, round4-IsForward, nought-IsForward, wire-IsUnit,
  rest-IsInRange, compute-IsInRange,
}
use hanium_smart_parkin.Host.Producers.{
  ManualInput, manual_throttle, compute_manual, compute_auto, zero_command,
}

module _ {F : Type 0} ⦃fl : Float F⦄ ⦃ar : Arithmetic F⦄ (cfg : ControllerConfig F)
    (lim : IsLimit cfg.max_throttle) where
  or_nought-IsForward :
      (x : F) → IsForward cfg.max_throttle x → IsForward cfg.max_throttle (or_nought x)
  or_nought-IsForward x h =
      if_both (IsForward cfg.max_throttle) (is_nought x) (nought-IsForward cfg.max_throttle lim) h

  manual_throttle-IsForward :
      cfg.allow_reverse ≡ false → (x : F) → IsForward cfg.max_throttle (manual_throttle cfg x)
  unfolding manual_throttle
  manual_throttle-IsForward e x = rw e (clamp-IsForward cfg.max_throttle _ lim)

  pub compute_manual-IsInRange :
      cfg.allow_reverse ≡ false
      → (input : Option (ManualInput F)) → IsInRange cfg (compute_manual cfg input)
  unfolding compute_manual zero_command
  compute_manual-IsInRange e none = rest-IsInRange cfg lim
  compute_manual-IsInRange e (some i) =
      let r = round4-IsForward cfg.max_throttle _ lim (manual_throttle-IsForward e i.throttle) in
      (or_nought-IsForward _ r, wire-IsUnit cfg _)

  pub compute_auto-IsInRange :
      (o : Option (Pose F)) (t : Option (Waypoint F)) (allow : Bool) (now : F) (mem : Memory F)
      → IsInRange cfg (compute_auto cfg o t allow now mem).0
  unfolding compute_auto zero_command
  compute_auto-IsInRange o none allow now mem = rest-IsInRange cfg lim
  compute_auto-IsInRange none (some w) allow now mem = rest-IsInRange cfg lim
  compute_auto-IsInRange (some p) (some w) allow now mem =
      compute-IsInRange cfg lim p w allow now mem
