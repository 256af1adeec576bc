-- ===== src/Host/Authority/Latched.antt =====
-- authority.py: while FAULTED, every call but `clear_fault` and the two re-arming ones is without
-- effect or refused.
use hanium_smart_parkin.Base.{◌≡◌, refl, ◌⊎◌, inl, inr, none, some}
use hanium_smart_parkin.Host.Model.{Reason}
use hanium_smart_parkin.Host.Authority.{
  Authority, ControlAuthority, disarmed, manual, auto_host, faulted, new, cleared, arm_as,
  arm_manual, arm_auto, disarm_from, disarm, fault_from, fault,
}

module _ (a : ControlAuthority) (f : a.state ≡ faulted) where
  pub fault-faulted : (r : Reason) → fault r a ≡ a
  unfolding fault fault_from
  fault-faulted r = rw f refl

  pub arm_auto-faulted : arm_auto a ≡ none
  unfolding arm_auto arm_as
  arm_auto-faulted = rw f refl

  pub arm_manual-faulted : arm_manual a ≡ none
  unfolding arm_manual arm_as
  arm_manual-faulted = rw f refl

  pub disarm-faulted : disarm a ≡ none
  unfolding disarm disarm_from
  disarm-faulted = rw f refl

disarm_from-cases :
    (s : Authority) → ((s ≡ faulted) × (disarm_from s ≡ none)) ⊎ (disarm_from s ≡ some new)
unfolding disarm_from cleared new
disarm_from-cases faulted = inl (refl, refl)
disarm_from-cases disarmed = inr refl
disarm_from-cases manual = inr refl
disarm_from-cases auto_host = inr refl

pub disarm-cases :
    (a : ControlAuthority) → ((a.state ≡ faulted) × (disarm a ≡ none)) ⊎ (disarm a ≡ some new)
unfolding disarm
disarm-cases a = disarm_from-cases a.state
