-- ===== src/Host/Authority.antt =====
-- integrated/host/host_control/authority.py: who may drive. `none` is an `AuthorityError`.
pub mod Latched
use hanium_smart_parkin.Base.{Bool, true, false, Option, none, some}
use hanium_smart_parkin.Host.Model.{Reason, no_reason, stop_reason, fault_reason}

pub data Authority : Type 0 where
  disarmed manual auto_host faulted : Authority

pub record ControlAuthority : Type 0 where
  pub state : Authority
  pub fault_reason : Reason

unfoldable pub new : ControlAuthority
new = record { state = disarmed; fault_reason = no_reason }

abbrev pub is_driving_allowed : Authority → Bool
is_driving_allowed manual = true
is_driving_allowed auto_host = true
is_driving_allowed disarmed = false
is_driving_allowed faulted = false

-- `_require(Authority.DISARMED, …)`, and the new state
arm_as : Authority → ControlAuthority → Authority → Option ControlAuthority
arm_as to a disarmed = some (record a { state = to })
arm_as to a _ = none

unfoldable pub arm_manual : ControlAuthority → Option ControlAuthority
unfolding arm_as
arm_manual a = arm_as manual a a.state

unfoldable pub arm_auto : ControlAuthority → Option ControlAuthority
unfolding arm_as
arm_auto a = arm_as auto_host a a.state

cleared : ControlAuthority
cleared = record { state = disarmed; fault_reason = no_reason }

disarm_from : Authority → Option ControlAuthority
unfolding cleared
disarm_from faulted = none
disarm_from _ = some cleared

unfoldable pub disarm : ControlAuthority → Option ControlAuthority
unfolding disarm_from
disarm a = disarm_from a.state

-- `reason or "FAULT"`
abbrev or_fault : Reason → Reason
or_fault no_reason = fault_reason
or_fault r = r

fault_from : Reason → ControlAuthority → Authority → ControlAuthority
fault_from r a faulted = a
fault_from r a _ = record { state = faulted; fault_reason = or_fault r }

unfoldable pub fault : Reason → ControlAuthority → ControlAuthority
unfolding fault_from
fault r a = fault_from r a a.state

unfoldable pub stop : ControlAuthority → ControlAuthority
unfolding fault
stop a = fault stop_reason a

clear_from : Authority → Option ControlAuthority
unfolding cleared
clear_from faulted = some cleared
clear_from _ = none

unfoldable pub clear_fault : ControlAuthority → Option ControlAuthority
unfolding clear_from
clear_fault a = clear_from a.state

-- `if FAULTED: clear_fault()`
unclog : ControlAuthority → Authority → ControlAuthority
unfolding cleared
unclog a faulted = cleared
unclog a _ = a

unfoldable pub re_arm_auto : ControlAuthority → Option ControlAuthority
unfolding unclog arm_auto
re_arm_auto a = arm_auto (unclog a a.state)

unfoldable pub re_arm_manual : ControlAuthority → Option ControlAuthority
unfolding unclog arm_manual
re_arm_manual a = arm_manual (unclog a a.state)
