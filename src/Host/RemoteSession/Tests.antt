-- ===== src/Host/RemoteSession/Tests.antt =====
-- The handshake of a remote session at a concrete input.
use hanium_smart_parkin.Base.{◌≡◌, refl, true, false, some, List, [], ◌∷◌, ◌&&◌}
use hanium_smart_parkin.Base.Decimal.{Decimal}
use hanium_smart_parkin.Host.Mission
use hanium_smart_parkin.Host.HostController
use hanium_smart_parkin.Host.Tests.{route}
use hanium_smart_parkin.Host.RemoteSession
use hanium_smart_parkin.Host.RemoteSession.{
  RemoteDirectSession, Notice, accepted, other, command_result, command_rejected, comm_fail,
  comm_recovered, begin_handshake, arm_end, hear_all,
}
use hanium_smart_parkin.Host.RemoteSession.Granted.{Ends, none_spoils, one_accepts, arming-Ends}

abbrev session : RemoteDirectSession Decimal
session = RemoteSession.new (HostController.new (Mission.new route) true) false

-- The second car loses its link and an older request is refused, neither of which matters to car 1.
abbrev notices : List Notice
notices =
    comm_fail 2 ∷ command_result 1 6 (other 0) ∷ command_result 1 7 accepted ∷ comm_recovered 1 ∷ []

grants : (none_spoils 1 7 notices && one_accepts 1 7 notices) ≡ true
grants = refl

arming-Ends_example :
    Ends
      (none_spoils 1 7 notices && one_accepts 1 7 notices)
      (arm_end (hear_all 1 notices (begin_handshake (some 7) session).0))
unfolding RemoteSession.new HostController.new
arming-Ends_example = arming-Ends 1 7 notices session refl
