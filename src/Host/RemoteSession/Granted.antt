-- ===== src/Host/RemoteSession/Granted.antt =====
-- remote_direct_session.py: when the autopilot is armed.
use hanium_smart_parkin.Base.{
  ℕ, ◌==◌, ◌≡◌, refl, sym, inl, inr, Bool, true, false, not, ◌&&◌, ◌||◌, if_both, Option, none,
  some, List, [], ◌∷◌, if◌then◌else◌, Bool-cases, arith,
}
use hanium_smart_parkin.Host.Model.{Reason}
use hanium_smart_parkin.Host.Authority
use hanium_smart_parkin.Host.Authority.{Authority, disarmed, auto_host, faulted}
use hanium_smart_parkin.Host.Authority.Latched.{arm_auto-faulted}
use hanium_smart_parkin.Host.HostController
use hanium_smart_parkin.Host.HostController.{HostController}
use hanium_smart_parkin.Host.HostController.Stale.{fault-state}
use hanium_smart_parkin.Host.RemoteSession.{
  CommandResult, accepted, other, RemoteDirectSession, Notice, command_result, command_rejected,
  comm_fail, comm_recovered, resync, begin_handshake, fault_host, refuse, answer, arm_granted,
  arm_end, is_number, hear, hear_all, set_mode_refused, set_mode_timeout, comm_timeout,
  resync_reason,
}

module _ (car_id seq : ℕ) where
  -- ACCEPTED for the request of this handshake
  abbrev pub accepts : Notice → Bool
  accepts (command_result car n accepted) = car == car_id && n == seq
  accepts _ = false

  -- A notice that ends the handshake without a grant
  abbrev pub spoils : Notice → Bool
  spoils (command_result car n (other _)) = car == car_id && n == seq
  spoils (command_rejected car _) = car == car_id
  spoils (comm_fail car) = car == car_id
  spoils (resync car) = car == car_id
  spoils _ = false

  abbrev pub one_accepts : List Notice → Bool
  one_accepts [] = false
  one_accepts (n ∷ ns) = accepts n || one_accepts ns

  abbrev pub none_spoils : List Notice → Bool
  none_spoils [] = true
  none_spoils (n ∷ ns) = not (spoils n) && none_spoils ns

module _ {F : Type 0} where
  -- An attempt to arm succeeds if `ok`, and else raises and leaves the host FAULTED.
  abbrev pub Ends : Bool → RemoteDirectSession F × Bool → Type 0
  Ends ok (s, raised) =
      (raised ≡ not ok) × (s.host.authority.state ≡ (if ok then auto_host else faulted))

  abbrev IsFaulted : RemoteDirectSession F → Type 0
  IsFaulted s = s.host.authority.state ≡ faulted

  fault_host-IsFaulted : (r : Reason) (s : RemoteDirectSession F) → IsFaulted (fault_host r s)
  unfolding fault_host HostController.fault
  fault_host-IsFaulted r s = fault-state s.host.authority r

  arm_granted-faulted :
      (o : Option ℕ) (s : RemoteDirectSession F) → IsFaulted s → Ends false (arm_granted o s)
  unfolding arm_granted HostController.arm_auto
  arm_granted-faulted (some text) s f = (refl, fault_host-IsFaulted (set_mode_refused text) s)
  arm_granted-faulted none s f = rw (arm_auto-faulted s.host.authority f) (refl, f)

  arm_end-faulted : (s : RemoteDirectSession F) → IsFaulted s → Ends false (arm_end s)
  unfolding arm_end
  arm_end-faulted s f =
      if_both (Ends false) s.is_answered (arm_granted-faulted s.rejected_reason s f)
        (refl, fault_host-IsFaulted set_mode_timeout s)

  answer-IsFaulted :
      (r : CommandResult) (s : RemoteDirectSession F) → IsFaulted s → IsFaulted (answer r s)
  unfolding answer refuse
  answer-IsFaulted accepted s f = f
  answer-IsFaulted (other text) s f = fault_host-IsFaulted (set_mode_refused text) s

module _ (car_id : ℕ) {F : Type 0} where
  hear-IsFaulted :
      (n : Notice) (s : RemoteDirectSession F) → IsFaulted s → IsFaulted (hear car_id n s).0
  unfolding hear refuse
  hear-IsFaulted (command_result car n r) s f =
      if_both IsFaulted (car == car_id && is_number s.set_mode_seq n) (answer-IsFaulted r s f) f
  hear-IsFaulted (command_rejected car text) s f =
      if_both IsFaulted (car == car_id) (fault_host-IsFaulted (set_mode_refused text) s) f
  hear-IsFaulted (comm_fail car) s f =
      if_both (λ (e : RemoteDirectSession F × Bool). IsFaulted e.0) (car == car_id)
        (fault_host-IsFaulted comm_timeout s) f
  hear-IsFaulted (comm_recovered car) s f = f
  hear-IsFaulted (resync car) s f =
      if_both (λ (e : RemoteDirectSession F × Bool). IsFaulted e.0) (car == car_id)
        (fault_host-IsFaulted resync_reason s) f

  hear_all-faulted :
      (ns : List Notice) (s : RemoteDirectSession F)
      → IsFaulted s
      → Ends false (arm_end (hear_all car_id ns s))
  unfolding hear_all
  hear_all-faulted [] s f = arm_end-faulted s f
  hear_all-faulted (n ∷ ns) s f = hear_all-faulted ns _ (hear-IsFaulted n s f)

or_assoc : (a b c : Bool) → ((a || b) || c) ≡ (a || (b || c))
or_assoc true b c = refl
or_assoc false b c = refl

or_true : (a : Bool) → (a || true) ≡ true
or_true true = refl
or_true false = refl

or_false : (a : Bool) → (a || false) ≡ a
or_false true = refl
or_false false = refl

module _ (car_id seq : ℕ) {F : Type 0} where
  -- The answer to the request of number `seq` is awaited.
  abbrev Awaits : RemoteDirectSession F → Type 0
  Awaits s =
      (s.host.authority.state ≡ disarmed) × (s.set_mode_seq ≡ some seq) × (s.rejected_reason ≡ none)

  arm_auto-disarmed :
      (h : HostController F)
      → h.authority.state ≡ disarmed
      → let (h', raised) = HostController.arm_auto h in
        (raised ≡ false) × (h'.authority.state ≡ auto_host)
  unfolding HostController.arm_auto Authority.arm_auto
  arm_auto-disarmed h d = rw d (refl, refl)

  arm_end-Awaits : (s : RemoteDirectSession F) → Awaits s → Ends s.is_answered (arm_end s)
  unfolding arm_end arm_granted
  arm_end-Awaits s (d, n, r) = elim (Bool-cases s.is_answered) [
    | inl e ↦ rw e (rw r (arm_auto-disarmed s.host d))
    | inr e ↦ rw e (refl, fault_host-IsFaulted set_mode_timeout s)
  ]

  spoiled-IsFaulted :
      (n : Notice) (s : RemoteDirectSession F)
      → spoils car_id seq n ≡ true
      → Awaits s
      → IsFaulted (hear car_id n s).0
  unfolding hear answer refuse
  spoiled-IsFaulted (command_result car n accepted) s e k = ground arith
  spoiled-IsFaulted (command_result car n (other text)) s e k =
      rw (k.1, e) (fault_host-IsFaulted (set_mode_refused text) s)
  spoiled-IsFaulted (command_rejected car text) s e k =
      rw e (fault_host-IsFaulted (set_mode_refused text) s)
  spoiled-IsFaulted (comm_fail car) s e k = rw e (fault_host-IsFaulted comm_timeout s)
  spoiled-IsFaulted (comm_recovered car) s e k = ground arith
  spoiled-IsFaulted (resync car) s e k = rw e (fault_host-IsFaulted resync_reason s)

  -- A notice that does not spoil the handshake leaves it waiting, or answers it.
  abbrev Goes : Notice → RemoteDirectSession F → RemoteDirectSession F → Type 0
  Goes n s s' = Awaits s' × (s'.is_answered ≡ (s.is_answered || accepts car_id seq n))

  other-Goes :
      (n : Notice) (s : RemoteDirectSession F)
      → accepts car_id seq n ≡ false
      → Awaits s
      → Goes n s s
  other-Goes n s e k = rw e (k, sym (or_false s.is_answered))

  hear-Goes :
      (n : Notice) (s : RemoteDirectSession F)
      → spoils car_id seq n ≡ false
      → Awaits s
      → Goes n s (hear car_id n s).0
  unfolding hear answer
  hear-Goes (command_result car n accepted) s e k = elim (Bool-cases (car == car_id && n == seq)) [
    | inl q ↦ rw (k.1, q) ((k.0, refl, k.2), sym (or_true s.is_answered))
    | inr q ↦ rw (k.1, q) ((k.0, refl, k.2), sym (or_false s.is_answered))
  ]
  hear-Goes (command_result car n (other text)) s e k =
      rw (k.1, e) ((k.0, refl, k.2), sym (or_false s.is_answered))
  hear-Goes (command_rejected car text) s e k =
      rw e (other-Goes (command_rejected car text) s refl k)
  hear-Goes (comm_fail car) s e k = rw e (other-Goes (comm_fail car) s refl k)
  hear-Goes (comm_recovered car) s e k = other-Goes (comm_recovered car) s refl k
  hear-Goes (resync car) s e k = rw e (other-Goes (resync car) s refl k)

  hear_all-Ends :
      (ns : List Notice) (s : RemoteDirectSession F)
      → Awaits s
      → Ends
          (none_spoils car_id seq ns && (s.is_answered || one_accepts car_id seq ns))
          (arm_end (hear_all car_id ns s))
  unfolding hear_all
  hear_all-Ends [] s k = rw (or_false s.is_answered) (arm_end-Awaits s k)
  hear_all-Ends (n ∷ ns) s k = elim (Bool-cases (spoils car_id seq n)) [
    | inl e ↦ rw e (hear_all-faulted car_id ns _ (spoiled-IsFaulted n s e k))
    | inr e ↦
        let (k', q) = hear-Goes n s e k in
        rw e (
          rw⁻¹ (or_assoc s.is_answered (accepts car_id seq n) (one_accepts car_id seq ns))
            (rw⁻¹ q (hear_all-Ends ns _ k')))
  ]

  -- From a DISARMED host the handshake arms the autopilot exactly if, before the waiting ends, ACCEPTED
  -- comes for the number of this request, and no other result for it, no rejection, lost link or new
  -- connection of this car. Otherwise it raises and leaves the host FAULTED. Notices about other cars and
  -- other numbers make no difference.
  pub arming-Ends :
      (ns : List Notice) (s : RemoteDirectSession F)
      → s.host.authority.state ≡ disarmed
      → Ends
          (none_spoils car_id seq ns && one_accepts car_id seq ns)
          (arm_end (hear_all car_id ns (begin_handshake (some seq) s).0))
  unfolding begin_handshake
  arming-Ends ns s d = hear_all-Ends ns (begin_handshake (some seq) s).0 (d, refl, refl)
