-- ===== src/Device/Status/Idle.antt =====
-- When a device is reported as idle.
use qdmi_on_iqm.Base.{
  ℕ, zero, suc, ◌≡◌, ◌↔◌, refl, ap, Bool, true, false, Option, none, some, [], ◌∷◌, Bytes, arith,
  leb, if◌then◌else◌,
}
use qdmi_on_iqm.Auth.Manager.{AuthResult, value}
use qdmi_on_iqm.ApiConfig.{url, get_quantum_computer_health, get_queue_availability}
use qdmi_on_iqm.Device.Online.{Host, Online, Reply, session_get}
use qdmi_on_iqm.Device.Status.Replies.{
  IsSound, IsOpen, IsFree, iff_trans, iff_both, SaysHealthy, SaysFree, health_of-Expects,
  availability_of-Expects, ReplySays, after_probe-ReplySays, after_probe-state,
}
use qdmi_on_iqm.Device.Status.{
  Probe, answered, unsupported, unavailable, raised, QueueAvailability, DeviceStatus, idle, busy,
  get_device_health, get_queue_availability_of, status_by_queue, queue_status, status_by_health,
  get_device_status, by_availability, length_or_busy, probe_quantum_computer, after_probe,
  health_of, availability_of,
}

module _ {W : Type 0} (host : Host W) where
  open host use {lib}

  length-idle :
      (n : Option ℕ)
      → ((if leb 1 (length_or_busy host n) then busy else idle) ≡ idle) ↔ (n ≡ some 0)
  length-idle none = (λ h. ground arith, λ h. ground arith)
  length-idle (some zero) = (λ h. refl, λ h. refl)
  length-idle (some (suc n)) = (λ h. ground arith, λ h. ground arith)

  value_eq :
      {s t : DeviceStatus} → (s ≡ t) ↔ (◌≡◌ {A = AuthResult DeviceStatus} (value s) (value t))
  value_eq = (λ h. ap value h, λ h. cc)

  availability-idle :
      (a : QueueAvailability) (open_now : Option Bool)
      → (◌≡◌ {A = AuthResult DeviceStatus} (value (by_availability host a open_now)) (value idle))
        ↔ ((a.queue_length ≡ some 0) × IsOpen open_now)
  availability-idle a none = (
    λ h. ((length-idle a.queue_length).0 (value_eq.1 h), tt),
    λ h. value_eq.0 ((length-idle a.queue_length).1 h.0),
  )
  availability-idle a (some true) = (
    λ h. ((length-idle a.queue_length).0 (value_eq.1 h), tt),
    λ h. value_eq.0 ((length-idle a.queue_length).1 h.0),
  )
  availability-idle a (some false) = (λ h. ground arith, λ h. absurd h.1)

  status_by_queue-idle :
      (q : Probe QueueAvailability) → (status_by_queue host q ≡ value idle) ↔ IsFree q
  unfolding status_by_queue
  status_by_queue-idle unavailable = (λ h. ground arith, λ h. absurd h)
  status_by_queue-idle unsupported = (λ h. tt, λ h. refl)
  status_by_queue-idle (raised e) = (λ h. ground arith, λ h. absurd h)
  status_by_queue-idle (answered a) = availability-idle a a.is_available

  status_by_health-idle :
      (id : Option Bytes) (h : Probe Bool) (s : Online) (w : W)
      → ((status_by_health host id (h, s, w)).0 ≡ value idle)
        ↔ (IsSound h × IsFree (get_queue_availability_of host id s w).0)
  unfolding status_by_health queue_status
  status_by_health-idle id unavailable s w = (λ h. ground arith, λ h. absurd h.0)
  status_by_health-idle id (raised e) s w = (λ h. ground arith, λ h. absurd h.0)
  status_by_health-idle id (answered false) s w = (λ h. ground arith, λ h. absurd h.0)
  status_by_health-idle id (answered true) s w =
      let queue = status_by_queue-idle (get_queue_availability_of host id s w).0 in
      (λ h. (tt, queue.0 h), λ h. queue.1 h.1)
  status_by_health-idle id unsupported s w =
      let queue = status_by_queue-idle (get_queue_availability_of host id s w).0 in
      (λ h. (tt, queue.0 h), λ h. queue.1 h.1)

  -- Where the probes' replies are `health` and then `queue`.
  probes-idle :
      (id : Bytes) (health : Reply host) (queue : Online → W → Reply host)
      → (let after = after_probe host health in
          let next = queue after.1 after.2 in
          (IsSound (health_of lib after.0) × IsFree (availability_of lib (after_probe host next).0))
          ↔ (ReplySays host (SaysHealthy lib) health
              × ReplySays host (SaysFree lib) (queue health.1 health.2)))
  probes-idle id health queue =
      let state = after_probe-state host health in
      rw (state.0, state.1)
        (iff_both
          (iff_trans (health_of-Expects lib (after_probe host health).0)
            (after_probe-ReplySays host (SaysHealthy lib) health))
          (iff_trans (availability_of-Expects lib (after_probe host (queue health.1 health.2)).0)
            (after_probe-ReplySays host (SaysFree lib) (queue health.1 health.2))))

  -- The device is reported as idle exactly where the server's response to the request for the
  -- quantum computer's health is 404, or is 2xx with an object that says that it is healthy, and the
  -- response to the request for its queue is 404, or is 2xx with an object that says that the queue
  -- is empty and has no empty list of windows; neither response has a transport error, and neither
  -- request throws. A session without a quantum computer is reported as idle.
  pub get_device_status-idle :
      (id : Bytes) (s : Online) (w : W)
      → (let health = session_get host (url s.server get_quantum_computer_health (id ∷ [])) s w in
          let queue =
            session_get host
              (url health.1.server get_queue_availability (id ∷ []))
              health.1
              health.2 in
          (((get_device_status host (some id) s w).0 ≡ value idle)
            ↔ (ReplySays host (SaysHealthy lib) health × ReplySays host (SaysFree lib) queue))
          × ((get_device_status host none s w).0 ≡ value idle))
  unfolding get_device_status get_device_health get_queue_availability_of probe_quantum_computer
  get_device_status-idle id s w =
      let health = session_get host (url s.server get_quantum_computer_health (id ∷ [])) s w in
      let after = after_probe host health in
      (
        iff_trans (status_by_health-idle (some id) (health_of lib after.0) after.1 after.2) (
            probes-idle id health
              (λ s' w'. session_get host (url s'.server get_queue_availability (id ∷ [])) s' w')),
        unfold status_by_health queue_status health_of status_by_queue availability_of in refl,
      )
