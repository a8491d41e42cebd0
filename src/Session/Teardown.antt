-- ===== src/Session/Teardown.antt =====
-- How a session ends.
use adb_tcp_bridge.Common.{
  ℕ, ◌≡◌, ◌∙◌, refl, sym, ap, subst, true, false, Option, some, List, [], ◌∷◌, arith, Bytes,
  if_elim, All,
}
use adb_tcp_bridge.Wire.{Packet, cmd_wrte}
use adb_tcp_bridge.Service.{Service, Link}
use adb_tcp_bridge.Service
use adb_tcp_bridge.Session.{
  Session, link_error, get, update, written, handle_write, handle_packet, close, close_all_services,
}
use adb_tcp_bridge.Session.Steps.{received, end_on_error, step}

close_service-done : (svc : Service) → (Service.close svc).done ≡ true
unfolding Service.close
close_service-done svc = ground arith

abbrev pub AllDone : List Service → Type 0
AllDone = All (λ (svc : Service). svc.done ≡ true)

close_all_services-done : (m : List (ℕ × Service)) → AllDone (close_all_services m)
close_all_services-done [] = tt
close_all_services-done ((k, svc) ∷ m) = (close_service-done svc, close_all_services-done m)

handle_packet-wrte :
    (rand : Option Bytes) (p : Packet) (s : Session)
    → p.command ≡ cmd_wrte
    → handle_packet rand p s ≡ handle_write p s
unfolding handle_packet
handle_packet-wrte rand p s e = ground arith

abbrev HasEnded : Session → Session → Type 0
HasEnded s s' =
    (s'.link.closed ≡ true)
    × (s'.conn_open ≡ false)
    × (s'.services ≡ [])
    × AllDone s'.ended
    × (s'.link.packets ≡ s.link.packets)

close-HasEnded : (s : Session) → s.link.closed ≡ false → HasEnded s (close s)
unfolding close
close-HasEnded s o =
    if_elim (HasEnded s) s.link.closed (λ e. cc (o, e))
      (λ _. (refl, refl, refl, close_all_services-done s.services, refl))

handle_write_fails :
    (p : Packet) (s : Session) (svc svc' : Service) (e : Service.Error)
    → get p.arg1 s.services ≡ some svc
    → Service.write_service p.payload svc ≡ (svc', some e)
    → handle_write p s ≡ (update p.arg1 svc' s, some (link_error e))
unfolding handle_write written
handle_write_fails p s svc svc' e g w = rw (g, handle_write) (ap (written p.arg1 s) w)

-- If a WRTE reaches a service of a session that is not closed, and writing to the device fails, or
-- the service has no connection yet, then the whole session ends: its connection is closed, no
-- service is left and all of them are done, and not even an OKAY was sent.
pub write_failure_ends_session :
    (rand : Option Bytes) (p : Packet) (s : Session) (svc svc' : Service) (e : Service.Error)
    → s.link.closed ≡ false
    → p.command ≡ cmd_wrte
    → get p.arg1 s.services ≡ some svc
    → Service.write_service p.payload svc ≡ (svc', some e)
    → let s' = step (received rand p) s in
      (s'.link.closed ≡ true)
      × (s'.conn_open ≡ false)
      × (s'.services ≡ [])
      × AllDone s'.ended
      × (s'.link.packets ≡ s.link.packets)
unfolding step end_on_error
write_failure_ends_session rand p s svc svc' e open' c g w =
    if_elim (HasEnded s) s.link.closed (λ f. cc (open', f))
      (λ _.
        subst (λ r. HasEnded s (end_on_error r)) (sym outcome)
          (close-HasEnded (update p.arg1 svc' s) open'))
  where
    outcome : handle_packet rand p s ≡ (update p.arg1 svc' s, some (link_error e))
    outcome = handle_packet-wrte rand p s c ∙ handle_write_fails p s svc svc' e g w
