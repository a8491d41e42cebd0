-- ===== src/Examples/Reverse.antt =====
-- The reverse forwards.
use adb_tcp_bridge.Common.{
  ◌+◌, ◌≤◌, ◌≡◌, ◌≢◌, refl, true, List, [], ◌∷◌, arith, codes, bytes_eq, ok, err,
}
use adb_tcp_bridge.Host.{status_okay}
use adb_tcp_bridge.Reverse.{
  Mapping, new_state, no_service, response, Device, State, reverse_fail, kill_all, close_all,
  tear_down, read_reply, run_device_reverse, lookup, kill_drained,
}
use adb_tcp_bridge.Reverse.Forward.{handle}
use adb_tcp_bridge.Reverse.Listeners.{Keyed, count, handles}
use adb_tcp_bridge.Reverse.Tidy.{IsTidy}
use adb_tcp_bridge.Reverse.Overlap.Alone.{alone, alone-IsTidy}
use adb_tcp_bridge.Reverse.Overlap.{Event, begin, answered, comes, goes, overlap}
use adb_tcp_bridge.Reverse.Overlap.Sound.{overlap-listeners}
use adb_tcp_bridge.Reverse.Draining.{close_all-clears, kill_all_leaks}

-- A device that accepts everything, and one that cannot be reached.
abbrev willing : Device
willing = record {
  has_backend = true;
  respond = λ n command. response status_okay;
  listen = λ n. ok (5000 + n);
}

abbrev gone : Device
gone = record {
  has_backend = true;
  respond = λ n command. no_service (codes "offline");
  listen = λ n. ok (5000 + n);
}

-- Two forwards, on the listeners 0 and 1.
abbrev mapping0 : Mapping
mapping0 = record { local = codes "tcp:1"; remote = codes "tcp:11"; listener = 0 }

abbrev mapping1 : Mapping
mapping1 = record { local = codes "tcp:2"; remote = codes "tcp:12"; listener = 1 }

abbrev two_forwards : State
two_forwards = record {
  mappings = (codes "tcp:1", mapping0) ∷ (codes "tcp:2", mapping1) ∷ [];
  listeners = 1 ∷ 0 ∷ [];
  next_listener = 2;
  commands = [];
  reports = [];
}

two_forwards-IsTidy : IsTidy [] two_forwards
unfolding lookup count handles bytes_eq
two_forwards-IsTidy = record {
  owned = λ h. ground arith;
  single = λ h. ground arith;
  fresh = λ h p. ground arith;
  keyed = (refl, refl, (refl, refl, tt));
}

not_kill_all : codes "forward:tcp:3;tcp:13" ≢ codes "killforward-all"
not_kill_all e = cc

alone-IsTidy_example :
    let r = handle willing (codes "forward:tcp:3;tcp:13") two_forwards in
    let s = alone willing 9 (begin willing (codes "forward:tcp:3;tcp:13") two_forwards) in
    (s ≡ (r.0, answered r.1)) × IsTidy [] s.0
alone-IsTidy_example =
    alone-IsTidy willing (codes "forward:tcp:3;tcp:13") two_forwards 9 not_kill_all (omega arith)
      two_forwards-IsTidy

close_all-clears_example :
    ((close_all gone two_forwards).mappings ≡ [])
    × (count 1 (close_all gone two_forwards).listeners ≡ 0)
close_all-clears_example = close_all-clears gone 1 two_forwards refl two_forwards-IsTidy

willing_kills : (kill_all willing two_forwards).1 ≡ status_okay
unfolding kill_all kill_drained tear_down run_device_reverse read_reply
willing_kills = refl

gone_fails :
    (tear_down gone (codes "tcp:1") mapping0 (record two_forwards { mappings = [] })).1
    ≡ err (codes "offline")
unfolding tear_down run_device_reverse read_reply
gone_fails = refl

kill_all_leaks_example :
    ((kill_all gone two_forwards).1 ≡ reverse_fail (codes "offline"))
    × ((kill_all gone two_forwards).0.mappings ≡ [])
    × (count 1 (kill_all gone two_forwards).0.listeners
        ≡ count 1 (handles ((codes "tcp:2", mapping1) ∷ [])))
kill_all_leaks_example =
    kill_all_leaks gone 1 two_forwards (codes "tcp:1") mapping0 ((codes "tcp:2", mapping1) ∷ [])
      (codes "offline") two_forwards-IsTidy refl gone_fails

-- Two forwards of the same side and a killforward-all, the second forward between the parts of the
-- first.
abbrev events : List Event
events =
    comes (codes "forward:tcp:1;tcp:11")
    ∷ goes 0
    ∷ comes (codes "forward:tcp:1;tcp:12")
    ∷ goes 1
    ∷ comes (codes "killforward-all")
    ∷ goes 2
    ∷ []

overlap-listeners_example :
    let st = (overlap willing events (new_state, [])).0 in
    Keyed st.mappings
    × (count 1 (handles st.mappings) ≤ 1)
    × (count 1 (handles st.mappings) ≤ count 1 st.listeners)
overlap-listeners_example = overlap-listeners willing events 1

-- Two forwards of tcp:3 that have bound the listeners 2 and 3.
abbrev four_listeners : State
four_listeners = record two_forwards { listeners = 3 ∷ 2 ∷ 1 ∷ 0 ∷ []; next_listener = 4 }
