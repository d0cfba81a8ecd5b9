-- ===== src/Tests/Ports.antt =====
-- crates/application/src/host_ports.rs on slots whose first ports are taken.
use compose_nest.Common.{
  ◌≡◌, refl, ◌>>=◌, perform, none, some, List, false, [], ◌∷◌, ok, err, arith, ◌==◌, if◌then◌else◌,
}
use compose_nest.HostPorts.{Call, elapsed, inspect, docker, Outside, found, scan_from}
use compose_nest.HostPorts.Slots.{PortSlot, PortCursor, complete, admit}
use compose_nest.HostPorts.Plan.{plan_ports_bounded, check_slot}
use compose_nest.HostPorts.Plan.Complete.{IsPlanned, plan_ports_bounded-IsPlanned}
use compose_nest.HostPorts.Scan.{IsScanned, scan_from-IsScanned}

-- Docker has published 8081, and the time is not up.
abbrev outside : Outside
outside = record {
  inspect = λ port h. if port == 8081 then err docker else ok tt;
  is_late = λ h. false;
}

scan_from-IsScanned_example :
    IsScanned outside 1024 256
      (8080 ∷ [])
      8080
      8091
      []
      (scan_from outside 1024 256 (8080 ∷ []) 8090 8080 8080 0 [])
scan_from-IsScanned_example =
    scan_from-IsScanned outside 1024 256 (8080 ∷ []) 8090 8080 8080 0 [] (omega arith) (omega arith)

finds : (scan_from outside 1024 256 (8080 ∷ []) 8090 8080 8080 0 []).ending ≡ found 8082
unfolding scan_from
finds = refl

-- A clone's database after port 8080, and a web slot that asks for 8090. The cursor selected 8081
-- for the database, which Docker has published since.
abbrev database : PortSlot
database = record {
  key = "db";
  source = some 8079;
  recommended = none;
  explicit = none;
  min = 1024;
  max = 8099;
}

abbrev web : PortSlot
web = record {
  key = "web";
  source = none;
  recommended = none;
  explicit = some "8082";
  min = 8000;
  max = 8099;
}

abbrev resumed : PortCursor
resumed = record { next = []; selected = ("db", 8081) ∷ []; checked_explicit = [] }

abbrev calls : List Call
calls = inspect 8083 ∷ elapsed ∷ elapsed ∷ inspect 8081 ∷ elapsed ∷ inspect 8082 ∷ elapsed ∷ []

planned_anew :
    plan_ports_bounded outside (web ∷ database ∷ []) resumed []
    ≡ (complete (("db", 8083) ∷ ("web", 8082) ∷ []), calls)
unfolding plan_ports_bounded admit ◌>>=◌ check_slot perform scan_from
planned_anew = refl

plan_ports_bounded-IsPlanned_example :
    IsPlanned outside (web ∷ database ∷ []) [] (("db", 8083) ∷ ("web", 8082) ∷ []) calls
plan_ports_bounded-IsPlanned_example =
    plan_ports_bounded-IsPlanned outside (web ∷ database ∷ []) resumed [] calls
      (("db", 8083) ∷ ("web", 8082) ∷ []) planned_anew
