-- ===== src/Tests/OnPort.antt =====
-- A deny list, and scans on a machine where some ports are taken.
use kobra_game.Base.{◌≡◌, refl, false, none, some, [], ◌∷◌, ◌==◌, if◌then◌else◌}
use kobra_game.Port.DenyList.{DenyList, DenyListFile, given, contains, reserved, parse_deny_list}
use kobra_game.Port.Allocation.{
  Weather, Weathers, Exclude, probe_free, probe_other_app, addr_in_use, available, scan_window,
}
use kobra_game.Port.Allocating.{Allocates, available-Allocates}
use kobra_game.Port.Parsing.{Parses, Says, parse_deny_list-Says}

abbrev deny : DenyList
deny = record {
  ports = (6000, given "X11") ∷ [];
  ranges = record { from = 7000; to = 7002; msg = given "no" } ∷ [];
  reserved = [];
  base = 5999;
  span = 4;
}

abbrev file : DenyListFile
file = record {
  schema = "kobra.port-deny-list/1";
  ranges = record { from = 7000; to = 7002; message = "" } ∷ [];
  ports = record { port = 6000; message = "X11" } ∷ [];
  reserved_ranges = record { from = 49152; to = 65535; message = "" } ∷ [];
  base = 5999;
  span = 4;
}

abbrev nobody : Exclude
nobody p = false

-- Port 5999 is another program's, the others are free.
abbrev calm : Weather
calm = record {
  clock = λ i. i;
  answer = λ p. if p == 5999 then (probe_other_app, false) else (probe_free, false);
}

abbrev slow : Weather
slow = record { clock = λ i. 20_000; answer = λ p. (probe_free, false) }

abbrev machine : Weathers
machine = record {
  first_answer = (probe_free, false);
  first_bind = λ p. some addr_in_use;
  window_weather = calm;
  window_bind = λ p. none;
  wide_weather = calm;
  wide_bind = λ p. none;
}

found_6001 : scan_window 5999 4 (some deny) nobody 500 calm ≡ some 6001
unfolding scan_window contains reserved
found_6001 = refl

found_none : scan_window 5999 4 (some deny) nobody 500 slow ≡ none
unfolding scan_window
found_none = refl

available-Allocates_example :
    Allocates 6002
      (some deny)
      nobody
      (some addr_in_use)
      (available 6002 (some deny) nobody 500 machine)
available-Allocates_example = available-Allocates 6002 (some deny) nobody 500 machine

parse_deny_list-Says_example : Parses (Says file 7001) (parse_deny_list file)
parse_deny_list-Says_example = parse_deny_list-Says file 7001
