-- ===== src/Launch/Tests.antt =====
-- Runs of the operations on receipts.
use srv.Launch.Trace.Absent.{absent_for_good}
use srv.Launch.Files.{stored}
use srv.Launch.Name.{valid_name}
use srv.Launch.Trace.Final.{is_closed}
use srv.Launch.Trace.{reboot, start, Call, perform}
use srv.Launch.Start.{no_live_runtime, name_vacant, result_locked, resolve_start}
use srv.Launch.Trace.Once.{launched_once, launched}
use srv.Effect.{done, attempt, write, read, ask, check, Run}
use srv.Launch.{
  place_of, absent, check_receipt, scan, active_receipt, write_receipt, read_receipt, lookup,
  Runner, is_complete, Attempt, StartRequest,
}
use srv.Base.{refl, ◌⊎◌, false, true, ◌∷◌, ◌≡◌, [], ◌+◌, ◌≤◌, List, String}

-- stands for the digest of a text
abbrev plain : String → String
plain s = s

abbrev first_start : Attempt
first_start = record { name = "a"; instance_id = "i"; request_id = "r"; host_boot_id = "b" }

abbrev start_request : StartRequest
start_request = record { attempted = first_start; payload = "p"; config = "c" }

-- a host with no receipt, whose calls all succeed
abbrev empty_run : Run Runner
empty_run = record { state = record { files = []; boot = "b"; launches = [] }; answers = [] }

-- the same request ID under another name
abbrev other_request : StartRequest
other_request = record start_request { attempted = record first_start { name = "b" } }

abbrev three_starts : List Call
three_starts = start start_request ∷ start other_request ∷ reboot "d" ∷ start start_request ∷ []

launched_once_example :
    (launched "a" "r" (perform plain three_starts empty_run).state
      ≤ launched "a" "r" empty_run.state + 1)
    × ((stored (place_of plain "a" "r") empty_run.state.files ≡ false)
        ⊎ (launched "a" "r" (perform plain three_starts empty_run).state
            ≤ launched "a" "r" empty_run.state))
launched_once_example = launched_once plain "a" "r" three_starts empty_run

resolved_absent : (resolve_start plain first_start empty_run).0 ≡ done absent
unfolding resolve_start is_complete valid_name srv.Effect.◌>>=◌ check ask read write attempt
    read_receipt write_receipt result_locked name_vacant active_receipt scan no_live_runtime
    check_receipt
resolved_absent = refl

absent_for_good_example :
    let end = (perform plain three_starts (resolve_start plain first_start empty_run).1).state in
    (is_closed (lookup (place_of plain "a" "r") end.files) ≡ true)
    × (launched "a" "r" end ≤ launched "a" "r" (resolve_start plain first_start empty_run).1.state)
absent_for_good_example = absent_for_good plain first_start three_starts empty_run resolved_absent
