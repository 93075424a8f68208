-- ===== src/Launch/Trace.antt =====
-- Sequences of the operations on the receipts of all names, with reboots of the host between them.
pub mod Once
pub mod Final
pub mod Absent
use srv.Launch.Stop.{receipt_stop}
use srv.Launch.Start.{resolve_start, receipt_start}
use srv.Effect.{Run}
use srv.Base.{[], ◌∷◌, List, String}
use srv.Launch.{Runner, StopRequest, Attempt, StartRequest}

pub data Call : Type 0 where
  start : StartRequest → Call
  resolve : Attempt → Call
  halt : StopRequest → Call
  reboot : String → Call

module _ (key : String → String) where
  unfoldable pub apply : Call → Run Runner → Run Runner
  apply (start q) run = (receipt_start key q run).1
  apply (resolve a) run = (resolve_start key a run).1
  apply (halt q) run = (receipt_stop key q run).1
  apply (reboot boot) run = record run { state = record run.state { boot = boot } }

  unfoldable pub perform : List Call → Run Runner → Run Runner
  unfolding apply
  perform [] run = run
  perform (c ∷ cs) run = perform cs (apply c run)
