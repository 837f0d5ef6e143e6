-- ===== src/Tests/Rescan.antt =====
-- The rescan manager at concrete jobs.
use btcwallet.Prelude.{◌+◌, ◌≤◌, ◌≡◌, refl, true, false, none, List, [], ◌∷◌, ◌++◌, arith}
use btcwallet.Prelude.Int.{pos}
use btcwallet.Prelude.Map.{lookup, insert}
use btcwallet.TxStore.Types.{OutPoint}
use btcwallet.Rescan.{
  RescanJob, Event, add_job, rescan_progress, rescan_finished, run, new_handler, handle_rpc,
  requested, merge_job, handle, handle_job, handle_finished, merge, merge_addresses, batch_job,
  new_rescan_batch,
}
use btcwallet.Rescan.Served.{IsServed, job-IsServed}
use btcwallet.Rescan.Exclusion.{jobs_sent, rescans_finished, one_rescan_at_a_time}
use btcwallet.Rescan.Channels.{IsAscending, closed_channels, closed_once}

abbrev spent : OutPoint
spent = record { hash = 7; index = 0 }

abbrev first_job : RescanJob
first_job = record {
  addresses = (1, (b'a' ∷ []) ∷ []) ∷ [];
  out_points = spent ∷ [];
  start_height = pos 300000;
}

abbrev second_job : RescanJob
second_job = record {
  addresses = (2, (b'b' ∷ []) ∷ []) ∷ [];
  out_points = [];
  start_height = pos 299990;
}

abbrev both_jobs : List Event
both_jobs = add_job first_job ∷ add_job second_job ∷ rescan_progress (pos 300001) ∷ []

job-IsServed_example :
    IsServed second_job
      (run true
        ((add_job first_job ∷ [])
          ++ (add_job second_job ∷ ((add_job first_job ∷ []) ++ (rescan_finished none ∷ []))))
        new_handler).1
job-IsServed_example =
    job-IsServed true none second_job (add_job first_job ∷ []) (add_job first_job ∷ []) []
      (omega arith, tt) (omega arith, tt) (omega arith) refl

one_rescan_at_a_time_example :
    jobs_sent (run true both_jobs new_handler).1 ≤ rescans_finished both_jobs + 1
one_rescan_at_a_time_example = one_rescan_at_a_time true both_jobs (refl, (refl, (tt, tt)))

closed_once_example : IsAscending 0 (
    closed_channels
      (run false
        (add_job first_job ∷ rescan_finished none ∷ rescan_finished none ∷ [])
        new_handler).1)
closed_once_example =
    closed_once false (add_job first_job ∷ rescan_finished none ∷ rescan_finished none ∷ [])

-- The waiting job is sent, with the channel that its submitter was given, when the first ends.
second_job_sent : jobs_sent (run true (both_jobs ++ (rescan_finished none ∷ [])) new_handler).1 ≡ 2
unfolding run handle handle_job handle_finished merge merge_addresses batch_job new_handler
    new_rescan_batch lookup insert
second_job_sent = refl

request_sent : handle_rpc none (λ h addrs ops. none) (merge_job first_job second_job) ≡ requested
unfolding handle_rpc
request_sent = refl
