-- ===== src/Rescan/Exclusion.antt =====
-- One rescan at a time: a job is sent only when the one before it has finished.
use btcwallet.Prelude.{
  ℕ, suc, ◌+◌, ◌≤◌, ◌≡◌, Bool, true, false, inl, inr, List, [], ◌∷◌, ◌++◌, arith, All, Bool-cases,
  if◌then◌else◌,
}
use btcwallet.Rescan.{
  Handler, Event, add_job, rescan_progress, rescan_finished, Output, sent, gave, notified, closed,
  RescanMsg, notify, empty, no_accounts, new_rescan_batch, handle_job, handle_finished, handle, run,
  new_handler,
}
use btcwallet.Rescan.Batch.{merge_nonempty}

-- The number of jobs that were sent to the RPC handler.
abbrev pub jobs_sent : List Output → ℕ
jobs_sent [] = 0
jobs_sent (sent k ∷ outs) = suc (jobs_sent outs)
jobs_sent (gave c ∷ outs) = jobs_sent outs
jobs_sent (notified m ∷ outs) = jobs_sent outs
jobs_sent (closed c ∷ outs) = jobs_sent outs

abbrev ends : Event → ℕ
ends (add_job j) = 0
ends (rescan_progress h) = 0
ends (rescan_finished e) = 1

abbrev pub rescans_finished : List Event → ℕ
rescans_finished [] = 0
rescans_finished (e ∷ es) = ends e + rescans_finished es

-- A submitted job has an account.
abbrev pub HasAccount : Event → Type 0
HasAccount (add_job j) = no_accounts j.addresses ≡ false
HasAccount (rescan_progress h) = Unit
HasAccount (rescan_finished e) = Unit

jobs_sent-append : (xs ys : List Output) → jobs_sent (xs ++ ys) ≡ jobs_sent xs + jobs_sent ys
jobs_sent-append [] ys = omega arith
jobs_sent-append (sent k ∷ xs) ys = omega (arith, jobs_sent-append xs ys)
jobs_sent-append (gave c ∷ xs) ys = jobs_sent-append xs ys
jobs_sent-append (notified m ∷ xs) ys = jobs_sent-append xs ys
jobs_sent-append (closed c ∷ xs) ys = jobs_sent-append xs ys

jobs_sent-notify : (listening : Bool) (m : RescanMsg) → jobs_sent (notify listening m) ≡ 0
jobs_sent-notify true m = omega arith
jobs_sent-notify false m = omega arith

-- 1 if a job may be sent without waiting.
abbrev idle : Handler → ℕ
idle h = if empty h.cur_batch then 1 else 0

-- What one event sends is paid for by the end of a rescan, or by the handler's being idle.
jobs_sent-handle :
    (listening : Bool) (e : Event) (h : Handler)
    → HasAccount e
    → jobs_sent (handle listening e h).1 + idle (handle listening e h).0 ≤ ends e + idle h
unfolding handle handle_job handle_finished
jobs_sent-handle listening (add_job j) h some_accounts = elim (Bool-cases (empty h.cur_batch)) [
  | inl free ↦
      rw (free, merge_nonempty h.cur_batch j (inr some_accounts))
        (omega (arith, jobs_sent-notify listening _))
  | inr busy ↦ rw (busy, busy) (omega arith)
]
jobs_sent-handle listening (rescan_progress z) h some_accounts =
    omega (arith, jobs_sent-notify listening _)
jobs_sent-handle listening (rescan_finished e) h some_accounts =
    elim (Bool-cases (empty h.next_batch)) [
      | inl none_waits ↦
          rw (none_waits, jobs_sent-append (notify listening _) _)
            (omega (arith, jobs_sent-notify listening _))
      | inr waits ↦
          rw (waits, jobs_sent-append (notify listening _) _)
            (omega (arith, jobs_sent-notify listening _))
    ]

jobs_sent-run :
    (listening : Bool) (es : List Event) (h : Handler)
    → All HasAccount es
    → jobs_sent (run listening es h).1 ≤ rescans_finished es + idle h
unfolding run
jobs_sent-run listening [] h hs = omega arith
jobs_sent-run listening (e ∷ es) h hs = omega (
  arith,
  jobs_sent-append (handle listening e h).1 (run listening es (handle listening e h).0).1,
  jobs_sent-handle listening e h hs.0,
  jobs_sent-run listening es (handle listening e h).0 hs.1,
)

-- After any events at most one job more was sent than rescans have finished, if every submitted
-- job has an account.
pub one_rescan_at_a_time :
    (listening : Bool) (es : List Event)
    → All HasAccount es
    → jobs_sent (run listening es new_handler).1 ≤ rescans_finished es + 1
unfolding new_handler new_rescan_batch
one_rescan_at_a_time listening es hs = jobs_sent-run listening es new_handler hs
