-- ===== src/Rescan/Served.antt =====
-- No job is lost: what is submitted to the rescan manager is asked for in a rescan.
use btcwallet.Prelude.{
  ℕ, ◌≡◌, ◌⊎◌, refl, Bool, false, inl, inr, Option, List, [], ◌∷◌, ◌++◌, arith, All, Bool-cases,
}
use btcwallet.Prelude.Int.{ℤ, minus_one}
use btcwallet.Rescan.{
  RescanJob, RescanBatch, Handler, Event, add_job, rescan_progress, rescan_finished, Output, sent,
  gave, notified, closed, notify, empty, no_accounts, batch_job, new_rescan_batch, merge,
  handle_job, handle_finished, handle, run, new_handler,
}
use btcwallet.Rescan.Batch.{
  Includes, Includes-refl, IsHeight, merge-Includes, merge_keeps, merge_nonempty,
}

-- A job was sent to the RPC handler that asks for all that `j` asks for.
abbrev pub IsServed : RescanJob → List Output → Type 0
IsServed j [] = ⊥
IsServed j (sent k ∷ outs) = Includes k j ⊎ IsServed j outs
IsServed j (gave c ∷ outs) = IsServed j outs
IsServed j (notified m ∷ outs) = IsServed j outs
IsServed j (closed c ∷ outs) = IsServed j outs

-- The jobs have start heights that are not negative.
abbrev pub HasHeight : Event → Type 0
HasHeight (add_job j) = IsHeight j.start_height
HasHeight (rescan_progress h) = Unit
HasHeight (rescan_finished e) = Unit

-- The job waits in the next batch.
abbrev Waits : RescanJob → Handler → Type 0
Waits j h =
    (empty h.cur_batch ≡ false)
    × (empty h.next_batch ≡ false)
    × IsHeight h.next_batch.height
    × Includes (batch_job h.next_batch) j

IsServed-append_left : (j : RescanJob) (xs ys : List Output) → IsServed j xs → IsServed j (xs ++ ys)
IsServed-append_left j [] ys h = elim h [ ]
IsServed-append_left j (sent k ∷ xs) ys (inl h) = inl h
IsServed-append_left j (sent k ∷ xs) ys (inr h) = inr (IsServed-append_left j xs ys h)
IsServed-append_left j (gave c ∷ xs) ys h = IsServed-append_left j xs ys h
IsServed-append_left j (notified m ∷ xs) ys h = IsServed-append_left j xs ys h
IsServed-append_left j (closed c ∷ xs) ys h = IsServed-append_left j xs ys h

IsServed-append_right :
    (j : RescanJob) (xs ys : List Output) → IsServed j ys → IsServed j (xs ++ ys)
IsServed-append_right j [] ys h = h
IsServed-append_right j (sent k ∷ xs) ys h = inr (IsServed-append_right j xs ys h)
IsServed-append_right j (gave c ∷ xs) ys h = IsServed-append_right j xs ys h
IsServed-append_right j (notified m ∷ xs) ys h = IsServed-append_right j xs ys h
IsServed-append_right j (closed c ∷ xs) ys h = IsServed-append_right j xs ys h

-- The next batch is sent when the rescan of the current one has finished.
finished_serves :
    (listening : Bool) (error : Option ℕ) (j : RescanJob) (h : Handler)
    → Waits j h
    → IsServed j (handle_finished listening error h).1
unfolding handle_finished
finished_serves listening error j h (cur, next, height, inc) =
    rw next (IsServed-append_right j (notify listening _) _ (inl inc))

merge_height :
    (b : RescanBatch) (k : RescanJob)
    → IsHeight b.height
    → IsHeight k.start_height
    → IsHeight (merge b k).height
unfolding merge
merge_height b k hb hk = ground arith

job-Waits :
    (listening : Bool) (k j : RescanJob) (h : Handler)
    → IsHeight k.start_height
    → Waits j h
    → Waits j (handle_job listening k h).0
unfolding handle_job
job-Waits listening k j h hk (cur, next, height, inc) = rw cur (
  cur,
  merge_nonempty h.next_batch k (inl next),
  merge_height h.next_batch k height hk,
  merge_keeps h.next_batch k j height hk inc,
)

-- A job that waits is served by the first rescan that finishes.
waiting-IsServed :
    (listening : Bool) (error : Option ℕ) (j : RescanJob) (before after : List Event) (h : Handler)
    → All HasHeight before
    → Waits j h
    → IsServed j (run listening (before ++ (rescan_finished error ∷ after)) h).1
unfolding run handle
waiting-IsServed listening error j [] after h hs w =
    IsServed-append_left j (handle_finished listening error h).1 _
      (finished_serves listening error j h w)
waiting-IsServed listening error j (add_job k ∷ before) after h hs w =
    let later =
      waiting-IsServed listening error j before after (handle_job listening k h).0 hs.1
        (job-Waits listening k j h hs.0 w) in
    IsServed-append_right j (handle_job listening k h).1 _ later
waiting-IsServed listening error j (rescan_progress z ∷ before) after h hs w =
    let later = waiting-IsServed listening error j before after h hs.1 w in
    IsServed-append_right j (notify listening _) _ later
waiting-IsServed listening error j (rescan_finished e ∷ before) after h hs w =
    IsServed-append_left j (handle_finished listening e h).1 _ (finished_serves listening e j h w)

-- The height of a batch is -1 until a job is merged into it.
abbrev IsBatchHeight : ℤ → Type 0
IsBatchHeight z = (z ≡ minus_one) ⊎ IsHeight z

merged_height :
    (b : RescanBatch) (k : RescanJob)
    → IsBatchHeight b.height
    → IsHeight k.start_height
    → IsHeight (merge b k).height
unfolding merge
merged_height b k hb hk = ground arith

handle_height :
    (listening : Bool) (e : Event) (h : Handler)
    → HasHeight e
    → IsBatchHeight h.next_batch.height
    → IsBatchHeight (handle listening e h).0.next_batch.height
unfolding handle handle_job handle_finished new_rescan_batch
handle_height listening (add_job k) h hk hn = elim (Bool-cases (empty h.cur_batch)) [
  | inl idle ↦ rw idle hn
  | inr busy ↦ rw busy (inr (merged_height h.next_batch k hn hk))
]
handle_height listening (rescan_progress z) h hk hn = hn
handle_height listening (rescan_finished e) h hk hn = inl refl

-- A job is sent at once if no rescan runs, and waits otherwise.
submitted-IsServed :
    (listening : Bool) (error : Option ℕ) (j : RescanJob) (between after : List Event) (h : Handler)
    → All HasHeight between
    → IsHeight j.start_height
    → no_accounts j.addresses ≡ false
    → IsBatchHeight h.next_batch.height
    → IsServed j (run listening (add_job j ∷ (between ++ (rescan_finished error ∷ after))) h).1
unfolding run handle handle_job
submitted-IsServed listening error j between after h hs hj some_accounts hn =
    elim (Bool-cases (empty h.cur_batch)) [
      | inl idle ↦ rw idle (inl (Includes-refl j))
      | inr busy ↦ rw busy (
          waiting-IsServed listening error j between after
            (record h { next_batch = merge h.next_batch j }) hs
            (
              busy,
              merge_nonempty h.next_batch j (inr some_accounts),
              merged_height h.next_batch j hn hj,
              merge-Includes h.next_batch j hj,
            ))
    ]

job-IsServed_from :
    (listening : Bool) (error : Option ℕ) (j : RescanJob) (before between after : List Event)
    (h : Handler)
    → All HasHeight before
    → All HasHeight between
    → IsHeight j.start_height
    → no_accounts j.addresses ≡ false
    → IsBatchHeight h.next_batch.height
    → IsServed j
        (run listening (before ++ (add_job j ∷ (between ++ (rescan_finished error ∷ after)))) h).1
unfolding run
job-IsServed_from listening error j [] between after h hb hs hj some_accounts hn =
    submitted-IsServed listening error j between after h hs hj some_accounts hn
job-IsServed_from listening error j (e ∷ before) between after h hb hs hj some_accounts hn =
    IsServed-append_right j (handle listening e h).1 _ (
      job-IsServed_from listening error j before between after (handle listening e h).0 hb.1 hs hj
        some_accounts (handle_height listening e h hb.0 hn))

-- A submitted job with an account is asked for in a rescan at the latest when a rescan finishes:
-- some job that was sent has all its addresses and outpoints and starts no higher. The start
-- heights are not negative.
pub job-IsServed :
    (listening : Bool) (error : Option ℕ) (j : RescanJob) (before between after : List Event)
    → All HasHeight before
    → All HasHeight between
    → IsHeight j.start_height
    → no_accounts j.addresses ≡ false
    → IsServed j
        (run listening
          (before ++ (add_job j ∷ (between ++ (rescan_finished error ∷ after))))
          new_handler).1
unfolding new_handler new_rescan_batch
job-IsServed listening error j before between after hb hs hj some_accounts =
    job-IsServed_from listening error j before between after new_handler hb hs hj some_accounts
      (inl refl)
