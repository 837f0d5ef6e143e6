-- ===== src/Rescan/Channels.antt =====
-- The channels that jobHandler closes (rescanBatch.done of rescan.go): Go panics where a channel is
-- closed twice.
use btcwallet.Prelude.{
  ℕ, suc, ◌≤◌, ◌<◌, ◌≡◌, refl, ap, Bool, true, false, List, [], ◌∷◌, ◌++◌, arith,
}
use btcwallet.Rescan.{
  Handler, Event, add_job, rescan_progress, rescan_finished, Output, sent, gave, notified, closed,
  Channel, merge, new_rescan_batch, handle_job, handle_finished, handle, run, new_handler,
}

abbrev pub closed_channels : List Output → List Channel
closed_channels [] = []
closed_channels (sent k ∷ outs) = closed_channels outs
closed_channels (gave c ∷ outs) = closed_channels outs
closed_channels (notified m ∷ outs) = closed_channels outs
closed_channels (closed c ∷ outs) = c ∷ closed_channels outs

-- Strictly ascending, from `n` on.
abbrev pub IsAscending : ℕ → List ℕ → Type 0
IsAscending n [] = Unit
IsAscending n (c ∷ cs) = (n ≤ c) × IsAscending (suc c) cs

record IsFresh (h : Handler) : Type 0 where
  cur_below : h.cur_batch.complete < h.next_batch.complete
  next_below : h.next_batch.complete < h.made

IsAscending-weaken : (m n : ℕ) (cs : List ℕ) → m ≤ n → IsAscending n cs → IsAscending m cs
IsAscending-weaken m n [] le h = h
IsAscending-weaken m n (c ∷ cs) le h = (omega arith, h.1)

closed_channels-append :
    (xs ys : List Output) → closed_channels (xs ++ ys) ≡ closed_channels xs ++ closed_channels ys
closed_channels-append [] ys = refl
closed_channels-append (sent k ∷ xs) ys = closed_channels-append xs ys
closed_channels-append (gave c ∷ xs) ys = closed_channels-append xs ys
closed_channels-append (notified m ∷ xs) ys = closed_channels-append xs ys
closed_channels-append (closed c ∷ xs) ys = ap (λ l. c ∷ l) (closed_channels-append xs ys)

-- The channels that one event closes.
abbrev closes : Event → Handler → List Channel
closes (add_job j) h = []
closes (rescan_progress z) h = []
closes (rescan_finished e) h = h.cur_batch.complete ∷ []

closed_channels-handle :
    (listening : Bool) (e : Event) (h : Handler)
    → closed_channels (handle listening e h).1 ≡ closes e h
unfolding handle handle_job handle_finished
closed_channels-handle true (add_job j) h = ground arith
closed_channels-handle false (add_job j) h = ground arith
closed_channels-handle true (rescan_progress z) h = refl
closed_channels-handle false (rescan_progress z) h = refl
closed_channels-handle true (rescan_finished e) h = ground arith
closed_channels-handle false (rescan_finished e) h = ground arith

-- The first channel that may be closed after an event.
abbrev first_open : Event → Handler → ℕ
first_open (add_job j) h = h.cur_batch.complete
first_open (rescan_progress z) h = h.cur_batch.complete
first_open (rescan_finished e) h = h.next_batch.complete

handle-IsFresh :
    (listening : Bool) (e : Event) (h : Handler)
    → IsFresh h
    → IsFresh (handle listening e h).0
      × ((handle listening e h).0.cur_batch.complete ≡ first_open e h)
unfolding handle handle_job handle_finished merge new_rescan_batch
handle-IsFresh listening (add_job j) h f = ground arith
handle-IsFresh listening (rescan_progress z) h f = (f, refl)
handle-IsFresh listening (rescan_finished e) h f = ground arith

IsAscending-step :
    (e : Event) (h : Handler) (later : List Channel)
    → IsFresh h
    → IsAscending (first_open e h) later
    → IsAscending h.cur_batch.complete (closes e h ++ later)
IsAscending-step (add_job j) h later f a = a
IsAscending-step (rescan_progress z) h later f a = a
IsAscending-step (rescan_finished e) h later f a =
    (omega arith, IsAscending-weaken _ h.next_batch.complete later f.cur_below a)

run-IsAscending :
    (listening : Bool) (es : List Event) (h : Handler)
    → IsFresh h
    → IsAscending h.cur_batch.complete (closed_channels (run listening es h).1)
unfolding run
run-IsAscending listening [] h f = tt
run-IsAscending listening (e ∷ es) h f =
    let (fresh, first) = handle-IsFresh listening e h f in
    let h' = (handle listening e h).0 in
    let later = run-IsAscending listening es h' fresh in
    rw
      (
        closed_channels-append (handle listening e h).1 (run listening es h').1,
        closed_channels-handle listening e h,
      )
      (IsAscending-step e h (closed_channels (run listening es h').1) f (rw first at later))

-- jobHandler closes no channel twice: the channels that it closes ascend in the order of making.
pub closed_once :
    (listening : Bool) (es : List Event)
    → IsAscending 0 (closed_channels (run listening es new_handler).1)
unfolding new_handler new_rescan_batch
closed_once listening es =
    run-IsAscending listening es new_handler
      (record { cur_below = omega arith; next_below = omega arith })
