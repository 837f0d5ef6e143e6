-- ===== src/Rescan.antt =====
-- The rescan manager (rescan.go): jobs, the batches that they wait in, and jobHandler as a function
-- of the events that its select statement receives.
pub mod Batch
pub mod Served
pub mod Exclusion
pub mod Channels
use btcwallet.Prelude.{
  ℕ, ◌+◌, Bool, true, false, ◌||◌, Option, none, some, List, [], ◌∷◌, ◌++◌, map, if◌then◌else◌,
}
use btcwallet.Prelude.Int.{ℤ, eqb_ℤ, ltb_ℤ, minus_one}
use btcwallet.Prelude.Map.{Map, lookup, insert, nat_eq}
use btcwallet.TxStore.Types.{OutPoint, out_point_eq}

-- A *Account, of which only the identity counts here.
abbrev pub AccountRef : Type 0
AccountRef = ℕ

-- A channel that is made in the handler, by the order of making.
abbrev pub Channel : Type 0
Channel = ℕ

-- A btcutil.Address.
abbrev pub Address : Type 0
Address = List ℕ

abbrev pub Addresses : Type 0
Addresses = Map AccountRef (List Address)

pub record RescanJob : Type 0 where
  pub addresses : Addresses
  pub out_points : List OutPoint
  pub start_height : ℤ

pub record RescanBatch : Type 0 where
  pub addrs : Addresses
  pub outpoints : Map OutPoint (Unit {0})
  pub height : ℤ
  pub complete : Channel

-- `newRescanBatch`
unfoldable pub new_rescan_batch : Channel → RescanBatch
new_rescan_batch c = record { addrs = []; outpoints = []; height = minus_one; complete = c }

-- `len(m) == 0`
abbrev pub no_accounts : Addresses → Bool
no_accounts [] = true
no_accounts (_ ∷ _) = false

-- `rescanBatch.empty`
abbrev pub empty : RescanBatch → Bool
empty b = no_accounts b.addrs

abbrev pub keys {ℓ κ} : {K : Type ℓ} {V : Type κ} → Map K V → List K
keys [] = []
keys ((k, v) ∷ m) = k ∷ keys m

-- `rescanBatch.job`
unfoldable pub batch_job : RescanBatch → RescanJob
batch_job b = record { addresses = b.addrs; out_points = keys b.outpoints; start_height = b.height }

-- `m[acct]`, where a missing key gives the nil slice.
abbrev pub addresses_at : AccountRef → Addresses → List Address
addresses_at acct m = elim (lookup acct m) [ none ↦ [] | some xs ↦ xs ]

-- The first loop of `rescanBatch.merge` and of `RescanJob.Merge`.
unfoldable pub merge_addresses : Addresses → Addresses → Addresses
merge_addresses m [] = m
merge_addresses m ((acct, xs) ∷ rest) =
    merge_addresses (insert acct (addresses_at acct m ++ xs) m) rest

-- The second loop of `rescanBatch.merge`.
unfoldable pub merge_outpoints : Map OutPoint (Unit {0}) → List OutPoint → Map OutPoint (Unit {0})
merge_outpoints m [] = m
merge_outpoints m (op ∷ ops) = merge_outpoints (insert op tt m) ops

-- `rescanBatch.merge`
unfoldable pub merge : RescanBatch → RescanJob → RescanBatch
merge b job = record b {
  addrs = merge_addresses b.addrs job.addresses;
  outpoints = merge_outpoints b.outpoints job.out_points;
  height =
      if eqb_ℤ b.height minus_one || ltb_ℤ job.start_height b.height
      then job.start_height
      else b.height;
}

-- `RescanJob.Merge`
unfoldable pub merge_job : RescanJob → RescanJob → RescanJob
merge_job j k = record j {
  addresses = merge_addresses j.addresses k.addresses;
  out_points = j.out_points ++ k.out_points;
  start_height = if ltb_ℤ k.start_height j.start_height then k.start_height else j.start_height;
}

-- RescanMsg
pub data RescanMsg : Type 0 where
  started : RescanJob → RescanMsg
  progressed : Addresses → ℤ → RescanMsg
  finished_with : Addresses → Option ℕ → RescanMsg

-- What `jobHandler` receives: a job, or one of the two messages of the status channel. An error of
-- a rescan is a number.
pub data Event : Type 0 where
  add_job : RescanJob → Event
  rescan_progress : ℤ → Event
  rescan_finished : Option ℕ → Event

-- What `jobHandler` does to its channels: a job sent to the RPC handler, the channel handed to the
-- submitter, a message to the listener, and a channel closed.
pub data Output : Type 0 where
  sent : RescanJob → Output
  gave : Channel → Output
  notified : RescanMsg → Output
  closed : Channel → Output

-- The variables of `jobHandler`, with the number of channels made so far.
pub record Handler : Type 0 where
  pub cur_batch : RescanBatch
  pub next_batch : RescanBatch
  pub made : ℕ

unfoldable pub new_handler : Handler
unfolding new_rescan_batch
new_handler = record { cur_batch = new_rescan_batch 0; next_batch = new_rescan_batch 1; made = 2 }

-- `if m.msgs != nil { m.msgs <- msg }`
abbrev pub notify : Bool → RescanMsg → List Output
notify listening msg = if listening then notified msg ∷ [] else []

-- `case job := <-m.addJob`
unfoldable pub handle_job : Bool → RescanJob → Handler → Handler × List Output
handle_job listening job h =
    if empty h.cur_batch
    then (
      record h { cur_batch = merge h.cur_batch job },
      sent job ∷ gave h.cur_batch.complete ∷ notify listening (started job),
    )
    else (record h { next_batch = merge h.next_batch job }, gave h.next_batch.complete ∷ [])

-- `case rescanFinished`
unfoldable pub handle_finished : Bool → Option ℕ → Handler → Handler × List Output
handle_finished listening error h =
    let job = batch_job h.next_batch in
    (
      record { cur_batch = h.next_batch; next_batch = new_rescan_batch h.made; made = h.made + 1 },
      notify listening (finished_with h.cur_batch.addrs error)
          ++ (closed h.cur_batch.complete
              ∷ (if empty h.next_batch then [] else sent job ∷ notify listening (started job))),
    )

-- One round of the loop of `jobHandler`.
unfoldable pub handle : Bool → Event → Handler → Handler × List Output
handle listening (add_job job) h = handle_job listening job h
handle listening (rescan_progress height) h =
    (h, notify listening (progressed h.cur_batch.addrs height))
handle listening (rescan_finished error) h = handle_finished listening error h

-- The loop, until the quit channel is closed.
unfoldable pub run : Bool → List Event → Handler → Handler × List Output
run listening [] h = (h, [])
run listening (e ∷ es) h =
    let (h', now) = handle listening e h in
    let (last, later) = run listening es h' in (last, now ++ later)

-- What the loop of `rpcHandler` does with a job: it sends the request and goes on, reports a failed
-- request and goes on, or reports that there is no client and returns.
pub data RpcOutcome : Type 0 where
  requested : RpcOutcome
  request_failed no_client : ℕ → RpcOutcome

-- `append(addrs, accountAddrs...)` over the accounts of a job.
unfoldable pub all_addresses : Addresses → List Address
all_addresses [] = []
all_addresses ((acct, xs) ∷ rest) = xs ++ all_addresses rest

-- The body of the loop of `rpcHandler`; `no_access` is the error of accessClient, and `rescan` the
-- client's call.
unfoldable pub handle_rpc :
    Option ℕ → (ℤ → List Address → List OutPoint → Option ℕ) → RescanJob → RpcOutcome
handle_rpc (some e) rescan job = no_client e
handle_rpc none rescan job =
    elim (rescan job.start_height (all_addresses job.addresses) job.out_points) [
      | none ↦ requested
      | some e ↦ request_failed e
    ]
