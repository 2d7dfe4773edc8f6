-- ===== src/Dht/Node.antt =====
-- The event loop of the node, crates/voip-dht/src/node.rs. Kademlia is libp2p's: the number of the
-- query that it starts, or its refusal, comes with the command. A caller is the number of its channel;
-- the texts of errors are left out. The listener's and connection events only log.
pub mod Answered
use three_pillars_voip.Base.{
  ℕ, Bool, true, false, Option, none, some, List, [], ◌∷◌, ◌++◌, ◌==◌, if◌then◌else◌,
}

-- What a caller is sent.
pub data Answer : Type 0 where
  stored store_failed : Answer
  record_found : List ℕ → Answer
  not_found lookup_failed : Answer
  bootstrapped bootstrap_failed : Answer

-- The callers of one kind by the numbers of their queries. Inserting drops the caller that was there.
abbrev pub Pending : Type 0
Pending = List (ℕ × ℕ)

unfoldable pub insert : ℕ → ℕ → Pending → Pending
insert id caller [] = (id, caller) ∷ []
insert id caller ((i, c) ∷ rest) =
    let rest' = insert id caller rest in if i == id then (id, caller) ∷ rest else (i, c) ∷ rest'

unfoldable pub waiting_for : ℕ → Pending → Option ℕ
waiting_for id [] = none
waiting_for id ((i, c) ∷ rest) =
    let found = waiting_for id rest in if i == id then some c else found

unfoldable pub remove : ℕ → Pending → Pending
remove id [] = []
remove id ((i, c) ∷ rest) = let rest' = remove id rest in if i == id then rest else (i, c) ∷ rest'

pub record Queries : Type 0 where
  pub pending_put : Pending
  pub pending_get : Pending
  pub pending_bootstrap : Pending

-- How a lookup progressed: a record, the end without another one, or an error.
pub data GetResult : Type 0 where
  found_record : (value : List ℕ) → GetResult
  finished_with_no_additional_record failed : GetResult

abbrev lookup_answer : GetResult → Answer
lookup_answer (found_record value) = record_found value
lookup_answer finished_with_no_additional_record = not_found
lookup_answer failed = lookup_failed

-- A command from the public functions, with what Kademlia makes of it, or the end of a query.
pub data Event : Type 0 where
  put_record bootstrap : (started : Option ℕ) → (respond_to : ℕ) → Event
  get_record : (started respond_to : ℕ) → Event
  add_bootstrap_node : Event
  put_progressed bootstrap_progressed : (id : ℕ) → (ok : Bool) → Event
  get_progressed : (id : ℕ) → GetResult → Event
  other : Event

abbrev pub Sent : Type 0
Sent = List (ℕ × Answer)

-- The answer of a query that ended, if a caller waits for it.
abbrev pub respond : Option ℕ → Answer → Sent
respond none answer = []
respond (some caller) answer = (caller, answer) ∷ []

unfoldable pub handle_event : Event → Queries → Queries × Sent
handle_event (put_record (some id) caller) q =
    (record q { pending_put = insert id caller q.pending_put }, [])
handle_event (put_record none caller) q = (q, (caller, store_failed) ∷ [])
handle_event (get_record id caller) q =
    (record q { pending_get = insert id caller q.pending_get }, [])
handle_event (bootstrap (some id) caller) q =
    (record q { pending_bootstrap = insert id caller q.pending_bootstrap }, [])
handle_event (bootstrap none caller) q = (q, (caller, bootstrap_failed) ∷ [])
handle_event add_bootstrap_node q = (q, [])
handle_event (put_progressed id ok) q = (
  record q { pending_put = remove id q.pending_put },
  respond (waiting_for id q.pending_put) (if ok then stored else store_failed),
)
handle_event (get_progressed id result) q = (
  record q { pending_get = remove id q.pending_get },
  respond (waiting_for id q.pending_get) (lookup_answer result),
)
handle_event (bootstrap_progressed id ok) q = (
  record q { pending_bootstrap = remove id q.pending_bootstrap },
  respond (waiting_for id q.pending_bootstrap) (if ok then bootstrapped else bootstrap_failed),
)
handle_event other q = (q, [])

-- Until the node shuts down: the queries that are left, and all that was sent.
unfoldable pub event_loop : List Event → Queries → Queries × Sent
event_loop [] q = (q, [])
event_loop (e ∷ es) q =
    let (q', sent) = handle_event e q in let (q'', rest) = event_loop es q' in (q'', sent ++ rest)

abbrev pub no_queries : Queries
no_queries = record { pending_put = []; pending_get = []; pending_bootstrap = [] }
