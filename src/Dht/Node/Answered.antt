-- ===== src/Dht/Node/Answered.antt =====
-- Who is answered, crates/voip-dht/src/node.rs.
use three_pillars_voip.Base.{
  ℕ, ◌+◌, ◌≡◌, refl, none, some, List, [], ◌∷◌, ◌++◌, ◌==◌, if◌then◌else◌, arith, Bool-cases, inl,
  inr,
}
use three_pillars_voip.Dht.Node.{
  Pending, insert, waiting_for, remove, Queries, Event, put_record, bootstrap, get_record,
  add_bootstrap_node, put_progressed, bootstrap_progressed, get_progressed, other, Sent, respond,
  handle_event, event_loop, Answer,
}

-- One for the caller itself.
abbrev one : ℕ → ℕ → ℕ
one caller c = if c == caller then 1 else 0

unfoldable pub count : ℕ → Pending → ℕ
count caller [] = 0
count caller ((i, c) ∷ rest) = one caller c + count caller rest

unfoldable pub answers : ℕ → Sent → ℕ
answers caller [] = 0
answers caller ((c, a) ∷ rest) = one caller c + answers caller rest

-- The queries for which a caller waits.
abbrev pub waiting : ℕ → Queries → ℕ
waiting caller q =
    count caller q.pending_put + count caller q.pending_get + count caller q.pending_bootstrap

abbrev asked_by : ℕ → Event → ℕ
asked_by caller (put_record started c) = one caller c
asked_by caller (bootstrap started c) = one caller c
asked_by caller (get_record id c) = one caller c
asked_by caller _ = 0

-- The commands of a caller.
unfoldable pub asked : ℕ → List Event → ℕ
asked caller [] = 0
asked caller (e ∷ es) = asked_by caller e + asked caller es

-- Kademlia's promise: a query that it starts has a number for which no caller of that kind waits.
abbrev pub IsFresh : Event → Queries → Type 0
IsFresh (put_record (some id) c) q = waiting_for id q.pending_put ≡ none
IsFresh (bootstrap (some id) c) q = waiting_for id q.pending_bootstrap ≡ none
IsFresh (get_record id c) q = waiting_for id q.pending_get ≡ none
IsFresh _ q = Unit

abbrev pub AllFresh : List Event → Queries → Type 0
AllFresh [] q = Unit {0}
AllFresh (e ∷ es) q = IsFresh e q × AllFresh es (handle_event e q).0

count-insert :
    (caller id c : ℕ) (m : Pending)
    → waiting_for id m ≡ none
    → count caller (insert id c m) ≡ one caller c + count caller m
unfolding count insert waiting_for
count-insert caller id c [] h = refl
count-insert caller id c ((i, d) ∷ m) h = ground (arith, count-insert caller id c m)

answers-++ :
    (caller : ℕ) (xs ys : Sent) → answers caller (xs ++ ys) ≡ answers caller xs + answers caller ys
unfolding answers
answers-++ caller [] ys = omega arith
answers-++ caller ((c, a) ∷ xs) ys = omega (arith, answers-++ caller xs ys)

-- A query that ends takes its caller off, who is sent its answer.
count-remove :
    (caller id : ℕ) (a : Answer) (m : Pending)
    → count caller m ≡ answers caller (respond (waiting_for id m) a) + count caller (remove id m)
unfolding count remove waiting_for answers
count-remove caller id a [] = refl
count-remove caller id a ((i, d) ∷ m) = elim (Bool-cases (i == id)) [
  | inl c ↦ rw c (omega arith)
  | inr c ↦ rw c (omega (arith, count-remove caller id a m))
]

handle_event-answers :
    (caller : ℕ) (e : Event) (q : Queries)
    → IsFresh e q
    → let (q', sent) = handle_event e q in
      asked_by caller e + waiting caller q ≡ answers caller sent + waiting caller q'
unfolding handle_event answers
handle_event-answers caller (put_record (some id) c) q h =
    omega (arith, count-insert caller id c q.pending_put h)
handle_event-answers caller (put_record none c) q h = omega arith
handle_event-answers caller (get_record id c) q h =
    omega (arith, count-insert caller id c q.pending_get h)
handle_event-answers caller (bootstrap (some id) c) q h =
    omega (arith, count-insert caller id c q.pending_bootstrap h)
handle_event-answers caller (bootstrap none c) q h = omega arith
handle_event-answers caller add_bootstrap_node q h = refl
handle_event-answers caller (put_progressed id ok) q h =
    omega (arith, count-remove caller id _ q.pending_put)
handle_event-answers caller (get_progressed id r) q h =
    omega (arith, count-remove caller id _ q.pending_get)
handle_event-answers caller (bootstrap_progressed id ok) q h =
    omega (arith, count-remove caller id _ q.pending_bootstrap)
handle_event-answers caller other q h = refl

-- No command is lost and none is answered twice: as often as a caller has asked, in whatever order
-- commands and the ends of queries came, it has been answered or still waits. Where Kademlia starts
-- no query under the number of one that is pending.
pub event_loop-answers :
    (caller : ℕ) (es : List Event) (q : Queries)
    → AllFresh es q
    → let (q', sent) = event_loop es q in
      asked caller es + waiting caller q ≡ answers caller sent + waiting caller q'
unfolding event_loop asked answers
event_loop-answers caller [] q h = refl
event_loop-answers caller (e ∷ es) q h =
    let (q', sent) = handle_event e q in
    let (q'', rest) = event_loop es q' in
    omega (
      arith,
      handle_event-answers caller e q h.0,
      event_loop-answers caller es q' h.1,
      answers-++ caller sent rest,
    )
