-- ===== src/Client/SimultaneousOpen.antt =====
-- `try_simultaneous_open_full` of crates/voip-client/src/connection.rs: a loop of `tokio::select!`
-- over the handles of two tasks, one that accepts a connection and one that makes one. What the
-- runtime shows the loop is a list of turns.
pub mod Alone
use three_pillars_voip.Base.{
  Bool, true, false, ◌||◌, Option, none, some, List, [], ◌∷◌, if◌then◌else◌,
}

pub data Side : Type 0 where
  accept : Side
  connect : Side

-- Each time the loop is woken: the handle that `select!` polls first, at random, what the two tasks
-- have ended in, `true` for a connection, and whether the other task is finished when the loop looks
-- after a failure.
pub record Turn : Type 0 where
  pub first : Side
  pub accepted : Option Bool
  pub connected : Option Bool
  pub other_finished : Bool

-- `unfinished` when the turns are over.
pub data Opened : Type 0 where
  opened : Side → Opened
  failed : Opened
  panic : Opened
  unfinished : Opened

pub data Polled : Type 0 where
  pending : Polled
  ready : Side → Bool → Polled
  polled_again : Polled

abbrev pub other : Side → Side
other accept = connect
other connect = accept

abbrev pub ended_in : Side → Turn → Option Bool
ended_in accept t = t.accepted
ended_in connect t = t.connected

abbrev pub is_taken : Option Side → Side → Bool
is_taken none side = false
is_taken (some accept) accept = true
is_taken (some accept) connect = false
is_taken (some connect) accept = false
is_taken (some connect) connect = true

abbrev polled : Side → Option Bool → Polled
polled side none = pending
polled side (some result) = ready side result

-- A handle whose result was taken is not to be polled again.
abbrev pub poll : Option Side → Turn → Side → Polled
poll taken t side = if is_taken taken side then polled_again else polled side (ended_in side t)

abbrev or_poll : Polled → Polled → Polled
or_poll pending second = second
or_poll (ready side result) second = ready side result
or_poll polled_again second = polled_again

unfoldable pub select : Option Side → Turn → Polled
select taken t = or_poll (poll taken t t.first) (poll taken t (other t.first))

-- A task whose result was taken is finished.
abbrev pub handle : Option Side → Turn → (Option Side → Opened) → Polled → Opened
handle taken t next pending = next taken
handle taken t next polled_again = panic
handle taken t next (ready side true) = opened side
handle taken t next (ready side false) =
    if is_taken taken (other side) || t.other_finished then failed else next (some side)

unfoldable pub open_from : List Turn → Option Side → Opened
unfolding select
open_from [] taken = unfinished
open_from (t ∷ turns) taken = handle taken t (open_from turns) (select taken t)

abbrev pub try_simultaneous_open_full : List Turn → Opened
try_simultaneous_open_full turns = open_from turns none
