-- ===== src/Client/SimultaneousOpen/Alone.antt =====
-- One side of a simultaneous open that fails alone, `try_simultaneous_open_full` of
-- crates/voip-client/src/connection.rs.
use three_pillars_voip.Base.{
  ◌≡◌, refl, ◌∙◌, Bool, true, false, Option, none, some, List, [], ◌∷◌, ◌++◌, arith, if◌then◌else◌,
}
use three_pillars_voip.Client.SimultaneousOpen.{
  Side, accept, connect, Turn, Opened, opened, failed, panic, other, ended_in, is_taken, select,
  open_from, try_simultaneous_open_full,
}

-- Neither task has ended.
abbrev pub AreIdle : List Turn → Type 0
AreIdle [] = Unit {0}
AreIdle (t ∷ turns) = (t.accepted ≡ none) × (t.connected ≡ none) × AreIdle turns

-- What the result of the other side, if it has one, leads to.
abbrev pub left_to : Side → Option Bool → Opened
left_to side none = panic
left_to side (some true) = opened side
left_to side (some false) = failed

open_from-append :
    (idle turns : List Turn) → AreIdle idle → open_from (idle ++ turns) none ≡ open_from turns none
unfolding open_from select
open_from-append [] turns h = refl
open_from-append (t ∷ idle) turns h = ground (arith, h, open_from-append idle turns h.2)

-- Where, after turns without a result, one side fails while the other has not finished, the loop
-- polls the handle of the failed side again and panics: unless, when it is next woken, it polls
-- the other side first and that one has ended. Then it ends as that one has.
pub try_simultaneous_open_full_alone :
    (idle turns : List Turn) (t u : Turn) (side : Side)
    → AreIdle idle
    → ended_in side t ≡ some false
    → ended_in (other side) t ≡ none
    → t.other_finished ≡ false
    → try_simultaneous_open_full (idle ++ (t ∷ u ∷ turns)) ≡ (
        if is_taken (some side) u.first
        then panic
        else left_to (other side) (ended_in (other side) u))
unfolding open_from select
try_simultaneous_open_full_alone idle turns t u accept h f n o =
    open_from-append idle (t ∷ u ∷ turns) h ∙ ground (arith, f, n, o)
try_simultaneous_open_full_alone idle turns t u connect h f n o =
    open_from-append idle (t ∷ u ∷ turns) h ∙ ground (arith, f, n, o)
