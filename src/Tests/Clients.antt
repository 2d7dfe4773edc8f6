-- ===== src/Tests/Clients.antt =====
-- The entry point of the library, the ports of a prediction and the node of the table on small inputs.
use three_pillars_voip.Base.{
  ◌+◌, ◌-◌, ◌≡◌, ◌≤◌, refl, true, none, some, List, [], ◌∷◌, arith, leb, if◌then◌else◌,
}
use three_pillars_voip.Client.Facade
use three_pillars_voip.Client.Facade.{
  call_op, hangup_op, accept_op, shutdown_op, init_op, no_active_call, accept, reject, mute, unmute,
  Op,
}
use three_pillars_voip.Client.Facade.Calls.{run, calls, shutdowns, run-unanswered, calls-shutdowns}
use three_pillars_voip.Client.PortProber.{
  probed_ports, consecutive, smaller, u16_mod, probed_ports_lem,
}
use three_pillars_voip.Core.Config.{VoipConfig}
use three_pillars_voip.Core.Config
use three_pillars_voip.Dht.Node
use three_pillars_voip.Dht.Node.{
  Queries, no_queries, event_loop, put_record, get_record, get_progressed, put_progressed,
  waiting_for, insert, handle_event,
}
use three_pillars_voip.Dht.Node.Answered.{asked, answers, waiting, event_loop-answers}

abbrev evening : List Op
evening =
    init_op
    ∷ call_op "bob"
    ∷ hangup_op
    ∷ call_op "carol"
    ∷ shutdown_op
    ∷ call_op "carol"
    ∷ accept_op
    ∷ []

calls-shutdowns_example : calls evening (Facade.new Config.default) ≤ 1 + shutdowns evening
calls-shutdowns_example = calls-shutdowns Config.default evening

run-unanswered_example :
    let c = run evening (Facade.new Config.default) in
    ((accept c ≡ (c, no_active_call)) × (reject c ≡ (c, no_active_call)))
    × ((mute c ≡ (c, no_active_call)) × (unmute c ≡ (c, no_active_call)))
run-unanswered_example = run-unanswered Config.default evening

-- The last ports are never tried, though all of them are predicted.
probed_ports_lem_example :
    probed_ports 65525 65535 Config.default
    ≡ (if leb (65525 + 17) u16_mod then consecutive (smaller (65535 + 1 - 65525) 17) 65525 else [])
probed_ports_lem_example =
    probed_ports_lem 65525 65535 Config.default (omega arith) (omega arith) (omega arith)
      (omega arith)

abbrev events : List Node.Event
events =
    get_record 1 10
    ∷ put_record (some 2) 11
    ∷ put_record none 10
    ∷ get_progressed 1 (Node.found_record (7 ∷ []))
    ∷ put_progressed 9 true
    ∷ []

event_loop-answers_example :
    asked 10 events + waiting 10 no_queries
    ≡ answers 10 (event_loop events no_queries).1 + waiting 10 (event_loop events no_queries).0
unfolding waiting_for insert handle_event
event_loop-answers_example =
    event_loop-answers 10 events no_queries (refl, (refl, (tt, (tt, (tt, tt)))))
