-- ===== src/Client/Moq/Session/Reports.antt =====
-- The quality reports of a session, crates/voip-client/src/moq.rs.
use three_pillars_voip.Base.{◌≡◌, refl, List, [], ◌∷◌, inl, inr, Bool-cases, ◌==◌}
use three_pillars_voip.Client.Moq.Datagram.{MoqDatagram}
use three_pillars_voip.Client.Moq.Control.{QualityReport}
use three_pillars_voip.Client.Moq.Session.{MoqSession, recorded, record_received_datagram}

abbrev pub NoneLost : List QualityReport → Type 0
NoneLost [] = Unit {0}
NoneLost (r ∷ rs) = (r.lost ≡ 0) × NoneLost rs

recorded-NoneLost :
    (d : MoqDatagram) (rs : List QualityReport) → NoneLost rs → NoneLost (recorded d rs)
unfolding recorded
recorded-NoneLost d [] h = (refl, tt)
recorded-NoneLost d (r ∷ rs) h = elim (Bool-cases (r.track_alias == d.track_alias)) [
  | inl e ↦ rw e h
  | inr e ↦ rw e (h.0, recorded-NoneLost d rs h.1)
]

abbrev pub record_all : List MoqDatagram → MoqSession → MoqSession
record_all [] s = s
record_all (d ∷ ds) s = record_all ds (record_received_datagram d s)

-- However many sequence numbers are missing among the datagrams that are recorded, no report ever counts
-- a lost one, if none did before.
pub record_all-NoneLost :
    (ds : List MoqDatagram) (s : MoqSession)
    → NoneLost s.quality_reports
    → NoneLost (record_all ds s).quality_reports
unfolding record_received_datagram
record_all-NoneLost [] s h = h
record_all-NoneLost (d ∷ ds) s h =
    record_all-NoneLost ds (record_received_datagram d s) (recorded-NoneLost d s.quality_reports h)
