-- ===== src/Transport/Timer/Examples.antt =====
-- src/transport/timer.rs: the wheel at work.
use pylon.Prelude.{◌≡◌, refl, true, List, [], ◌∷◌, nat_eq, contains}
use pylon.Transport.Timer.{pong, close_4201, due}
use pylon.Transport.Timer.Expiry.{due_eq}
use pylon.Transport.Timer.Refine.{Refines}
use pylon.Transport.Timer.History.{
  Call, touched, ping_sent, removed, advanced, calls, effects, calls-Refines,
}
use pylon.Transport.Timer.Reports.{calls_report}

-- Connection 7 is silent since time 0 and was pinged; connection 9 came and went.
abbrev silent : List Call
silent = ping_sent 7 120000 ∷ advanced 120000 ∷ removed 9 ∷ touched 9 140000 ∷ touched 7 0 ∷ []

calls-Refines_example : Refines 120001 (effects 120 30 silent) (calls 120 30 silent)
calls-Refines_example = calls-Refines 120 30 silent refl

calls_report_example : contains (due 151000 (calls 120 30 silent)).0 (close_4201 7) ≡ true
calls_report_example = calls_report 120 30 silent refl 151000 refl 7 pong 150000 refl refl
