-- ===== src/Transport/Timer/Reports.antt =====
-- src/transport/timer.rs: what `due` reports after any sequence of calls.
use pylon.Prelude.{ℕ, ◌≡◌, sym, ◌∙◌, true, false, some, List, nat_eq, ltb, leb, contains, Distinct}
use pylon.Transport.Timer.{ConnId, Kind, due, u64_max}
use pylon.Transport.Timer.Expiry.{event, due_eq}
use pylon.Transport.Timer.Advance.{due_reports, due_sound, due-Distinct}
use pylon.Transport.Timer.History.{Call, calls, effects, advanced_to, representable, calls-Refines}

module _ (activity_secs pong_secs : ℕ) (cs : List Call) (r : representable cs ≡ true) (now_ms : ℕ)
    (h : ltb now_ms u64_max ≡ true) where
  -- After any calls, the times of `due` being below the largest u64: a timer that the calls leave
  -- armed, for a time to which the wheel was not yet advanced, is reported by the next `due` exactly
  -- if its deadline is at most the time of that `due`.
  pub calls_report :
      (c : ConnId) (k : Kind) (d : ℕ)
      → effects activity_secs pong_secs cs c k ≡ some d
      → ltb d (advanced_to cs) ≡ false
      → contains (due now_ms (calls activity_secs pong_secs cs)).0 (event c k) ≡ leb d now_ms
  calls_report c k d e l =
      let run = calls-Refines activity_secs pong_secs cs r in
      due_reports (advanced_to cs) now_ms (calls activity_secs pong_secs cs) h c k d run.0
        (run.1 c k ∙ e) l

  -- After any calls, the times of `due` being below the largest u64: a timer that the next `due`
  -- reports is one that the calls leave armed, for a time that is at most that of the `due`.
  pub calls_sound :
      (c : ConnId) (k : Kind)
      → contains (due now_ms (calls activity_secs pong_secs cs)).0 (event c k) ≡ true
      → (d : ℕ) × (effects activity_secs pong_secs cs c k ≡ some d) × (leb d now_ms ≡ true)
  calls_sound c k p =
      let run = calls-Refines activity_secs pong_secs cs r in
      let (d, e, l) =
        due_sound (advanced_to cs) now_ms (calls activity_secs pong_secs cs) h c k run.0 p in
      (d, sym (run.1 c k) ∙ e, l)

  -- After any calls, the times of `due` being below the largest u64: the next `due` reports no timer
  -- twice.
  pub calls-Distinct : Distinct (due now_ms (calls activity_secs pong_secs cs)).0
  calls-Distinct =
      due-Distinct (advanced_to cs) now_ms (calls activity_secs pong_secs cs) h
        (calls-Refines activity_secs pong_secs cs r).0
