-- ===== src/Transport/Timer/Refine.antt =====
-- src/transport/timer.rs: every call but `due` is an operation on the armed timers.
use pylon.Prelude.{ℕ, ◌≡◌, refl, Bool, true, false, Option, none, some, arith, nat_eq, nat_beq_iff}
use pylon.Maps.Assoc.{lookup, lookup-insert, lookup-remove}
use pylon.Transport.Timer.{
  TimerWheel, Timer, slot_eq, ConnId, Kind, idle, pong, lifetime, handshake, scrub_timer, schedule,
  clear_liveness,
}
use pylon.Transport.Timer.Valid.{
  Armed, armed, Implements, disarm, arm, scrub-Implements, push-Implements, ext-Implements,
}

abbrev pub is_liveness : Kind → Bool
is_liveness idle = true
is_liveness pong = true
is_liveness lifetime = false
is_liveness handshake = false

-- A consistent wheel that was advanced up to `bound`.
pub record IsWheel (bound : ℕ) (w : TimerWheel) : Type 0 where
  pub implements : Implements bound (armed w) w.timeline
  pub liveness : (c : ConnId) (t : Timer) → lookup c w.live ≡ some t → is_liveness t.kind ≡ true

abbrev pub Same : Armed → Armed → Type 0
Same a b = (c : ConnId) (k : Kind) → a c k ≡ b c k

-- Both timers of a connection's liveness.
abbrev pub disarm_live : ConnId → Armed → Armed
disarm_live c a = disarm c pong (disarm c idle a)

clear_liveness-armed :
    (bound : ℕ) (c : ConnId) (w : TimerWheel)
    → Same (armed (clear_liveness c w)) (disarm_live c (armed w))
unfolding clear_liveness
clear_liveness-armed bound c w c' idle =
    ground (arith, lookup-remove c c' w.live, nat_beq_iff c c', nat_beq_iff c' c)
clear_liveness-armed bound c w c' pong =
    ground (arith, lookup-remove c c' w.live, nat_beq_iff c c', nat_beq_iff c' c)
clear_liveness-armed bound c w c' lifetime = ground arith
clear_liveness-armed bound c w c' handshake = ground arith

disarm_live_noop :
    (c : ConnId) (w : TimerWheel)
    → lookup c w.live ≡ none
    → Same (disarm_live c (armed w)) (armed w)
disarm_live_noop c w e c' idle = ground (arith, nat_beq_iff c' c)
disarm_live_noop c w e c' pong = ground (arith, nat_beq_iff c' c)
disarm_live_noop c w e c' lifetime = ground arith
disarm_live_noop c w e c' handshake = ground arith

armed_current :
    (c : ConnId) (w : TimerWheel) (t : Timer) (k : Kind)
    → lookup c w.live ≡ some t
    → t.kind ≡ k
    → is_liveness k ≡ true
    → armed w c k ≡ some t.deadline_ms
armed_current c w t idle e p l = ground arith
armed_current c w t pong e p l = ground arith
armed_current c w t lifetime e p l = cc
armed_current c w t handshake e p l = cc

disarm_live_current :
    (c : ConnId) (w : TimerWheel) (t : Timer)
    → lookup c w.live ≡ some t
    → is_liveness t.kind ≡ true
    → Same (disarm_live c (armed w)) (disarm c t.kind (armed w))
disarm_live_current c w t e l c' idle = ground (arith, nat_beq_iff c' c)
disarm_live_current c w t e l c' pong = ground (arith, nat_beq_iff c' c)
disarm_live_current c w t e l c' lifetime = ground arith
disarm_live_current c w t e l c' handshake = ground arith

scrub_timer-Implements :
    (bound : ℕ) (c : ConnId) (o : Option Timer) (w : TimerWheel)
    → IsWheel bound w
    → lookup c w.live ≡ o
    → Implements bound (disarm_live c (armed w)) (scrub_timer c o w.timeline)
unfolding scrub_timer
scrub_timer-Implements bound c none w v e =
    ext-Implements bound (armed w) _ w.timeline v.implements (disarm_live_noop c w e)
scrub_timer-Implements bound c (some t) w v e =
    ext-Implements bound (disarm c t.kind (armed w)) _ _
      (scrub-Implements bound t.deadline_ms c t.kind (armed w) w.timeline v.implements
        (armed_current c w t t.kind e refl (v.liveness c t e)))
      (disarm_live_current c w t e (v.liveness c t e))

-- A call that implements an abstract operation, and keeps the wheel consistent.
abbrev pub Refines : ℕ → Armed → TimerWheel → Type 0
Refines bound a w = IsWheel bound w × Same (armed w) a

pub clear_liveness-Refines :
    (bound : ℕ) (c : ConnId) (w : TimerWheel)
    → IsWheel bound w
    → Refines bound (disarm_live c (armed w)) (clear_liveness c w)
unfolding clear_liveness
clear_liveness-Refines bound c w v = (
  record {
    implements =
        ext-Implements bound (disarm_live c (armed w)) _ _
          (scrub_timer-Implements bound c (lookup c w.live) w v refl)
          (clear_liveness-armed bound c w);
    liveness = λ c' t e. ground (arith, lookup-remove c c' w.live, v.liveness c' t);
  },
  clear_liveness-armed bound c w,
)

schedule-armed :
    (c : ConnId) (d : ℕ) (k : Kind) (w : TimerWheel)
    → is_liveness k ≡ true
    → Same (armed (schedule c d k w)) (arm c k d (disarm_live c (armed w)))
unfolding schedule
schedule-armed c d k w l c' idle = ground (
  arith,
  lookup-insert c c' (record { deadline_ms = d; kind = k }) w.live,
  nat_beq_iff c c',
  nat_beq_iff c' c,
)
schedule-armed c d k w l c' pong = ground (
  arith,
  lookup-insert c c' (record { deadline_ms = d; kind = k }) w.live,
  nat_beq_iff c c',
  nat_beq_iff c' c,
)
schedule-armed c d k w l c' lifetime = ground arith
schedule-armed c d k w l c' handshake = ground arith

disarmed_live :
    (c : ConnId) (k : Kind) (a : Armed) → is_liveness k ≡ true → disarm_live c a c k ≡ none
disarmed_live c k a l = ground (arith, nat_beq_iff c c)

pub schedule-Refines :
    (bound : ℕ) (c : ConnId) (d : ℕ) (k : Kind) (w : TimerWheel)
    → is_liveness k ≡ true
    → IsWheel bound w
    → Refines bound (arm c k d (disarm_live c (armed w))) (schedule c d k w)
unfolding schedule
schedule-Refines bound c d k w l v = (
  record {
    implements =
        ext-Implements bound (arm c k d (disarm_live c (armed w))) _ _
          (push-Implements bound d c k (disarm_live c (armed w)) _
            (scrub_timer-Implements bound c (lookup c w.live) w v refl)
            (disarmed_live c k (armed w) l))
          (schedule-armed c d k w l);
    liveness = λ c' t e.
        ground (
          arith,
          lookup-insert c c' (record { deadline_ms = d; kind = k }) w.live,
          v.liveness c' t,
        );
  },
  schedule-armed c d k w l,
)
