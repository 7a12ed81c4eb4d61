-- ===== src/Transport/Timer/Arming.antt =====
-- src/transport/timer.rs: the lifetime and the handshake deadline of a connection, and its removal.
use pylon.Prelude.{
  ℕ, ◌≡◌, refl, Option, none, some, arith, nat_eq, nat_beq, nat_beq_iff, if◌then◌else◌,
}
use pylon.Maps.Assoc.{lookup, lookup-insert, lookup-remove}
use pylon.Transport.Timer.{
  TimerWheel, Timeline, slot_eq, ConnId, Kind, idle, pong, lifetime, handshake, scrub_deadline,
  arm_lifetime, arm_handshake, clear_handshake, clear_liveness, clear_lifetime, remove,
}
use pylon.Transport.Timer.Valid.{
  Armed, armed, Implements, disarm, arm, scrub-Implements, push-Implements, ext-Implements,
}
use pylon.Transport.Timer.Refine.{IsWheel, Same, disarm_live, Refines, clear_liveness-Refines}

disarm_noop : (c : ConnId) (k : Kind) (a : Armed) → a c k ≡ none → Same (disarm c k a) a
disarm_noop c idle a e c' k' = ground (arith, nat_beq_iff c' c)
disarm_noop c pong a e c' k' = ground (arith, nat_beq_iff c' c)
disarm_noop c lifetime a e c' k' = ground (arith, nat_beq_iff c' c)
disarm_noop c handshake a e c' k' = ground (arith, nat_beq_iff c' c)

scrub_deadline-Implements :
    (bound : ℕ) (c : ConnId) (k : Kind) (o : Option ℕ) (a : Armed) (t : Timeline)
    → Implements bound a t
    → a c k ≡ o
    → Implements bound (disarm c k a) (scrub_deadline c k o t)
unfolding scrub_deadline
scrub_deadline-Implements bound c k none a t v e =
    ext-Implements bound a _ t v (disarm_noop c k a e)
scrub_deadline-Implements bound c k (some d) a t v e = scrub-Implements bound d c k a t v e

disarm_same : (c : ConnId) (k : Kind) (a : Armed) → disarm c k a c k ≡ none
disarm_same c idle a = ground (arith, nat_beq_iff c c)
disarm_same c pong a = ground (arith, nat_beq_iff c c)
disarm_same c lifetime a = ground (arith, nat_beq_iff c c)
disarm_same c handshake a = ground (arith, nat_beq_iff c c)

arm_lifetime-armed :
    (c : ConnId) (d : ℕ) (w : TimerWheel)
    → Same (armed (arm_lifetime c d w)) (arm c lifetime d (disarm c lifetime (armed w)))
unfolding arm_lifetime
arm_lifetime-armed c d w c' idle = ground arith
arm_lifetime-armed c d w c' pong = ground arith
arm_lifetime-armed c d w c' lifetime =
    ground (arith, lookup-insert c c' d w.lifetimes, nat_beq_iff c c', nat_beq_iff c' c)
arm_lifetime-armed c d w c' handshake = ground arith

pub arm_lifetime-Refines :
    (bound : ℕ) (c : ConnId) (d : ℕ) (w : TimerWheel)
    → IsWheel bound w
    → Refines bound (arm c lifetime d (disarm c lifetime (armed w))) (arm_lifetime c d w)
unfolding arm_lifetime
arm_lifetime-Refines bound c d w v = (
  record {
    implements =
        ext-Implements bound _ _ _
          (push-Implements bound d c lifetime (disarm c lifetime (armed w)) _
            (scrub_deadline-Implements bound c lifetime (lookup c w.lifetimes) (armed w) _
              v.implements refl)
            (disarm_same c lifetime (armed w)))
          (arm_lifetime-armed c d w);
    liveness = v.liveness;
  },
  arm_lifetime-armed c d w,
)

arm_handshake-armed :
    (c : ConnId) (d : ℕ) (w : TimerWheel)
    → Same (armed (arm_handshake c d w)) (arm c handshake d (disarm c handshake (armed w)))
unfolding arm_handshake
arm_handshake-armed c d w c' idle = ground arith
arm_handshake-armed c d w c' pong = ground arith
arm_handshake-armed c d w c' lifetime = ground arith
arm_handshake-armed c d w c' handshake =
    ground (arith, lookup-insert c c' d w.handshakes, nat_beq_iff c c', nat_beq_iff c' c)

pub arm_handshake-Refines :
    (bound : ℕ) (c : ConnId) (d : ℕ) (w : TimerWheel)
    → IsWheel bound w
    → Refines bound (arm c handshake d (disarm c handshake (armed w))) (arm_handshake c d w)
unfolding arm_handshake
arm_handshake-Refines bound c d w v = (
  record {
    implements =
        ext-Implements bound _ _ _
          (push-Implements bound d c handshake (disarm c handshake (armed w)) _
            (scrub_deadline-Implements bound c handshake (lookup c w.handshakes) (armed w) _
              v.implements refl)
            (disarm_same c handshake (armed w)))
          (arm_handshake-armed c d w);
    liveness = v.liveness;
  },
  arm_handshake-armed c d w,
)

clear_handshake-armed :
    (c : ConnId) (w : TimerWheel)
    → Same (armed (clear_handshake c w)) (disarm c handshake (armed w))
unfolding clear_handshake
clear_handshake-armed c w c' idle = ground arith
clear_handshake-armed c w c' pong = ground arith
clear_handshake-armed c w c' lifetime = ground arith
clear_handshake-armed c w c' handshake =
    ground (arith, lookup-remove c c' w.handshakes, nat_beq_iff c c', nat_beq_iff c' c)

pub clear_handshake-Refines :
    (bound : ℕ) (c : ConnId) (w : TimerWheel)
    → IsWheel bound w
    → Refines bound (disarm c handshake (armed w)) (clear_handshake c w)
unfolding clear_handshake
clear_handshake-Refines bound c w v = (
  record {
    implements =
        ext-Implements bound _ _ _
          (scrub_deadline-Implements bound c handshake (lookup c w.handshakes) (armed w) _
            v.implements refl)
          (clear_handshake-armed c w);
    liveness = v.liveness;
  },
  clear_handshake-armed c w,
)

clear_lifetime-armed :
    (c : ConnId) (w : TimerWheel) → Same (armed (clear_lifetime c w)) (disarm c lifetime (armed w))
unfolding clear_lifetime
clear_lifetime-armed c w c' idle = ground arith
clear_lifetime-armed c w c' pong = ground arith
clear_lifetime-armed c w c' lifetime =
    ground (arith, lookup-remove c c' w.lifetimes, nat_beq_iff c c', nat_beq_iff c' c)
clear_lifetime-armed c w c' handshake = ground arith

clear_lifetime-Refines :
    (bound : ℕ) (c : ConnId) (w : TimerWheel)
    → IsWheel bound w
    → Refines bound (disarm c lifetime (armed w)) (clear_lifetime c w)
unfolding clear_lifetime
clear_lifetime-Refines bound c w v = (
  record {
    implements =
        ext-Implements bound _ _ _
          (scrub_deadline-Implements bound c lifetime (lookup c w.lifetimes) (armed w) _
            v.implements refl)
          (clear_lifetime-armed c w);
    liveness = v.liveness;
  },
  clear_lifetime-armed c w,
)

-- The wheel without a connection.
abbrev pub forget : ConnId → Armed → Armed
forget c a c' k = if nat_beq c' c then none else a c' k

disarm_all :
    (c : ConnId) (a b b' b'' : Armed)
    → Same b (disarm_live c a)
    → Same b' (disarm c lifetime b)
    → Same b'' (disarm c handshake b')
    → Same b'' (forget c a)
disarm_all c a b b' b'' h h' h'' c' idle = ground (arith, h c' idle, h' c' idle, h'' c' idle)
disarm_all c a b b' b'' h h' h'' c' pong = ground (arith, h c' pong, h' c' pong, h'' c' pong)
disarm_all c a b b' b'' h h' h'' c' lifetime =
    ground (arith, h c' lifetime, h' c' lifetime, h'' c' lifetime)
disarm_all c a b b' b'' h h' h'' c' handshake =
    ground (arith, h c' handshake, h' c' handshake, h'' c' handshake)

pub remove-Refines :
    (bound : ℕ) (c : ConnId) (w : TimerWheel)
    → IsWheel bound w
    → Refines bound (forget c (armed w)) (remove c w)
unfolding remove
remove-Refines bound c w v =
    let live = clear_liveness-Refines bound c w v in
    let life = clear_lifetime-Refines bound c (clear_liveness c w) live.0 in
    let shake = clear_handshake-Refines bound c (clear_lifetime c (clear_liveness c w)) life.0 in
    (shake.0, disarm_all c (armed w) _ _ _ live.1 life.1 shake.1)
