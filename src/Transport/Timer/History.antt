-- ===== src/Transport/Timer/History.antt =====
-- src/transport/timer.rs: a wheel after any sequence of calls.
use pylon.Prelude.{
  ℕ, ◌+◌, ◌*◌, ◌≡◌, refl, sym, subst, ◌∙◌, Bool, true, ◌&&◌, none, List, [], ◌∷◌, arith, nat_eq,
  ltb, max, min,
}
use pylon.Transport.Timer.{
  TimerWheel, slot_eq, ConnId, idle, pong, lifetime, handshake, with_timeouts, saturating_add,
  schedule, touch, mark_ping_sent, arm_lifetime, arm_handshake, clear_handshake, clear_liveness,
  clear_lifetime, remove, due, u64_max,
}
use pylon.Transport.Timer.Valid.{Armed, armed, disarm, arm}
use pylon.Transport.Timer.Refine.{
  IsWheel, Same, disarm_live, Refines, clear_liveness-Refines, schedule-Refines,
}
use pylon.Transport.Timer.Arming.{
  arm_lifetime-Refines, arm_handshake-Refines, clear_handshake-Refines, forget, remove-Refines,
}
use pylon.Transport.Timer.Advance.{due-Refines}

pub data Call : Type 0 where
  touched ping_sent lifetime_armed handshake_armed : ConnId → ℕ → Call
  handshake_cleared liveness_cleared removed : ConnId → Call
  advanced : ℕ → Call

-- The times of `due` calls are below the largest u64.
abbrev pub representable : List Call → Bool
representable [] = true
representable (advanced now_ms ∷ cs) = ltb now_ms u64_max && representable cs
representable (_ ∷ cs) = representable cs

representable_head :
    (x : Call) (cs : List Call) → representable (x ∷ cs) ≡ true → representable (x ∷ []) ≡ true
representable_head x cs r = ground arith

representable_tail :
    (x : Call) (cs : List Call) → representable (x ∷ cs) ≡ true → representable cs ≡ true
representable_tail x cs r = ground arith

-- How far the wheel was advanced.
abbrev pub reach : Call → ℕ → ℕ
reach (advanced now_ms) bound = max bound (now_ms + 1)
reach _ bound = bound

abbrev pub advanced_to : List Call → ℕ
advanced_to [] = 0
advanced_to (c ∷ cs) = reach c (advanced_to cs)

module _ (activity_secs pong_secs : ℕ) where
  call : Call → TimerWheel → TimerWheel
  call (touched c now_ms) w = touch c now_ms w
  call (ping_sent c now_ms) w = mark_ping_sent c now_ms w
  call (lifetime_armed c d) w = arm_lifetime c d w
  call (handshake_armed c d) w = arm_handshake c d w
  call (handshake_cleared c) w = clear_handshake c w
  call (liveness_cleared c) w = clear_liveness c w
  call (removed c) w = remove c w
  call (advanced now_ms) w = (due now_ms w).1

  -- The wheel after calls, the last call first.
  unfoldable pub calls : List Call → TimerWheel
  unfolding call
  calls [] = with_timeouts activity_secs pong_secs
  calls (c ∷ cs) = call c (calls cs)

  -- What the calls mean for the armed timers.
  abbrev pub effect : Call → Armed → Armed
  effect (touched c now_ms) a =
      arm c idle (min (now_ms + activity_secs * 1000) u64_max) (disarm_live c a)
  effect (ping_sent c now_ms) a =
      arm c pong (min (now_ms + pong_secs * 1000) u64_max) (disarm_live c a)
  effect (lifetime_armed c d) a = arm c lifetime d (disarm c lifetime a)
  effect (handshake_armed c d) a = arm c handshake d (disarm c handshake a)
  effect (handshake_cleared c) a = disarm c handshake a
  effect (liveness_cleared c) a = disarm_live c a
  effect (removed c) a = forget c a
  effect (advanced now_ms) a = a

  abbrev pub effects : List Call → Armed
  effects [] = λ c k. none
  effects (c ∷ cs) = effect c (effects cs)

  effect-Same : (x : Call) (a b : Armed) → Same a b → Same (effect x a) (effect x b)
  effect-Same (touched i now_ms) a b h c k = ground (arith, h c k)
  effect-Same (ping_sent i now_ms) a b h c k = ground (arith, h c k)
  effect-Same (lifetime_armed i d) a b h c k = ground (arith, h c k)
  effect-Same (handshake_armed i d) a b h c k = ground (arith, h c k)
  effect-Same (handshake_cleared i) a b h c k = ground (arith, h c k)
  effect-Same (liveness_cleared i) a b h c k = ground (arith, h c k)
  effect-Same (removed i) a b h c k = ground (arith, h c k)
  effect-Same (advanced now_ms) a b h c k = h c k

  abbrev HasTimeouts : TimerWheel → Type 0
  HasTimeouts w =
      (w.activity_timeout_ms ≡ activity_secs * 1000) × (w.pong_timeout_ms ≡ pong_secs * 1000)

  calls-HasTimeouts : (cs : List Call) → HasTimeouts (calls cs)
  unfolding calls call with_timeouts touch mark_ping_sent schedule arm_lifetime arm_handshake
      clear_handshake clear_liveness clear_lifetime remove due
  calls-HasTimeouts [] = (refl, refl)
  calls-HasTimeouts (touched i now_ms ∷ cs) = calls-HasTimeouts cs
  calls-HasTimeouts (ping_sent i now_ms ∷ cs) = calls-HasTimeouts cs
  calls-HasTimeouts (lifetime_armed i d ∷ cs) = calls-HasTimeouts cs
  calls-HasTimeouts (handshake_armed i d ∷ cs) = calls-HasTimeouts cs
  calls-HasTimeouts (handshake_cleared i ∷ cs) = calls-HasTimeouts cs
  calls-HasTimeouts (liveness_cleared i ∷ cs) = calls-HasTimeouts cs
  calls-HasTimeouts (removed i ∷ cs) = calls-HasTimeouts cs
  calls-HasTimeouts (advanced now_ms ∷ cs) = calls-HasTimeouts cs

  call-Refines :
      (bound : ℕ) (x : Call) (w : TimerWheel)
      → representable (x ∷ []) ≡ true
      → HasTimeouts w
      → IsWheel bound w
      → Refines (reach x bound) (effect x (armed w)) (call x w)
  unfolding call touch mark_ping_sent saturating_add
  call-Refines bound (touched i now_ms) w r t v =
      subst
        (λ m.
          Refines bound (arm i idle (min (now_ms + m) u64_max) (disarm_live i (armed w)))
            (touch i now_ms w))
        t.0 (schedule-Refines bound i _ idle w refl v)
  call-Refines bound (ping_sent i now_ms) w r t v =
      subst
        (λ m.
          Refines bound (arm i pong (min (now_ms + m) u64_max) (disarm_live i (armed w)))
            (mark_ping_sent i now_ms w))
        t.1 (schedule-Refines bound i _ pong w refl v)
  call-Refines bound (lifetime_armed i d) w r t v = arm_lifetime-Refines bound i d w v
  call-Refines bound (handshake_armed i d) w r t v = arm_handshake-Refines bound i d w v
  call-Refines bound (handshake_cleared i) w r t v = clear_handshake-Refines bound i w v
  call-Refines bound (liveness_cleared i) w r t v = clear_liveness-Refines bound i w v
  call-Refines bound (removed i) w r t v = remove-Refines bound i w v
  call-Refines bound (advanced now_ms) w r t v = due-Refines bound now_ms w (ground arith) v

  start-armed : Same (armed (with_timeouts activity_secs pong_secs)) (effects [])
  unfolding with_timeouts
  start-armed c idle = refl
  start-armed c pong = refl
  start-armed c lifetime = refl
  start-armed c handshake = refl

  start-IsWheel : IsWheel 0 (with_timeouts activity_secs pong_secs)
  unfolding with_timeouts
  start-IsWheel = record {
    implements = record {
      ascending = tt;
      no_empty = λ d b e. cc;
      distinct = λ d. tt;
      backed = λ d c k e. cc;
      pending = λ d c k e l. let nothing = sym (start-armed c k) ∙ e in cc;
    };
    liveness = λ c t e. cc;
  }

  -- After any calls, the times of `due` being below the largest u64, the wheel is consistent:
  -- the timeline ascends, holds no empty bucket, no slot twice and no slot without its armed timer,
  -- and holds a slot for every armed timer to whose deadline the wheel was not yet advanced. And the
  -- armed timers are those that the calls' effects leave.
  pub calls-Refines :
      (cs : List Call) → representable cs ≡ true → Refines (advanced_to cs) (effects cs) (calls cs)
  unfolding calls
  calls-Refines [] r = (start-IsWheel, start-armed)
  calls-Refines (x ∷ cs) r =
      let before = calls-Refines cs (representable_tail x cs r) in
      let step =
        call-Refines (advanced_to cs) x (calls cs) (representable_head x cs r)
          (calls-HasTimeouts cs) before.0 in
      (step.0, λ c k. step.1 c k ∙ effect-Same x (armed (calls cs)) (effects cs) before.1 c k)
