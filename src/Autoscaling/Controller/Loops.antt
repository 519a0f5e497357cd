-- ===== src/Autoscaling/Controller/Loops.antt =====
-- How many scaling loops run (internal/control_plane/autoscaling/controller.go).
use dirigent.Prelude.{◌+◌, ◌<◌, ◌≡◌, true, false, some, none, arith, refl, ◌-◌}
use dirigent.Prelude.Int.{ℤ}
use dirigent.Autoscaling.Controller.{
  PfStateController, new_controller, start_swap, start_launch, stop_load, stop_send, stop_store,
  stop_close, scaling_cycle, first_cycle, tick, receive_stop,
}

-- An atomic step of a goroutine: a caller of Start or Stop, or one in ScalingLoop.
pub data Step (c : PfStateController) : PfStateController → Type 0 where
  swaps : Step c (start_swap c).0
  launches : 0 < c.claimed → Step c (start_launch c)
  loads : Step c (stop_load c)
  sends : (d : PfStateController) → 0 < c.stoppers → stop_send c ≡ some d → Step c d
  begins : (desired : ℤ) → 0 < c.fresh → Step c (first_cycle desired c)
  ticks : (desired : ℤ) → 0 < c.loops → Step c (tick desired c)
  halts : (d : PfStateController) → 0 < c.loops → receive_stop c ≡ some d → Step c d
  closes : (d : PfStateController) → 0 < c.closing → stop_close c ≡ some d → Step c d

pub data Reach : PfStateController → Type 0 where
  here : Reach new_controller
  next : {c d : PfStateController} → Reach c → Step c d → Reach d

-- One goroutine is launching or running the loop while AutoscalingRunning is set, and none else.
pub record HasOneLoop (c : PfStateController) : Type 0 where
  pub running : c.autoscaling_running ≡ true → c.claimed + c.fresh + c.loops ≡ 1
  pub stopped : c.autoscaling_running ≡ false → c.claimed + c.fresh + c.loops ≡ 0

Step-HasOneLoop : {c d : PfStateController} → Step c d → HasOneLoop c → HasOneLoop d
unfolding start_swap start_launch stop_load stop_send stop_store stop_close scaling_cycle
    first_cycle tick receive_stop
Step-HasOneLoop swaps h = ground arith
Step-HasOneLoop (launches l) h = ground arith
Step-HasOneLoop loads h = ground arith
Step-HasOneLoop (sends d l e) h = ground arith
Step-HasOneLoop (begins desired l) h = ground arith
Step-HasOneLoop (ticks desired l) h = ground arith
Step-HasOneLoop (halts d l e) h = ground arith
Step-HasOneLoop (closes d l e) h = ground arith

-- However the atomic parts of Start, Stop and the loops interleave, a single goroutine launches or
-- runs the scaling loop of a function while AutoscalingRunning is set, and none while it is not.
pub Reach-HasOneLoop : {c : PfStateController} → Reach c → HasOneLoop c
unfolding new_controller
Reach-HasOneLoop here = ground arith
Reach-HasOneLoop (next r s) = Step-HasOneLoop s (Reach-HasOneLoop r)

-- When a Start comes between the store and the close of a stopping loop, the close takes the new
-- loop's StopCh away: the controller is running and yet every Stop waits on a nil channel.
pub stop_close-start_launch :
    (c : PfStateController)
    → c.autoscaling_running ≡ false
    → 0 < c.closing
    → (d : PfStateController) × (stop_close (start_launch (start_swap c).0) ≡ some d)
      × (d.autoscaling_running ≡ true)
      × (0 < d.fresh)
      × (stop_send (stop_load d) ≡ none)
unfolding start_swap start_launch stop_load stop_send stop_close
stop_close-start_launch c h l = (
  record c {
    autoscaling_running = true;
    stop_ch = none;
    claimed = c.claimed + 1 - 1;
    fresh = c.fresh + 1;
    closing = c.closing - 1;
  },
  ground arith,
  refl,
  omega arith,
  refl,
)
