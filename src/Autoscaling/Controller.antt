-- ===== src/Autoscaling/Controller.antt =====
-- internal/control_plane/autoscaling/controller.go: the loop that makes the scaling decisions of a
-- function. A controller is the shared state of its goroutines. Start, Stop and
-- stopAutoscalingLoop are each two atomic parts, between which other goroutines run.
pub mod Loops
use dirigent.Prelude.{
  ℕ, zero, suc, ◌+◌, ◌-◌, ◌==◌, Bool, true, false, Option, none, some, List, [], ◌∷◌, ◌++◌,
  if◌then◌else◌,
}
use dirigent.Prelude.Int.{ℤ, pos, ◌==ℤ◌}

-- `stop_ch` is the number of messages in StopCh, `none` for a nil channel. The numbers count
-- goroutines: `claimed` those of Start that have set AutoscalingRunning and launch the loop next,
-- `fresh` those in ScalingLoop before its first cycle, `loops` those past it, `closing` those in
-- stopAutoscalingLoop that close StopCh next, `stoppers` those of Stop that send next.
pub record PfStateController : Type 0 where
  pub autoscaling_running : Bool
  pub stop_ch : Option ℕ
  pub desired_states : List ℤ
  pub claimed : ℕ
  pub fresh : ℕ
  pub loops : ℕ
  pub closing : ℕ
  pub stoppers : ℕ

-- NewPerFunctionStateController, less the metadata.
unfoldable pub new_controller : PfStateController
new_controller = record {
  autoscaling_running = false;
  stop_ch = none;
  desired_states = [];
  claimed = 0;
  fresh = 0;
  loops = 0;
  closing = 0;
  stoppers = 0;
}

-- Start: the swap of AutoscalingRunning, which is its result.
unfoldable pub start_swap : PfStateController → PfStateController × Bool
start_swap c =
    if c.autoscaling_running
    then (c, false)
    else (record c { autoscaling_running = true; claimed = c.claimed + 1 }, true)

-- Start: make(chan struct{}, 1) and the launch of ScalingLoop.
unfoldable pub start_launch : PfStateController → PfStateController
start_launch c = record c { stop_ch = some 0; claimed = c.claimed - 1; fresh = c.fresh + 1 }

-- Stop: the load of AutoscalingRunning; without a loop Stop returns.
unfoldable pub stop_load : PfStateController → PfStateController
stop_load c = if c.autoscaling_running then record c { stoppers = c.stoppers + 1 } else c

-- Stop: the send to StopCh; `none` while it waits because StopCh is nil or full.
unfoldable pub stop_send : PfStateController → Option PfStateController
stop_send c = elim c.stop_ch [
  | none ↦ none
  | some zero ↦ some (record c { stop_ch = some 1; stoppers = c.stoppers - 1 })
  | some (suc _) ↦ none
]

-- stopAutoscalingLoop: the store to AutoscalingRunning.
unfoldable pub stop_store : PfStateController → PfStateController
stop_store c = record c { autoscaling_running = false; closing = c.closing + 1 }

-- stopAutoscalingLoop: close(StopCh) and StopCh = nil; `none` for the panic of closing nil.
unfoldable pub stop_close : PfStateController → Option PfStateController
stop_close c = elim c.stop_ch [
  | none ↦ none
  | some _ ↦ some (record c { stop_ch = none; closing = c.closing - 1 })
]

-- scalingCycle up to the store, given the scale that KnativeScaling answers; the result says whether
-- the loop stops.
unfoldable pub scaling_cycle : ℤ → PfStateController → PfStateController × Bool
unfolding stop_store
scaling_cycle desired c =
    let sent = record c { desired_states = c.desired_states ++ desired ∷ [] } in
    if desired ==ℤ pos 0 then (stop_store sent, true) else (sent, false)

-- The first cycle of ScalingLoop.
unfoldable pub first_cycle : ℤ → PfStateController → PfStateController
unfolding scaling_cycle
first_cycle desired c =
    let (c', stopped) = scaling_cycle desired c in
    if stopped
    then record c' { fresh = c'.fresh - 1 }
    else record c' { fresh = c'.fresh - 1; loops = c'.loops + 1 }

-- A round of the loop that the ticker wakes.
unfoldable pub tick : ℤ → PfStateController → PfStateController
unfolding scaling_cycle
tick desired c =
    let (c', stopped) = scaling_cycle desired c in
    if stopped then record c' { loops = c'.loops - 1 } else c'

-- A round of the loop that a message in StopCh wakes; `none` while there is no message.
unfoldable pub receive_stop : PfStateController → Option PfStateController
unfolding stop_store
receive_stop c = elim c.stop_ch [
  | none ↦ none
  | some zero ↦ none
  | some (suc n) ↦
      let c' = stop_store (record c { stop_ch = some n }) in
      some (record c' { loops = c'.loops - 1 })
]
