-- ===== src/OpStack/Appended.antt =====
-- opStack.append as a whole, with freeze and clear.
use storhub.Prelude.{◌<◌, Option, none, some, ◌≡◌, refl, arith}
use storhub.OpStack.{OpStack, empty_stack}
use storhub.OpStack.Index.{freeze, clear}
use storhub.OpStack.Keyed.{IsKeyed}

abbrev stack_of : Option OpStack → OpStack
stack_of none = empty_stack
stack_of (some s) = s

-- The index of an empty stack is right, as is that of a cleared one.
pub clear-IsKeyed : (s : OpStack) → IsKeyed empty_stack × IsKeyed (clear s)
unfolding clear
clear-IsKeyed s = (
  record { keyed = λ k i h. ground (arith, h); pruning = λ i h. ground (arith, h) },
  record { keyed = λ k i h. ground (arith, h); pruning = λ i h. ground (arith, h) },
)

-- freeze answers the operations of the stack, keeps them and their index, and opens a generation past
-- the frozen one.
pub freeze-IsKeyed :
    (s : OpStack)
    → IsKeyed s
    → IsKeyed (freeze s).1.1
      × ((freeze s).1.1.ops ≡ (freeze s).0)
      × ((freeze s).1.0 < (freeze s).1.1.gen)
      × (s.gen < (freeze s).1.1.gen)
unfolding freeze
freeze-IsKeyed s inv =
    (record { keyed = inv.keyed; pruning = inv.pruning }, refl, ground arith, ground arith)
