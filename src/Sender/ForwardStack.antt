-- ===== src/Sender/ForwardStack.antt =====
-- The `ForwardStack` of sender_proc/forward_stack.cpp: the packets that are to be sent.
pub mod Fifo
use worker_unit.Base.{
  ℕ, Bool, true, false, not, ◌&&◌, ◌||◌, Option, none, some, List, [], ◌∷◌, ◌++◌, ltb, ◌==◌,
  if◌then◌else◌, length,
}
use worker_unit.Base.Text.{Bytes}
use worker_unit.Sender.Package.{
  SenderDataType, ForwardStackPackage, empty_package, is_intr, is_fres, is_ackable, Outcome, done,
  blocked, undefined, ◌>>=◌,
}
use worker_unit.Sender.AwaitStack
use worker_unit.Sender.AwaitStack.{AwaitStack, new_await_stack, is_free}

pub record ForwardStack : Type 0 where
  pub stack_lock : Bool
  pub sender_stack : List ForwardStackPackage
  pub await_stack : AwaitStack

unfoldable pub new_forward_stack : ForwardStack
unfolding new_await_stack
new_forward_stack = record { stack_lock = false; sender_stack = []; await_stack = new_await_stack }

abbrev pub wait_lock : ForwardStack → Outcome ForwardStack
wait_lock s = if s.stack_lock then blocked else done (record s { stack_lock = true })

abbrev pub post_lock : ForwardStack → ForwardStack
post_lock s = record s { stack_lock = false }

unfoldable pub push : ForwardStackPackage → ForwardStack → Outcome ForwardStack
push item s = do
  h ← wait_lock s
  done (post_lock (record h { sender_stack = h.sender_stack ++ (item ∷ []) }))

unfoldable pub push_front : ForwardStackPackage → ForwardStack → Outcome ForwardStack
push_front item s = do
  h ← wait_lock s
  done (post_lock (record h { sender_stack = item ∷ h.sender_stack }))

-- `statusCode != INTR_SEND || statusCode != FRES_SEND`
abbrev pub seems_nonackable : ForwardStackPackage → Bool
seems_nonackable p = not (is_intr p.status_code) || not (is_fres p.status_code)

-- The first item that passes the test, and the list without it.
unfoldable pub remove_first :
    List ForwardStackPackage → Option (ForwardStackPackage × List ForwardStackPackage)
remove_first [] = none
remove_first (p ∷ ps) = elim (seems_nonackable p) [
  | true ↦ some (p, ps)
  | false ↦ elim (remove_first ps) [ none ↦ none | some (q, rest) ↦ some (q, p ∷ rest) ]
]

unfoldable pub get_nonackable_item :
    ForwardStack → Outcome (Option ForwardStackPackage × ForwardStack)
unfolding remove_first
get_nonackable_item s = do
  h ← wait_lock s
  elim (remove_first h.sender_stack) [
    | none ↦ done (none, post_lock h)
    | some (p, rest) ↦ done (some p, post_lock (record h { sender_stack = rest }))
  ]

-- The branches of `popForwardStack` on its front item, with the lock held.
unfoldable pub pop_front :
    ForwardStackPackage
    → List ForwardStackPackage
    → ForwardStack
    → Outcome (ForwardStackPackage × ForwardStack)
unfolding get_nonackable_item
pop_front item rest h =
    if is_ackable item
    then (if is_free h.await_stack
        then (do
          (code, await) ← AwaitStack.push item h.await_stack
          done (item, post_lock (record h { sender_stack = rest; await_stack = await })))
        else (do
          (chosen, h') ← get_nonackable_item h
          elim chosen [ none ↦ undefined | some p ↦ done (p, post_lock h') ]))
    else done (item, post_lock (record h { sender_stack = rest }))

abbrev pub pop_nonempty :
    List ForwardStackPackage → ForwardStack → Outcome (ForwardStackPackage × ForwardStack)
pop_nonempty [] s = done (empty_package, s)
pop_nonempty (item ∷ rest) s = do h ← wait_lock s; pop_front item rest h

unfoldable pub pop_forward_stack : ForwardStack → Outcome (ForwardStackPackage × ForwardStack)
unfolding empty_package
pop_forward_stack s = pop_nonempty s.sender_stack s

unfoldable pub size : ForwardStack → ℕ
size s = length s.sender_stack

-- The result is 0 where the size is negative, which no size is.
unfoldable pub is_empty : ForwardStack → ℕ
unfolding size
is_empty s = if ltb (size s) 0 then 0 else 1
