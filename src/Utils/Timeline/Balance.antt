-- ===== src/Utils/Timeline/Balance.antt =====
-- The stack and the counters of src/utils/timeline.cc agree.
use cris_core.Prelude.{
  ℕ, ◌+◌, ◌^◌, ◌≤◌, ◌<◌, length, ◌≡◌, ◌≢◌, refl, Bool, true, false, some, List, [], ◌∷◌, ◌==◌,
  if◌then◌else◌, arith,
}
use cris_core.Utils.Timeline.{
  Thread, returns, undefined_behaviour, start, enter_again, leave, pause, stop, Call, starts,
  pauses, stops, call, run, fresh,
}

-- How often a session stands on a stack.
unfoldable pub times : ℕ → List ℕ → ℕ
times n [] = 0
times n (x ∷ xs) = (if n == x then 1 else 0) + times n xs

-- A session is on the stack once while it is entered, and not at all else.
pub record IsBalanced (t : Thread) : Type 0 where
  pub once : (n : ℕ) → times n t.sess_stack ≡ (if t.sess_cnt n == 0 then 0 else 1)

again-once :
    (t : Thread) (sess : ℕ) (stack : List ℕ) (n : ℕ)
    → t.sess_cnt sess + 1 < 2 ^ 64
    → (t.sess_cnt sess == 0) ≡ false
    → times n t.sess_stack ≡ (if t.sess_cnt n == 0 then 0 else 1)
    → times n (enter_again t sess stack).0.sess_stack
      ≡ (if (enter_again t sess stack).0.sess_cnt n == 0 then 0 else 1)
unfolding enter_again
again-once t sess [] n l e b = b
again-once t sess (top ∷ below) n l e b = ground arith

start-IsBalanced :
    (t : Thread) (sess : ℕ)
    → t.sess_cnt sess + 1 < 2 ^ 64
    → IsBalanced t
    → IsBalanced (start t sess).0
unfolding start times
start-IsBalanced t sess l b = record {
  once = λ n. ground (arith, b.once n, again-once t sess t.sess_stack n);
}

leave-once :
    (t : Thread) (stack : List ℕ) (is_stop : Bool) (n : ℕ)
    → times n t.sess_stack ≡ (if t.sess_cnt n == 0 then 0 else 1)
    → times n stack ≡ (if t.sess_cnt n == 0 then 0 else 1)
    → times n (leave t stack is_stop).0.sess_stack
      ≡ (if (leave t stack is_stop).0.sess_cnt n == 0 then 0 else 1)
unfolding leave times
leave-once t [] is_stop n a b = a
leave-once t (top ∷ below) is_stop n a b = ground arith

leave-IsBalanced :
    (t : Thread) (is_stop : Bool) → IsBalanced t → IsBalanced (leave t t.sess_stack is_stop).0
leave-IsBalanced t is_stop b = record {
  once = λ n. leave-once t t.sess_stack is_stop n (b.once n) (b.once n);
}

call-IsBalanced :
    (t : Thread) (c : Call)
    → ((n : ℕ) → t.sess_cnt n + 1 < 2 ^ 64)
    → IsBalanced t
    → IsBalanced (call t c).0
unfolding call pause stop
call-IsBalanced t (starts sess) l b = start-IsBalanced t sess (l sess) b
call-IsBalanced t pauses l b = leave-IsBalanced t false b
call-IsBalanced t stops l b = leave-IsBalanced t true b

enter_again-cnt :
    (t : Thread) (sess : ℕ) (stack : List ℕ) (n : ℕ)
    → (enter_again t sess stack).0.sess_cnt n ≤ t.sess_cnt n + 1
unfolding enter_again
enter_again-cnt t sess [] n = omega arith
enter_again-cnt t sess (top ∷ below) n = ground arith

leave-cnt :
    (t : Thread) (stack : List ℕ) (is_stop : Bool) (n : ℕ)
    → (leave t stack is_stop).0.sess_cnt n ≤ t.sess_cnt n
unfolding leave
leave-cnt t [] is_stop n = omega arith
leave-cnt t (top ∷ below) is_stop n = ground arith

-- A call enters a session once more at most.
call-cnt : (t : Thread) (c : Call) (n : ℕ) → (call t c).0.sess_cnt n ≤ t.sess_cnt n + 1
unfolding call pause stop start
call-cnt t (starts sess) n = ground (arith, enter_again-cnt t sess t.sess_stack n)
call-cnt t pauses n = omega (arith, leave-cnt t t.sess_stack false n)
call-cnt t stops n = omega (arith, leave-cnt t t.sess_stack true n)

run-IsBalanced :
    (t : Thread) (cs : List Call)
    → ((n : ℕ) → t.sess_cnt n + length cs < 2 ^ 64)
    → IsBalanced t
    → IsBalanced (run t cs)
unfolding run
run-IsBalanced t [] l b = b
run-IsBalanced t (c ∷ cs) l b =
    run-IsBalanced (call t c).0 cs (λ n. omega (arith, l n, call-cnt t c n))
      (call-IsBalanced t c (λ n. omega (arith, l n)) b)

fresh-IsBalanced : IsBalanced fresh
unfolding fresh times
fresh-IsBalanced = record { once = λ n. refl }

top-answer :
    (t : Thread) (stack : List ℕ) (is_stop : Bool)
    → ((n : ℕ) → times n stack ≡ (if t.sess_cnt n == 0 then 0 else 1))
    → (leave t stack is_stop).1
      ≡ (elim stack [ [] ↦ undefined_behaviour | top ∷ below ↦ returns (some top) ])
unfolding leave times
top-answer t [] is_stop b = refl
top-answer t (top ∷ below) is_stop b = ground (arith, b top)

start-answer :
    (t : Thread) (sess : ℕ) (stack : List ℕ)
    → times sess stack ≡ (if t.sess_cnt sess == 0 then 0 else 1)
    → (t.sess_cnt sess == 0) ≡ false
    → (enter_again t sess stack).1 ≢ undefined_behaviour
unfolding enter_again times
start-answer t sess [] b e f = ground arith
start-answer t sess (top ∷ below) b e f = ground arith

start_defined : (t : Thread) (sess : ℕ) → IsBalanced t → (start t sess).1 ≢ undefined_behaviour
unfolding start
start_defined t sess b e = ground (arith, start-answer t sess t.sess_stack (b.once sess))

-- After whatever calls, fewer than 2 ^ 64, so that no count wraps, each session is on the stack once
-- while it is entered and not at all else; so start never looks at the top of an empty stack, and pause
-- and stop return the top session, if there is one, and never find it unregistered.
pub run-answers :
    (cs : List Call)
    → length cs < 2 ^ 64
    → IsBalanced (run fresh cs)
      × ((sess : ℕ) → (start (run fresh cs) sess).1 ≢ undefined_behaviour)
      × ((pause (run fresh cs)).1 ≡ (elim (run fresh cs).sess_stack [
        | [] ↦ undefined_behaviour
        | top ∷ below ↦ returns (some top)
      ]))
      × ((stop (run fresh cs)).1 ≡ (elim (run fresh cs).sess_stack [
        | [] ↦ undefined_behaviour
        | top ∷ below ↦ returns (some top)
      ]))
unfolding pause stop fresh
run-answers cs l =
    let t = run fresh cs in
    let b = run-IsBalanced fresh cs (λ n. omega (arith, l)) fresh-IsBalanced in
    (
      b,
      λ sess. start_defined t sess b,
      top-answer t t.sess_stack false b.once,
      top-answer t t.sess_stack true b.once,
    )
