-- ===== src/Broker/Burial.antt =====
-- How many attempts a message has, and where it is in the end.
use digital_cip.Prelude.{
  ◌≡◌, refl, ◌∙◌, ℕ, zero, suc, ◌+◌, ◌-◌, ◌≤◌, pos, String, ◌==◌, List, arith, Bool-cases, inl, inr,
}
use mathlib.Core.Path.{subst}
use digital_cip.Json.{Fields, null, num, get, set}
use digital_cip.Json.Laws.{get-set, get_or-set_self}
use digital_cip.Tables.{Db}
use digital_cip.World.{Properties}
use digital_cip.Exec.{Exec}
use digital_cip.Consumer.OnMessage.{int_operand}
use digital_cip.Broker.{Message}
use digital_cip.Broker.Stages.{Stage, RunsConsumer}
use digital_cip.Broker.Turn.{System, cycles}
use digital_cip.Broker.Retries.{
  Stubborn, Numbered, Alone, Buried, again, callback, cycle-Alone, cycle-Buried,
}

-- The same entries but for `attempt`.
abbrev pub SameMessage : Fields → Fields → Type 0
SameMessage f g = (j : String) → get j (set "attempt" null g) ≡ get j (set "attempt" null f)

SameMessage-again : (f : Fields) (a : ℕ) → SameMessage f (again f a)
SameMessage-again f a j = elim (Bool-cases ("attempt" == j)) [
  | inl e ↦ rw (get-set "attempt" j null (again f a), get-set "attempt" j null f, e)
  | inr e ↦ rw (
    get-set "attempt" j null (again f a),
    get-set "attempt" j null f,
    get-set "attempt" j (num (pos (suc a))) f,
    e,
  )
]

again-Numbered : (f : Fields) (a : ℕ) → Numbered (again f a) (suc a)
unfolding int_operand
again-Numbered f a = rw (get_or-set_self "attempt" (num (pos (suc a))) (num (pos 1)) f, int_operand)

module _ (mark : Properties → Properties) (s : Stage) (max_retries : ℕ)
    (deliver : Fields → Exec (Unit {0})) {About : Fields → Type 0} {Blocked : Db → Type 0}
    (stubborn : Stubborn deliver About Blocked) where
  abbrev after : ℕ → System → System
  after n = cycles mark s (callback mark s max_retries deliver stubborn) n

  ends_after :
      (n : ℕ) (dead : List Message) (f : Fields) (a : ℕ) (sys : System)
      → About f
      → Alone Blocked s dead f sys
      → Numbered f a
      → n ≡ max_retries - a
      → (g : Fields) × Buried s dead g (after (suc n) sys) × SameMessage f g
  unfolding cycles
  ends_after zero dead f a sys about h number e = (
    f,
    cycle-Buried mark s max_retries deliver stubborn sys f a dead about h number (omega arith),
    λ j. refl,
  )
  ends_after (suc n) dead f a sys about h number e =
      let h' =
        cycle-Alone mark s max_retries deliver stubborn sys f a dead about h number (omega arith) in
      let (g, buried, same) =
        ends_after n dead (again f a) (suc a) _ (stubborn.again_about f a about) h'
          (again-Numbered f a) (omega arith) in
      (g, buried, λ j. same j ∙ SameMessage-again f a j)

  -- In the stages `ocr` and `embed`, where the calls of the broker and of the worker work and the
  -- tables are such that the handler raises `TransientError` on a message and leaves them such: the
  -- message comes to its end. After one turn more than there are retries left it is the last
  -- message of the stage's dead-letter queue, and the stage's other two queues are empty. Only its
  -- `attempt` has changed.
  pub retries_end :
      (dead : List Message) (f : Fields) (a : ℕ) (sys : System)
      → RunsConsumer s
      → About f
      → Alone Blocked s dead f sys
      → Numbered f a
      → (g : Fields) × Buried s dead g (after (suc (max_retries - a)) sys) × SameMessage f g
  retries_end dead f a sys python about h number =
      ends_after (max_retries - a) dead f a sys about h number refl

  -- Under the same conditions, until then the message is on its way: after each earlier turn it is
  -- alone in the stage's queue again, the tables are still such, the dead-letter queue is as it was,
  -- and its `attempt` has grown by the number of the turns.
  pub retries_go_on :
      (k : ℕ) (dead : List Message) (f : Fields) (a : ℕ) (sys : System)
      → RunsConsumer s
      → About f
      → Alone Blocked s dead f sys
      → Numbered f a
      → a + k ≤ max_retries
      → (g : Fields) × Alone Blocked s dead g (after k sys) × Numbered g (a + k) × SameMessage f g
  unfolding cycles
  retries_go_on zero dead f a sys python about h number le = (f, h, rw (ends a) number, λ j. refl)
    where
      ends : (a : ℕ) → a + 0 ≡ a
      ends a = omega arith
  retries_go_on (suc k) dead f a sys python about h number le =
      let h' =
        cycle-Alone mark s max_retries deliver stubborn sys f a dead about h number (omega arith) in
      let (g, alone, number', same) =
        retries_go_on k dead (again f a) (suc a) _ python (stubborn.again_about f a about) h'
          (again-Numbered f a) (omega arith) in
      (g, alone, subst (Numbered g) (omega arith) number', λ j. same j ∙ SameMessage-again f a j)
