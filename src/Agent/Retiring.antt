-- ===== src/Agent/Retiring.antt =====
-- internal/agent/agent.go, SetOnRetired and retired: the callback of the agent's retirement, by any
-- interleaving of the two, each of which is one critical section. A callback is a number.
use coen.Base.{
  ℕ, ◌≡◌, refl, ap, Bool, true, false, Option, none, some, List, [], ◌∷◌, if◌then◌else◌,
}

pub record Retiring : Type 0 where
  pub on_retired : Option ℕ
  pub retired_done : Bool

abbrev pub new_retiring : Retiring
new_retiring = record { on_retired = none; retired_done = false }

pub set_on_retired : ℕ → Retiring → Retiring × Bool
set_on_retired f s = if s.retired_done then (s, false) else (record s { on_retired = some f }, true)

-- With the callback that it runs.
pub retired : Retiring → Retiring × Option ℕ
retired s = if s.retired_done then (s, none) else (record s { retired_done = true }, s.on_retired)

pub data Call : Type 0 where
  sets : ℕ → Call
  retires : Call

-- The answers of SetOnRetired and the callbacks that run, in order.
pub record Retirement : Type 0 where
  pub answers : List Bool
  pub ran : List ℕ

abbrev with_ran : Option ℕ → List ℕ → List ℕ
with_ran none rest = rest
with_ran (some f) rest = f ∷ rest

pub run_calls : List Call → Retiring → Retirement
unfolding set_on_retired retired
run_calls [] s = record { answers = []; ran = [] }
run_calls (sets f ∷ calls) s =
    let (s', answer) = set_on_retired f s in
    let rest = run_calls calls s' in record { answers = answer ∷ rest.answers; ran = rest.ran }
run_calls (retires ∷ calls) s =
    let (s', f) = retired s in
    let rest = run_calls calls s' in record { answers = rest.answers; ran = with_ran f rest.ran }

-- What the calls should do: the callback that was set last before the first retirement runs, then;
-- SetOnRetired says true until then.
abbrev pub expected_ran : Option ℕ → List Call → List ℕ
expected_ran last [] = []
expected_ran last (sets f ∷ calls) = expected_ran (some f) calls
expected_ran none (retires ∷ calls) = []
expected_ran (some f) (retires ∷ calls) = f ∷ []

abbrev all_false : List Call → List Bool
all_false [] = []
all_false (sets f ∷ calls) = false ∷ all_false calls
all_false (retires ∷ calls) = all_false calls

abbrev pub expected_answers : List Call → List Bool
expected_answers [] = []
expected_answers (sets f ∷ calls) = true ∷ expected_answers calls
expected_answers (retires ∷ calls) = all_false calls

pub record Runs (calls : List Call) (last : Option ℕ) (out : Retirement) : Type 0 where
  pub ran : out.ran ≡ expected_ran last calls
  pub answers : out.answers ≡ expected_answers calls

after_retired :
    (calls : List Call) (f : Option ℕ)
    → let out = run_calls calls (record { on_retired = f; retired_done = true }) in
      (out.ran ≡ []) × (out.answers ≡ all_false calls)
unfolding run_calls
after_retired [] f = (refl, refl)
after_retired (sets g ∷ calls) f = let (r, a) = after_retired calls f in (r, ap (◌∷◌ false) a)
after_retired (retires ∷ calls) f = after_retired calls f

run_calls-Runs :
    (calls : List Call) (last : Option ℕ)
    → Runs calls last (run_calls calls (record { on_retired = last; retired_done = false }))
unfolding run_calls
run_calls-Runs [] last = record { ran = refl; answers = refl }
run_calls-Runs (sets f ∷ calls) last =
    let v = run_calls-Runs calls (some f) in
    record { ran = v.ran; answers = ap (◌∷◌ true) v.answers }
run_calls-Runs (retires ∷ calls) none =
    let (r, a) = after_retired calls none in record { ran = r; answers = a }
run_calls-Runs (retires ∷ calls) (some f) =
    let (r, a) = after_retired calls (some f) in record { ran = ap (◌∷◌ f) r; answers = a }

-- In any sequence of calls of SetOnRetired and retired: exactly one callback runs, the one that was set
-- last before the first call of retired, and none if there was none or retired is never called; and
-- SetOnRetired answers true exactly until that call.
pub set_on_retired-Runs : (calls : List Call) → Runs calls none (run_calls calls new_retiring)
set_on_retired-Runs calls = run_calls-Runs calls none
