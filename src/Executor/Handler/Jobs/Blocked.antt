-- ===== src/Executor/Handler/Jobs/Blocked.antt =====
-- The handlers of one group (rclpy/rclpy/executors.py, `_make_handler`) after taking an entity's data has raised.
use rclpy.Prelude.{
  ℕ, ◌≡◌, ◌⊎◌, inl, inr, refl, sym, ap, ◌∙◌, Bool, true, false, Option, none, some, List, [], ◌∷◌,
  ◌++◌, Result, Result-cases, ok, err, length, ◌≤◌, if◌then◌else◌, Bool-cases, one-append, arith,
  contains,
}
use rclpy.CallbackGroup
use rclpy.CallbackGroup.{
  CallbackGroup, reentrant, exclusive, has_entity, add_entity, beginning_execution,
}
use rclpy.Executor.Handler.Jobs.Keeps.{refuse-ends}
use rclpy.Executor.Handler.{
  refuse, Error, leave, Shared, begin_handler, make_handler, taken, take_raised,
}
use rclpy.Executor.Handler.Jobs.{
  Phase, accepted, calling, lost, Job, System, admitted, Step, add, make, begin, take, take_stops,
  destroy_guard, take_raises, finish, shut_down, wait, wait_ends, Reach, here, next,
}
use rclpy.CallbackGroup.Laws.{Holds}
use rclpy.Executor.WorkTracker
use rclpy.Executor.Handler.Jobs.Valid.{IsValid}
use rclpy.Executor.Handler.Jobs.Exclusion.{IsFresh, Reach-fresh, Reach-one}

-- The only holder of an exclusive group is a handler that is gone.
pub record IsBlocked (s : System) : Type 0 where
  pub active : ℕ
  pub entities : List ℕ
  pub thread : ℕ
  pub group : s.shared.group ≡ exclusive entities (some active)
  pub jobs : s.jobs ≡ record { thread = thread; entity = active; phase = lost } ∷ []

-- A handler that starts is not given the group.
beginning_held :
    (e : ℕ) (g : CallbackGroup) (es : List ℕ) (a : ℕ)
    → g ≡ exclusive es (some a)
    → (beginning_execution e g ≡ (err CallbackGroup.assertion_error, exclusive es (some a)))
      ⊎ (beginning_execution e g ≡ (ok false, exclusive es (some a)))
unfolding beginning_execution
beginning_held e g es a h = elim (Bool-cases (contains e es)) [
  | inl m ↦ inr (rw (h, m) refl)
  | inr m ↦ inl (rw (h, m) refl)
]

-- A handler that does not go on is not admitted.
refuse-admitted :
    (t e : ℕ) (g : CallbackGroup) (s : Shared) (jobs : List Job)
    → admitted t e (refuse e g s).0 jobs ≡ jobs
refuse-admitted t e g s jobs = elim (refuse-ends e g s).2 [
  | inl r ↦ rw r refl
  | inr (_, r) ↦ rw r refl
]

begin_blocked :
    (t e : ℕ) (stop : Bool) (s : Shared) (es : List ℕ) (a : ℕ) (jobs : List Job)
    → s.group ≡ exclusive es (some a)
    → ((begin_handler t e stop s).1.group ≡ exclusive es (some a))
      × (admitted t e (begin_handler t e stop s).0 jobs ≡ jobs)
unfolding begin_handler
begin_blocked t e true s es a jobs g =
    ((refuse-ends e s.group s).0 ∙ g, refuse-admitted t e s.group s jobs)
begin_blocked t e false s es a jobs g = elim (beginning_held e s.group es a g) [
  | inl k ↦ rw (k, begin_handler) (ap (λ r. r.1) k, refl)
  | inr k ↦
      rw (k, begin_handler)
        (
          (refuse-ends e (beginning_execution e s.group).1 s).0 ∙ ap (λ r. r.1) k,
          refuse-admitted t e (beginning_execution e s.group).1 s jobs,
        )
]

-- The one job is gone, so none is at another phase.
not_lost :
    {ρ : Type 0} (t u e a : ℕ) (p : Phase) (before after : List Job)
    → (lost ≡ p → ρ)
    → record { thread = u; entity = a; phase = lost } ∷ []
      ≡ before ++ record { thread = t; entity = e; phase = p } ∷ after
    → ρ
not_lost t u e a p before after absurdly h =
    let (_, same, _) =
      one-append (record { thread = u; entity = a; phase = lost }) before
        (record { thread = t; entity = e; phase = p }) after (sym h) in
    absurdly (sym (ap (λ (j : Job). j.phase) same))

add_entity_exclusive :
    (e : ℕ) (g : CallbackGroup) (es : List ℕ) (a : Option ℕ)
    → g ≡ exclusive es a
    → add_entity e g ≡ exclusive (if contains e es then es else e ∷ es) a
unfolding add_entity
add_entity_exclusive e g es a h = rw h refl

-- Every step keeps the group blocked.
Step-IsBlocked : {s t : System} → Step s t → IsBlocked s → IsBlocked t
unfolding make_handler taken
Step-IsBlocked (add s e) b = record {
  active = b.active;
  entities = _;
  thread = b.thread;
  jobs = b.jobs;
  group = add_entity_exclusive e s.shared.group b.entities (some b.active) b.group;
}
Step-IsBlocked (make s e m c) b = record {
  active = b.active;
  entities = b.entities;
  thread = b.thread;
  group = b.group;
  jobs = b.jobs;
}
Step-IsBlocked (begin s t e stop before after q) b =
    let (g, j) = begin_blocked t e stop s.shared b.entities b.active s.jobs b.group in
    record {
      active = b.active;
      entities = b.entities;
      thread = b.thread;
      group = g;
      jobs = j ∙ b.jobs;
    }
Step-IsBlocked (destroy_guard s) b = record {
  active = b.active;
  entities = b.entities;
  thread = b.thread;
  group = b.group;
  jobs = b.jobs;
}
Step-IsBlocked (take_stops s t e before after j d) b =
    not_lost t b.thread e b.active accepted before after (λ h. cc) (sym b.jobs ∙ j)
Step-IsBlocked (take s t e before after j d) b =
    not_lost t b.thread e b.active accepted before after (λ h. cc) (sym b.jobs ∙ j)
Step-IsBlocked (take_raises s t e before after j) b =
    not_lost t b.thread e b.active accepted before after (λ h. cc) (sym b.jobs ∙ j)
Step-IsBlocked (finish s t e before after j) b =
    not_lost t b.thread e b.active calling before after (λ h. cc) (sym b.jobs ∙ j)
Step-IsBlocked (shut_down s) b = record {
  active = b.active;
  entities = b.entities;
  thread = b.thread;
  group = b.group;
  jobs = b.jobs;
}
Step-IsBlocked (wait s t) b = record {
  active = b.active;
  entities = b.entities;
  thread = b.thread;
  group = b.group;
  jobs = b.jobs;
}
Step-IsBlocked (wait_ends s t added drained) b = record {
  active = b.active;
  entities = b.entities;
  thread = b.thread;
  group = b.group;
  jobs = b.jobs;
}

Reach-IsBlocked : {s t : System} → Reach s t → IsBlocked s → IsBlocked t
Reach-IsBlocked here b = b
Reach-IsBlocked (next r st) b = Step-IsBlocked st (Reach-IsBlocked r b)

leave-group :
    (owner : ℕ) (r : Result Error (Unit {0})) (s : Shared) → (leave owner r s).1.group ≡ s.group
unfolding leave
leave-group owner r s = elim (Result-cases (WorkTracker.exit owner s.work_tracker)) [
  | inl (w, e) ↦ rw (e, leave) refl
  | inr (x, e) ↦ rw (e, leave) refl
]

single :
    (before after : List Job) (x : Job)
    → length (before ++ x ∷ after) ≤ 1
    → (before ≡ []) × (after ≡ [])
single [] [] x h = (refl, refl)
single [] (a ∷ rest) x h = absurd (omega (arith, h))
single (b ∷ []) after x h = absurd (omega (arith, h))
single (b ∷ c ∷ bs) after x h = absurd (omega (arith, h))

-- A group whose only holder's data could not be taken is blocked.
lost-IsBlocked :
    (t : System) (thread e : ℕ) (es : List ℕ) (active : Option ℕ) (before after : List Job)
    → IsValid t
    → t.shared.group ≡ exclusive es active
    → t.jobs ≡ before ++ record { thread = thread; entity = e; phase = accepted } ∷ after
    → length t.jobs ≤ 1
    → IsBlocked (record t {
      shared = (take_raised thread t.shared).1;
      jobs = before ++ record { thread = thread; entity = e; phase = lost } ∷ after;
    })
unfolding take_raised
lost-IsBlocked t thread e es active before after v g j one =
    let (b, a) = single before after _ (rw j at one) in
    record {
      active = e;
      entities = es;
      thread = thread;
      group = leave-group thread (ok tt) t.shared ∙ of_holder active g (rw (j, b, a) at v.held);
      jobs = rw (b, a) refl;
    }
  where
    of_holder :
        (o : Option ℕ)
        → t.shared.group ≡ exclusive es o
        → Holds t.shared.group (e ∷ [])
        → t.shared.group ≡ exclusive es (some e)
    of_holder none h held = let k : e ∷ [] ≡ [] = rw h at held in cc
    of_holder (some c) h held =
        let k : e ∷ [] ≡ c ∷ [] = rw h at held in h ∙ ap (exclusive es) (ap some cc)

can_execute_blocked :
    (f : ℕ) (g : CallbackGroup) (es : List ℕ) (a : ℕ)
    → g ≡ exclusive es (some a)
    → has_entity f g ≡ true
    → CallbackGroup.can_execute f g ≡ ok false
unfolding CallbackGroup.can_execute has_entity
can_execute_blocked f g es a h m = let m' : contains f es ≡ true = rw h at m in rw (h, m') refl

-- If taking the data of an entity raises after an exclusive group was given to its handler, then from
-- there on, whatever steps follow, the group stays with that handler: no entity of the group can execute.
pub take_raises_blocks :
    (s t u : System) (thread e : ℕ) (es : List ℕ) (active : Option ℕ) (before after : List Job)
    → IsFresh s
    → Reach s t
    → t.shared.group ≡ exclusive es active
    → t.jobs ≡ before ++ record { thread = thread; entity = e; phase = accepted } ∷ after
    → Reach
        (record t {
          shared = (take_raised thread t.shared).1;
          jobs = before ++ record { thread = thread; entity = e; phase = lost } ∷ after;
        })
        u
    → (f : ℕ) → has_entity f u.shared.group ≡ true
    → CallbackGroup.can_execute f u.shared.group ≡ ok false
take_raises_blocks s t u thread e es active before after f r g j later n m =
    let one = Reach-one s t es active f r g in
    let b =
      Reach-IsBlocked later
        (lost-IsBlocked t thread e es active before after (Reach-fresh s t f r) g j one) in
    can_execute_blocked n u.shared.group b.entities b.active b.group m
