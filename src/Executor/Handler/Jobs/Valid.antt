-- ===== src/Executor/Handler/Jobs/Valid.antt =====
-- The valid states of the handlers of a group (rclpy/rclpy/executors.py), and single operations in them.
use rclpy.Prelude.{
  ℕ, suc, ◌≡◌, inl, inr, refl, ap, ◌∙◌, Bool, true, false, not, ◌&&◌, ◌||◌, none, some, All, nat_eq,
  List, [], ◌∷◌, ◌++◌, Result, ok, err, Bool-cases, arith, contains,
}
use rclpy.Dict
use rclpy.Dict.{is_some}
use rclpy.CallbackGroup.{
  CallbackGroup, reentrant, exclusive, entities, has_entity, add_entity, ending_execution,
}
use rclpy.CallbackGroup.Laws.{Holds, ending-Holds}
use rclpy.Executor.WorkTracker.{WorkTracker, Counts, exit, wait_enter, wait_exit}
use rclpy.Executor.WorkTracker.Drain.{exit-Counts}
use rclpy.Executor.Handler.{trigger, invalid_handle, Shared, Error, leave, end_handler}
use rclpy.Executor.Handler.Jobs.{
  Phase, accepted, calling, lost, Job, System, holders, owned, owners,
}

abbrev job : ℕ → ℕ → Phase → Job
job t e p = record { thread = t; entity = e; phase = p }

-- The group is held by the jobs, the tracker counts those inside their contexts, and the handlers that
-- wait are for entities of the group.
pub record IsValid (s : System) : Type 0 where
  pub held : Holds s.shared.group (holders s.jobs)
  pub counts : Counts s.shared.work_tracker (owners s.jobs)
  pub members : All (λ q. has_entity q.0 s.shared.group ≡ true) s.queued

pub holders-append : (xs ys : List Job) → holders (xs ++ ys) ≡ holders xs ++ holders ys
holders-append [] ys = refl
holders-append (x ∷ xs) ys = ap (λ l. x.entity ∷ l) (holders-append xs ys)

owned-append : (p : Phase) (t : ℕ) (xs ys : List ℕ) → owned p t (xs ++ ys) ≡ owned p t xs ++ ys
owned-append lost t xs ys = refl
owned-append accepted t xs ys = refl
owned-append calling t xs ys = refl

pub owners-append : (xs ys : List Job) → owners (xs ++ ys) ≡ owners xs ++ owners ys
owners-append [] ys = refl
owners-append (x ∷ xs) ys =
    ap (owned x.phase x.thread) (owners-append xs ys)
    ∙ owned-append x.phase x.thread (owners xs) (owners ys)

-- Only the counts matter, not who waits.
pub Counts-wait_enter :
    (t : ℕ) (w : WorkTracker) (os : List ℕ) → Counts w os → Counts (wait_enter t w).1 os
unfolding wait_enter
Counts-wait_enter t w os c = elim (Bool-cases (contains t w.waiting_threads)) [
  | inl e ↦ rw e c
  | inr e ↦ rw e (record { at = c.at })
]

pub Counts-wait_exit :
    (t : ℕ) (added drained : Bool) (w : WorkTracker) (os : List ℕ)
    → Counts w os
    → Counts (wait_exit t added drained w) os
unfolding wait_exit
Counts-wait_exit t added drained w os c =
    elim (Bool-cases
      (added && (not drained || not (is_some (Dict.get w.executing_thread_counts t))))) [
        | inl e ↦ rw e (record { at = c.at })
        | inr e ↦ rw e c
      ]

-- An added entity changes neither the holders nor who is a member already.
pub Holds-add_entity :
    (e : ℕ) (g : CallbackGroup) (hs : List ℕ) → Holds g hs → Holds (add_entity e g) hs
unfolding add_entity
Holds-add_entity e (reentrant es) hs h = tt
Holds-add_entity e (exclusive es none) hs h = h
Holds-add_entity e (exclusive es (some b)) hs h = h

pub has_entity-add_entity :
    (f e : ℕ) (g : CallbackGroup) → has_entity f g ≡ true → has_entity f (add_entity e g) ≡ true
unfolding has_entity add_entity
has_entity-add_entity f e (reentrant es) h = elim (Bool-cases (contains e es)) [
  | inl c ↦ rw c h
  | inr c ↦ rw c (ground (arith, h))
]
has_entity-add_entity f e (exclusive es a) h = elim (Bool-cases (contains e es)) [
  | inl c ↦ rw c h
  | inr c ↦ rw c (ground (arith, h))
]

pub has_entity-entities :
    (f : ℕ) (g g' : CallbackGroup)
    → entities g' ≡ entities g
    → has_entity f g ≡ true
    → has_entity f g' ≡ true
unfolding has_entity
has_entity-entities f g g' e h = rw e h

-- What leaving the tracker does to the shared state, if the owner is counted.
pub leave_lem :
    (owner : ℕ) (r : Result Error (Unit {0})) (s : Shared) (w : WorkTracker)
    → exit owner s.work_tracker ≡ ok w
    → leave owner r s ≡ (r, record s { work_tracker = w })
unfolding leave
leave_lem owner r s w e = rw (e, leave) refl

pub trigger-group : (s : Shared) → (trigger s).1.group ≡ s.group
unfolding trigger
trigger-group s = ground arith

pub trigger-ok :
    (s : Shared)
    → s.guard_destroyed ≡ false
    → trigger s ≡ (ok tt, record s { triggers = suc s.triggers })
unfolding trigger
trigger-ok s d = ground arith

pub trigger-gone : (s : Shared) → s.guard_destroyed ≡ true → trigger s ≡ (err invalid_handle, s)
unfolding trigger
trigger-gone s d = ground arith

pub trigger-tracker : (s : Shared) → (trigger s).1.work_tracker ≡ s.work_tracker
unfolding trigger
trigger-tracker s = ground arith

-- A callback that ends in a valid state leaves its group and the tracker, and nothing is raised.
pub end_handler-ok :
    (t e : ℕ) (s : Shared) (before after : List ℕ) (xs ys : List ℕ)
    → Holds s.group (before ++ e ∷ after)
    → Counts s.work_tracker (xs ++ t ∷ ys)
    → let (r, s') = end_handler t e s in
      (r ≡ ok tt)
      × (entities s'.group ≡ entities s.group)
      × Holds s'.group (before ++ after)
      × Counts s'.work_tracker (xs ++ ys)
unfolding end_handler
end_handler-ok t e s before after xs ys h c =
    let (r, same, held) = ending-Holds e s.group before after h in
    let (w, left, counts) = exit-Counts t s.work_tracker xs ys c in
    let given : Shared = record s { group = (ending_execution e s.group).1 } in
    rw (r, end_handler)
      (rw (leave_lem t (ok tt) (trigger given).1 w (ap (exit t) (trigger-tracker given) ∙ left))
        (refl, ap entities (trigger-group given) ∙ same, rw (trigger-group given) held, counts))
