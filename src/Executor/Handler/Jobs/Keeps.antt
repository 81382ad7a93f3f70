-- ===== src/Executor/Handler/Jobs/Keeps.antt =====
-- The steps of the handlers (rclpy/rclpy/executors.py, `_make_handler`) and their valid states.
use rclpy.Prelude.{
  ℕ, ◌≡◌, ◌⊎◌, inl, inr, refl, sym, ap, ◌∙◌, Bool, true, false, All-append, All-imp, All-split,
  append-nil, List, [], ◌∷◌, ◌++◌, Result, ok, err, suc, Bool-cases,
}
use rclpy.CallbackGroup.{CallbackGroup, beginning_execution, entities, has_entity}
use rclpy.CallbackGroup.Laws.{Holds, beginning_cases}
use rclpy.Executor.WorkTracker.{Counts}
use rclpy.Executor.WorkTracker.Drain.{enter-Counts, exit-Counts}
use rclpy.Executor.Handler.{
  trigger, refuse, clear, leave, invalid_handle, Shared, Error, make_handler, begin_handler, taken,
  take_raised, end_handler,
}
use rclpy.Executor.Handler.Jobs.{
  Phase, accepted, calling, lost, Job, System, admitted, Step, add, make, begin, take, take_stops,
  destroy_guard, take_raises, finish, shut_down, wait, wait_ends, holders, owners,
}
use rclpy.Executor.Handler.Jobs.Valid.{
  trigger-ok, trigger-gone, IsValid, holders-append, owners-append, Counts-wait_enter,
  Counts-wait_exit, Holds-add_entity, has_entity-add_entity, has_entity-entities, leave_lem,
  end_handler-ok,
}

-- The two ways in which a handler of a member starts.
abbrev pub Started : ℕ → ℕ → Shared → List ℕ → List ℕ → Result Error Bool × Shared → Type 0
Started t e s hs os (r, s') =
    (entities s'.group ≡ entities s.group)
    × (((r ≡ ok true) × Holds s'.group (hs ++ e ∷ []) × Counts s'.work_tracker (os ++ t ∷ []))
        ⊎ (((r ≡ ok false) ⊎ ((s.guard_destroyed ≡ true) × (r ≡ err invalid_handle)))
            × Holds s'.group hs
            × Counts s'.work_tracker os))

-- A handler that does not go on changes the group as it is told, and raises only for a destroyed guard.
pub refuse-ends :
    (e : ℕ) (g : CallbackGroup) (s : Shared)
    → ((refuse e g s).1.group ≡ g)
      × ((refuse e g s).1.work_tracker ≡ s.work_tracker)
      × (((refuse e g s).0 ≡ ok false)
          ⊎ ((s.guard_destroyed ≡ true) × ((refuse e g s).0 ≡ err invalid_handle)))
unfolding refuse trigger
refuse-ends e g s = elim (Bool-cases s.guard_destroyed) [
  | inl d ↦ rw (d, refuse) (refl, refl, inr (refl, refl))
  | inr d ↦ rw (d, refuse) (refl, refl, inl refl)
]

pub begin_handler-Started :
    (t e : ℕ) (stop : Bool) (s : Shared) (hs os : List ℕ)
    → has_entity e s.group ≡ true
    → Holds s.group hs
    → Counts s.work_tracker os
    → Started t e s hs os (begin_handler t e stop s)
unfolding begin_handler
begin_handler-Started t e true s hs os m h c =
    let (g, w, ends) = refuse-ends e s.group s in (ap entities g, inr (ends, rw g h, rw w c))
begin_handler-Started t e false s hs os m h c =
    let (same, ends) = beginning_cases e s.group hs m h in
    elim ends [
      | inl (r, held) ↦
          rw (r, begin_handler)
            (same, inl (refl, held, enter-Counts t s.work_tracker os [] (rw (append-nil os) c)))
      | inr (r, g, _) ↦
          let (g', w, stops) = refuse-ends e (beginning_execution e s.group).1 s in
          rw (r, begin_handler) (ap entities g' ∙ same, inr (stops, rw (g', g) h, rw w c))
    ]

-- A changed phase that leaves the holders and the owners alone.
holders-replace :
    (xs ys : List Job) (a b : Job)
    → a.entity ≡ b.entity
    → holders (xs ++ a ∷ ys) ≡ holders (xs ++ b ∷ ys)
holders-replace [] ys a b e = ap (λ n. n ∷ holders ys) e
holders-replace (x ∷ xs) ys a b e = ap (λ l. x.entity ∷ l) (holders-replace xs ys a b e)

begin-IsValid :
    (s : System) (t e : ℕ) (stop : Bool) (before after : List (ℕ × Bool))
    → s.queued ≡ before ++ (e, stop) ∷ after
    → IsValid s
    → IsValid (record {
      shared = (begin_handler t e stop s.shared).1;
      queued = before ++ after;
      jobs = admitted t e (begin_handler t e stop s.shared).0 s.jobs;
    })
begin-IsValid s t e stop before after q v =
    let split =
      All-split (λ (f : ℕ × Bool). has_entity f.0 s.shared.group ≡ true) before (e, stop) after
        (rw q at v.members) in
    let (same, ends) =
      begin_handler-Started t e stop s.shared (holders s.jobs) (owners s.jobs) split.0 v.held
        v.counts in
    let members =
      All-imp (λ (f : ℕ × Bool). has_entity f.0 s.shared.group ≡ true)
        (λ f. has_entity f.0 (begin_handler t e stop s.shared).1.group ≡ true) (before ++ after)
        (λ f m. has_entity-entities f.0 _ _ same m) split.1 in
    elim ends [
      | inl (r, held, counts) ↦ rw r (record {
        held =
            rw (holders-append s.jobs (record { thread = t; entity = e; phase = accepted } ∷ []))
              held;
        counts =
            rw (owners-append s.jobs (record { thread = t; entity = e; phase = accepted } ∷ []))
              counts;
        members = members;
      })
      | inr (stops, held, counts) ↦ elim stops [
        | inl r ↦ rw r (record { held = held; counts = counts; members = members })
        | inr (_, r) ↦ rw r (record { held = held; counts = counts; members = members })
      ]
    ]

make-IsValid :
    (s : System) (e : ℕ)
    → has_entity e s.shared.group ≡ true
    → IsValid s
    → IsValid (record s {
      shared = (make_handler e s.shared).1;
      queued = s.queued ++ (e, (make_handler e s.shared).0) ∷ [];
    })
unfolding make_handler
make-IsValid s e m v = record {
  held = v.held;
  counts = v.counts;
  members = All-append _ s.queued ((e, s.shared.is_shutdown) ∷ []) v.members (m, tt);
}

module _ (t e : ℕ) (s : System) (before after : List Job) (v : IsValid s) where
  -- The jobs after the data were taken.
  abbrev with_phase : Phase → List Job
  with_phase p = before ++ record { thread = t; entity = e; phase = p } ∷ after

  owners-calling : owners (with_phase accepted) ≡ owners (with_phase calling)
  owners-calling =
      owners-append before (record { thread = t; entity = e; phase = accepted } ∷ after)
      ∙ sym (owners-append before (record { thread = t; entity = e; phase = calling } ∷ after))

  pub taken-ok :
      s.shared.guard_destroyed ≡ false
      → taken t e s.shared ≡ (
        ok tt,
        record s.shared {
          executor_events = clear e s.shared.executor_events;
          triggers = suc s.shared.triggers;
        },
      )
  unfolding taken
  taken-ok d =
      let cleared : Shared = record s.shared {
        executor_events = clear e s.shared.executor_events;
      } in
      rw (trigger-ok cleared d, taken)
        (ap (λ (x : Result Error (Unit {0}) × Shared). (ok tt, x.1)) (trigger-ok cleared d))

  pub taken-gone :
      s.shared.guard_destroyed ≡ true
      → taken t e s.shared
        ≡ leave t
            (err invalid_handle)
            (record s.shared { executor_events = clear e s.shared.executor_events })
  unfolding taken
  taken-gone d =
      let cleared : Shared = record s.shared {
        executor_events = clear e s.shared.executor_events;
      } in
      rw (trigger-gone cleared d, taken)
        (ap (λ (x : Result Error (Unit {0}) × Shared). leave t (err invalid_handle) x.1)
          (trigger-gone cleared d))

  take-IsValid :
      s.jobs ≡ with_phase accepted
      → s.shared.guard_destroyed ≡ false
      → IsValid (record s { shared = (taken t e s.shared).1; jobs = with_phase calling })
  take-IsValid j d = rw (taken-ok d) (record {
    held =
        rw
          (holders-replace before after (record { thread = t; entity = e; phase = calling })
            (record { thread = t; entity = e; phase = accepted }) refl)
          (rw j at v.held);
    counts = rw (← owners-calling) (rw j at v.counts);
    members = v.members;
  })

  -- The handler leaves the work tracker before the `try`.
  leaves-IsValid :
      (r : Result Error (Unit {0})) (events : List ℕ)
      → s.jobs ≡ with_phase accepted
      → let left = leave t r (record s.shared { executor_events = events }) in
        (left.0 ≡ r) × IsValid (record s { shared = left.1; jobs = with_phase lost })
  leaves-IsValid r events j =
      let c : Counts s.shared.work_tracker (owners before ++ t ∷ owners after) =
        rw
          (
            ← owners-append before (record { thread = t; entity = e; phase = accepted } ∷ after),
            ← j,
          )
          v.counts in
      let (w, left, counts) =
        exit-Counts t s.shared.work_tracker (owners before) (owners after) c in
      rw (leave_lem t r (record s.shared { executor_events = events }) w left) (
        refl,
        record {
          held =
              rw
                (holders-replace before after (record { thread = t; entity = e; phase = lost })
                  (record { thread = t; entity = e; phase = accepted }) refl)
                (rw j at v.held);
          counts =
              rw (owners-append before (record { thread = t; entity = e; phase = lost } ∷ after))
                counts;
          members = v.members;
        },
      )

  take_raises-IsValid :
      s.jobs ≡ with_phase accepted
      → IsValid (record s { shared = (take_raised t s.shared).1; jobs = with_phase lost })
  unfolding take_raised
  take_raises-IsValid j = (leaves-IsValid (ok tt) s.shared.executor_events j).1

  take_stops-IsValid :
      s.jobs ≡ with_phase accepted
      → s.shared.guard_destroyed ≡ true
      → IsValid (record s { shared = (taken t e s.shared).1; jobs = with_phase lost })
  take_stops-IsValid j d =
      rw (taken-gone d) (leaves-IsValid (err invalid_handle) (clear e s.shared.executor_events) j).1

  -- Behind the data, only a destroyed guard condition makes the handler raise.
  pub taken-ends :
      s.jobs ≡ with_phase accepted
      → ((taken t e s.shared).0 ≡ ok tt)
        ⊎ ((s.shared.guard_destroyed ≡ true) × ((taken t e s.shared).0 ≡ err invalid_handle))
  taken-ends j = elim (Bool-cases s.shared.guard_destroyed) [
    | inr d ↦ inl (rw (taken-ok d) refl)
    | inl d ↦ inr (
      d,
      rw (taken-gone d)
          (leaves-IsValid (err invalid_handle) (clear e s.shared.executor_events) j).0,
    )
  ]

  -- What a job at its callback finds when it ends.
  pub finish-ok :
      s.jobs ≡ with_phase calling
      → let (r, s') = end_handler t e s.shared in
        (r ≡ ok tt)
        × (entities s'.group ≡ entities s.shared.group)
        × Holds s'.group (holders before ++ holders after)
        × Counts s'.work_tracker (owners before ++ owners after)
  finish-ok j =
      end_handler-ok t e s.shared (holders before) (holders after) (owners before) (owners after)
        (rw
          (
            ← holders-append before (record { thread = t; entity = e; phase = calling } ∷ after),
            ← j,
          )
          v.held)
        (rw
          (← owners-append before (record { thread = t; entity = e; phase = calling } ∷ after), ← j)
          v.counts)

  finish-IsValid :
      s.jobs ≡ with_phase calling
      → IsValid (record s { shared = (end_handler t e s.shared).1; jobs = before ++ after })
  finish-IsValid j =
      let (r, same, held, counts) = finish-ok j in
      record {
        held = rw (holders-append before after) held;
        counts = rw (owners-append before after) counts;
        members = All-imp _ _ s.queued (λ f m. has_entity-entities f.0 _ _ same m) v.members;
      }

-- Every step keeps the handlers valid.
pub Step-keeps : {s u : System} → Step s u → IsValid s → IsValid u
Step-keeps (add s e) v = record {
  held = Holds-add_entity e s.shared.group (holders s.jobs) v.held;
  counts = v.counts;
  members = All-imp _ _ s.queued (λ f m. has_entity-add_entity f.0 e s.shared.group m) v.members;
}
Step-keeps (make s e m c) v = make-IsValid s e m v
Step-keeps (begin s t e stop before after q) v = begin-IsValid s t e stop before after q v
Step-keeps (take s t e before after j d) v = take-IsValid t e s before after v j d
Step-keeps (take_stops s t e before after j d) v = take_stops-IsValid t e s before after v j d
Step-keeps (destroy_guard s) v = record { held = v.held; counts = v.counts; members = v.members }
Step-keeps (take_raises s t e before after j) v = take_raises-IsValid t e s before after v j
Step-keeps (finish s t e before after j) v = finish-IsValid t e s before after v j
Step-keeps (shut_down s) v = record { held = v.held; counts = v.counts; members = v.members }
Step-keeps (wait s t) v = record {
  held = v.held;
  counts = Counts-wait_enter t s.shared.work_tracker (owners s.jobs) v.counts;
  members = v.members;
}
Step-keeps (wait_ends s t added drained) v = record {
  held = v.held;
  counts = Counts-wait_exit t added drained s.shared.work_tracker (owners s.jobs) v.counts;
  members = v.members;
}
