-- ===== src/Executor/Tasks/Round.antt =====
-- One round over the ready tasks (rclpy/rclpy/executors.py, `_wait_for_ready_callbacks`), and the table of tasks.
use rclpy.Prelude.{
  ℕ, ◌≡◌, ◌⊎◌, inl, inr, refl, sym, ap, ◌∙◌, Bool, true, false, Option, none, some, All, All-imp,
  All-append, List, [], ◌∷◌, ◌++◌, append_assoc, append-nil, Result, ok, ◌>>=◌, if◌then◌else◌,
  =?_refl, nat_eq, Bool-cases, Option-cases, ==-eq, ◌==◌,
}
use rclpy.Dict
use rclpy.Dict.{Dict, is_some}
use rclpy.Executor.Tasks.{
  TaskData, Tasks, Yield, Error, Moment, is_used, visit, yield_ready, call_task_in_next_spin,
  create_task, drop_finished,
}

-- A task that is finished or has an entry.
abbrev pub IsKnown : Dict ℕ TaskData → (ℕ → Bool) → ℕ → Type 0
IsKnown pending finished t = (finished t ≡ true) ⊎ (is_some (Dict.get pending t) ≡ true)

-- Each task is known at its moment.
abbrev pub AllKnown : Dict ℕ TaskData → List ℕ → List Moment → Type 0
AllKnown pending [] [] = Unit
AllKnown pending (t ∷ ts) (m ∷ ms) = IsKnown pending m.finished t × AllKnown pending ts ms
AllKnown pending _ _ = ⊥

-- What a task comes to.
pub data Fate : Type 0 where
  over : Fate
  yielded : Yield → Fate
  put_back : Fate

abbrev pub fate : List ℕ → Option TaskData → Bool → ℕ → Fate
fate nodes o true t = over
fate nodes none false t = over
fate nodes (some d) false t =
    if is_used nodes d.source_node
    then yielded (record { task = t; entity = d.source_entity; node = d.source_node })
    else put_back

abbrev pub yields_of : Fate → List Yield
yields_of (yielded y) = y ∷ []
yields_of _ = []

abbrev pub left_of : Fate → ℕ → List ℕ
left_of put_back t = t ∷ []
left_of _ t = []

-- What follows a round that yielded `ys`.
abbrev behind : List Yield → Result Error (List Yield × List ℕ) → Result Error (List Yield × List ℕ)
behind ys r = do rest ← r; ok (ys ++ rest.0, rest.1)

-- The tasks that are yielded in order, and those that are put back, each before what its moment appends.
module _ (nodes : List ℕ) (pending : Dict ℕ TaskData) where
  abbrev pub fate_at : ℕ → Moment → Fate
  fate_at t m = fate nodes (Dict.get pending t) (m.finished t) t

  abbrev pub yields : List ℕ → List Moment → List Yield
  yields (t ∷ ts) (m ∷ ms) = yields_of (fate_at t m) ++ yields ts ms
  yields _ _ = []

  abbrev pub left : List ℕ → List Moment → List ℕ
  left (t ∷ ts) (m ∷ ms) = (left_of (fate_at t m) t ++ m.appended) ++ left ts ms
  left _ _ = []

  visit-fate :
      (t : ℕ) (m : Moment)
      → IsKnown pending m.finished t
      → visit nodes pending m.finished t ≡ ok (yields_of (fate_at t m), left_of (fate_at t m) t)
  unfolding visit
  visit-fate t m k = elim (Bool-cases (m.finished t)) [
    | inl e ↦ rw (e, visit) refl
    | inr e ↦ elim (Option-cases (Dict.get pending t)) [
      | inl e' ↦ (let k' : (false ≡ true) ⊎ (false ≡ true) = rw (e, e') at k in absurd (neither k'))
      | inr (d, e') ↦ elim (Bool-cases (is_used nodes d.source_node)) [
        | inl u ↦ rw (e, e', u, visit) refl
        | inr u ↦ rw (e, e', u, visit) refl
      ]
    ]
  ]
    where
      neither : (false ≡ true) ⊎ (false ≡ true) → ⊥
      neither (inl h) = cc
      neither (inr h) = cc

  -- If each task that was ready at the start is finished or pending when its turn comes, then the loop over
  -- the ready tasks raises nothing. It yields exactly those that are not finished and belong to no node or to one in use,
  -- in order, and behind the tasks that were appended before there are then, in order, those that belong to
  -- another node, each in front of what was appended at its turn.
  pub yield_ready-fates :
      (ms : List Moment) (ts more : List ℕ)
      → AllKnown pending ts ms
      → yield_ready nodes pending ms (ts ++ more) ≡ ok (yields ts ms, more ++ left ts ms)
  unfolding yield_ready
  yield_ready-fates [] [] more k = ap (λ l. ok ([], l)) (sym (append-nil more))
  yield_ready-fates (m ∷ ms) (t ∷ ts) more k =
      let new = left_of (fate_at t m) t ++ m.appended in
      let rest : yield_ready nodes pending ms ((ts ++ more) ++ new)
          ≡ ok (yields ts ms, more ++ left (t ∷ ts) (m ∷ ms)) =
        ap (yield_ready nodes pending ms) (append_assoc ts more new)
        ∙ yield_ready-fates ms ts (more ++ new) k.1
        ∙ ap (λ l. ok (yields ts ms, l)) (append_assoc more new (left ts ms)) in
      rw (visit-fate t m k.0, yield_ready) (ap (behind (yields_of (fate_at t m))) rest)
  yield_ready-fates [] (t ∷ ts) more k = absurd k
  yield_ready-fates (m ∷ ms) [] more k = absurd k

-- The ready tasks are finished or pending.
abbrev pub Consistent : (ℕ → Bool) → Tasks → Type 0
Consistent finished ts = All (IsKnown ts.pending_tasks finished) ts.ready_tasks

IsKnown-drop :
    (finished : ℕ → Bool) (keys : List ℕ) (pending : Dict ℕ TaskData) (t : ℕ)
    → IsKnown pending finished t
    → IsKnown (drop_finished finished keys pending) finished t
unfolding drop_finished
IsKnown-drop finished [] pending t k = k
IsKnown-drop finished (j ∷ js) pending t k =
    IsKnown-drop finished js (if finished j then Dict.del pending j else pending) t
      (elim (Bool-cases (finished t)) [
        | inl e ↦ inl e
        | inr e ↦
            inr (kept (elim k [ inl h ↦ (let c : false ≡ true = sym e ∙ h in cc) | inr h ↦ h ]) e)
      ])
  where
    kept :
        is_some (Dict.get pending t) ≡ true
        → finished t ≡ false
        → is_some (Dict.get (if finished j then Dict.del pending j else pending) t) ≡ true
    kept h e = elim (Bool-cases (finished j)) [
      | inr f ↦ rw f h
      | inl f ↦ elim (Bool-cases (j == t)) [
        | inr d ↦ rw (f, Dict.get-del pending j t, d) h
        | inl d ↦ (let c : false ≡ true = sym e ∙ ap finished (sym (==-eq j t d)) ∙ f in cc)
      ]
    ]

-- Ready tasks stay finished or pending when a task is created, when a known task is called in the next spin,
-- when the finished tasks are dropped, and when more tasks are finished.
pub Consistent-operations :
    (finished : ℕ → Bool) (ts : Tasks)
    → Consistent finished ts
    → ((task : ℕ) → Consistent finished (create_task task ts))
      × ((task : ℕ)
          → IsKnown ts.pending_tasks finished task
          → Consistent finished (call_task_in_next_spin task ts))
      × Consistent finished (record ts {
        pending_tasks = drop_finished finished (Dict.keys ts.pending_tasks) ts.pending_tasks;
      })
      × ((later : ℕ → Bool) → ((t : ℕ) → finished t ≡ true → later t ≡ true) → Consistent later ts)
unfolding create_task call_task_in_next_spin
Consistent-operations finished ts c = (
  λ task.
      All-append _ ts.ready_tasks (task ∷ [])
        (All-imp _ _ ts.ready_tasks (λ t k. set_known task t k) c)
        (inr (rw (Dict.get-set ts.pending_tasks task task, =?_refl task) refl), tt),
  λ task k. All-append _ ts.ready_tasks (task ∷ []) c (k, tt),
  All-imp _ _ ts.ready_tasks (λ t k. IsKnown-drop finished _ ts.pending_tasks t k) c,
  λ later more.
      All-imp _ _ ts.ready_tasks (λ t k. elim k [ inl h ↦ inl (more t h) | inr h ↦ inr h ]) c,
)
  where
    set_known :
        (task t : ℕ)
        → IsKnown ts.pending_tasks finished t
        → IsKnown
            (Dict.set ts.pending_tasks task (record { source_node = none; source_entity = none }))
            finished
            t
    set_known task t (inl h) = inl h
    set_known task t (inr h) = elim (Bool-cases (task == t)) [
      | inl e ↦ inr (
          rw
            (
              Dict.get-set ts.pending_tasks task t
                  (record { source_node = none; source_entity = none }),
              e,
            )
            refl)
      | inr e ↦ inr (
          rw
            (
              Dict.get-set ts.pending_tasks task t
                  (record { source_node = none; source_entity = none }),
              e,
            )
            h)
    ]
