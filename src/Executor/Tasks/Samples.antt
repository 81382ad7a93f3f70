-- ===== src/Executor/Tasks/Samples.antt =====
-- Four ready tasks: one of node 3, one that is finished, one of node 4, which is not in use, one of no node.
use rclpy.Prelude.{
  ℕ, ◌≡◌, inl, inr, refl, Bool, true, none, some, List, [], ◌∷◌, ◌++◌, ok, ◌==◌, nat_eq,
}
use rclpy.Dict
use rclpy.Executor.Tasks.{
  Tasks, Moment, visit, yield_ready, create_task, call_task_in_next_spin, drop_finished,
}
use rclpy.Executor.Tasks.Round.{
  AllKnown, IsKnown, Consistent, yields, left, yield_ready-fates, Consistent-operations,
}

abbrev table : Tasks
table = record {
  pending_tasks = record {
    entries =
        (1, record { source_node = some 3; source_entity = some 30 })
        ∷ (6, record { source_node = some 4; source_entity = some 40 })
        ∷ (8, record { source_node = none; source_entity = none })
        ∷ [];
  };
  ready_tasks = 1 ∷ 5 ∷ 6 ∷ 8 ∷ [];
  has_guard = true;
  triggers = 0;
}

abbrev is_five : ℕ → Bool
is_five t = t == 5

-- During the first round a task is appended.
abbrev moments : List Moment
moments =
    record { finished = is_five; appended = 9 ∷ [] }
    ∷ record { finished = is_five; appended = [] }
    ∷ record { finished = is_five; appended = [] }
    ∷ record { finished = is_five; appended = [] }
    ∷ []

yield_ready-table :
    yield_ready (3 ∷ []) table.pending_tasks moments table.ready_tasks
    ≡ ok (
      record { task = 1; entity = some 30; node = some 3 }
          ∷ record { task = 8; entity = none; node = none }
          ∷ [],
      9 ∷ 6 ∷ [],
    )
unfolding yield_ready visit Dict.get
yield_ready-table = refl

known : AllKnown table.pending_tasks table.ready_tasks moments
unfolding Dict.get
known = (inr refl, (inl refl, (inr refl, (inr refl, tt))))

yield_ready-fates_example :
    yield_ready (3 ∷ []) table.pending_tasks moments (table.ready_tasks ++ [])
    ≡ ok (
      yields (3 ∷ []) table.pending_tasks table.ready_tasks moments,
      left (3 ∷ []) table.pending_tasks table.ready_tasks moments,
    )
yield_ready-fates_example =
    yield_ready-fates (3 ∷ []) table.pending_tasks moments table.ready_tasks [] known

table-Consistent : Consistent is_five table
unfolding Dict.get
table-Consistent = (inr refl, (inl refl, (inr refl, (inr refl, tt))))

Consistent-operations_example :
    ((task : ℕ) → Consistent is_five (create_task task table))
    × ((task : ℕ)
        → IsKnown table.pending_tasks is_five task
        → Consistent is_five (call_task_in_next_spin task table))
    × Consistent is_five (record table {
      pending_tasks = drop_finished is_five (Dict.keys table.pending_tasks) table.pending_tasks;
    })
    × ((later : ℕ → Bool) → ((t : ℕ) → is_five t ≡ true → later t ≡ true) → Consistent later table)
Consistent-operations_example = Consistent-operations is_five table table-Consistent
