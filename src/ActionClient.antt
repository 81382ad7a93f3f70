-- ===== src/ActionClient.antt =====
-- rclpy/rclpy/action/client.py, class ActionClient. Its three tables of pending requests are those of a `Client`, with
-- the sequence numbers that the C library gives. Goal ids, goal handles, feedback callbacks and futures are numbers;
-- `R` and `C` are the responses about results and cancelling. The feedback filter of the C library, whose exceptions
-- are only logged, and calls of callbacks are effects. The list of futures that the base class Waitable keeps, by which
-- the executor gets to the futures, is left to `take_response`, which gives a future the executor as it is answered.
pub mod Valid
pub mod Feedback
pub mod Rejected
pub mod Runs
mod Samples
use rclpy.Prelude.{
  ℕ, suc, Bool, true, false, ◌||◌, Option, none, some, List, [], ◌∷◌, ◌++◌, map, Result, ok, err,
  if◌then◌else◌, ◌==◌, nat_eq, remove,
}
use rclpy.Dict
use rclpy.Dict.{Dict, is_some}
use rclpy.Future
use rclpy.Client
use rclpy.Client.{Client, call_async, find_key, remove_pending_request, take_response}

pub data Error : Type 0 where
  runtime_error key_error : Error

-- `ClientGoalHandle`
pub record GoalHandle : Type 0 where
  pub goal_id : ℕ
  pub accepted : Bool
  pub status : ℕ

pub data Effect : Type 0 where
  -- what finishing a future does
  future : Future.Effect → Effect
  filter_add filter_remove : ℕ → Effect
  -- a feedback callback gets a message
  feedback : ℕ → ℕ → Effect

pub record ActionClient (R C E : Type 0) : Type 0 where
  -- `weakref`s, whose objects are in `handles` as long as they are alive
  pub goal_handles : Dict ℕ ℕ
  pub pending_goal_requests : Client ℕ E
  pub goal_sequence_number_to_goal_id : Dict ℕ ℕ
  pub pending_cancel_requests : Client C E
  pub pending_result_requests : Client R E
  pub result_sequence_number_to_goal_id : Dict ℕ ℕ
  pub feedback_callbacks : Dict ℕ ℕ
  pub enable_feedback_msg_optimization : Bool
  pub handles : Dict ℕ GoalHandle
  pub next_handle : ℕ

-- `GoalStatus`
abbrev pub status_unknown : ℕ
status_unknown = 0

abbrev pub is_done_status : ℕ → Bool
is_done_status status = status == 4 || status == 5 || status == 6

-- Where the optimization is on.
abbrev pub filtered : Bool → Effect → List Effect
filtered enabled effect = if enabled then effect ∷ [] else []

abbrev pub drop_key : Option ℕ → Dict ℕ ℕ → Dict ℕ ℕ
drop_key none d = d
drop_key (some k) d = if is_some (Dict.get d k) then Dict.del d k else d

abbrev pub no_requests : {V E : Type 0} → Client V E
no_requests = record { pending_requests = Dict.empty; futures = Dict.empty; next_future = 0 }

module _ {R C E : Type 0} where
  -- `__init__`
  unfoldable pub new : Bool → ActionClient R C E
  new enable_feedback_msg_optimization = record {
    goal_handles = Dict.empty;
    pending_goal_requests = no_requests;
    goal_sequence_number_to_goal_id = Dict.empty;
    pending_cancel_requests = no_requests;
    pending_result_requests = no_requests;
    result_sequence_number_to_goal_id = Dict.empty;
    feedback_callbacks = Dict.empty;
    enable_feedback_msg_optimization = enable_feedback_msg_optimization;
    handles = Dict.empty;
    next_handle = 0;
  }

  -- `send_goal_async`, behind the type test, with the sequence number of the request that was sent.
  unfoldable pub send_goal_async :
      ℕ → ℕ → Option ℕ → ActionClient R C E → Result Error ℕ × ActionClient R C E
  send_goal_async sequence_number goal_id feedback_callback c =
      let called = call_async sequence_number c.pending_goal_requests in
      elim called.0 [
        | err _ ↦ (err runtime_error, c)
        | ok f ↦ (
          ok f,
          record c {
            pending_goal_requests = called.1;
            goal_sequence_number_to_goal_id =
                Dict.set c.goal_sequence_number_to_goal_id sequence_number goal_id;
            feedback_callbacks = elim feedback_callback [
              | none ↦ c.feedback_callbacks
              | some callback ↦ Dict.set c.feedback_callbacks goal_id callback
            ];
          },
        )
      ]

  -- `_cancel_goal_async`, likewise.
  unfoldable pub cancel_goal_async :
      ℕ → ℕ → ActionClient R C E → Result Error ℕ × ActionClient R C E × List Effect
  cancel_goal_async sequence_number goal_id c =
      let called = call_async sequence_number c.pending_cancel_requests in
      elim called.0 [
        | err _ ↦ (err runtime_error, c, [])
        | ok f ↦ (
          ok f,
          record c { pending_cancel_requests = called.1 },
          filtered c.enable_feedback_msg_optimization (filter_remove goal_id),
        )
      ]

  -- `_get_result_async`, likewise.
  unfoldable pub get_result_async : ℕ → ℕ → ActionClient R C E → Result Error ℕ × ActionClient R C E
  get_result_async sequence_number goal_id c =
      let called = call_async sequence_number c.pending_result_requests in
      elim called.0 [
        | err _ ↦ (err runtime_error, c)
        | ok f ↦ (
          ok f,
          record c {
            pending_result_requests = called.1;
            result_sequence_number_to_goal_id =
                Dict.set c.result_sequence_number_to_goal_id sequence_number goal_id;
          },
        )
      ]

  -- `_remove_pending_goal_request`, a done callback of the futures of goal requests. The two tables change one after
  -- the other and no lock is held; here, as on one thread, no other method runs in between.
  unfoldable pub remove_pending_goal_request : ℕ → ActionClient R C E → ActionClient R C E
  remove_pending_goal_request f c =
      let seq = find_key f c.pending_goal_requests.pending_requests.entries in
      record c {
        pending_goal_requests = remove_pending_request f c.pending_goal_requests;
        goal_sequence_number_to_goal_id = drop_key seq c.goal_sequence_number_to_goal_id;
      }

  unfoldable pub remove_pending_cancel_request : ℕ → ActionClient R C E → ActionClient R C E
  remove_pending_cancel_request f c = record c {
    pending_cancel_requests = remove_pending_request f c.pending_cancel_requests;
  }

  -- `_remove_pending_result_request`, which forgets the goal's feedback callback too.
  unfoldable pub remove_pending_result_request :
      ℕ → ActionClient R C E → ActionClient R C E × List Effect
  remove_pending_result_request f c =
      let removed = remove_pending_request f c.pending_result_requests in
      elim (find_key f c.pending_result_requests.pending_requests.entries) [
        | none ↦ (record c { pending_result_requests = removed }, [])
        | some seq ↦ elim (Dict.get c.result_sequence_number_to_goal_id seq) [
          | none ↦ (record c { pending_result_requests = removed }, [])
          | some goal_uuid ↦ (
            record c {
              pending_result_requests = removed;
              result_sequence_number_to_goal_id = Dict.del c.result_sequence_number_to_goal_id seq;
              feedback_callbacks = drop_key (some goal_uuid) c.feedback_callbacks;
            },
            filtered c.enable_feedback_msg_optimization (filter_remove goal_uuid),
          )
        ]
      ]

  -- `execute`, the response to a goal request, taken with its sequence number. No other method runs between the test
  -- and the lookup, as on one thread.
  unfoldable pub execute_goal :
      ℕ → Bool → ℕ → ActionClient R C E → Result Error (List Effect) × ActionClient R C E
  execute_goal sequence_number accepted executor c =
      elim (Dict.get c.goal_sequence_number_to_goal_id sequence_number) [
        | none ↦ (ok [], c)
        | some goal_uuid ↦
            let made = record c {
              handles =
                  Dict.set c.handles c.next_handle
                    (record { goal_id = goal_uuid; accepted = accepted; status = status_unknown });
              next_handle = suc c.next_handle;
            } in
            let answered =
              take_response sequence_number c.next_handle executor c.pending_goal_requests in
            let tracked =
              if accepted
              then Dict.set c.goal_handles goal_uuid c.next_handle
              else c.goal_handles in
            let filter =
              if accepted
              then filtered c.enable_feedback_msg_optimization (filter_add goal_uuid)
              else [] in
            let twice = if accepted then is_some (Dict.get c.goal_handles goal_uuid) else false in
            if twice
            then (err runtime_error, made)
            else if is_some (Dict.get c.pending_goal_requests.pending_requests sequence_number)
            then (
              ok (filter ++ map future answered.1),
              record made { goal_handles = tracked; pending_goal_requests = answered.0 },
            )
            else (err key_error, record made { goal_handles = tracked })
      ]

  unfoldable pub execute_cancel : ℕ → C → ℕ → ActionClient R C E → List Effect × ActionClient R C E
  execute_cancel sequence_number cancel_response executor c =
      let answered =
        take_response sequence_number cancel_response executor c.pending_cancel_requests in
      (map future answered.1, record c { pending_cancel_requests = answered.0 })

  unfoldable pub execute_result : ℕ → R → ℕ → ActionClient R C E → List Effect × ActionClient R C E
  execute_result sequence_number result_response executor c =
      let answered =
        take_response sequence_number result_response executor c.pending_result_requests in
      (map future answered.1, record c { pending_result_requests = answered.0 })

  unfoldable pub execute_feedback : ℕ → ℕ → ActionClient R C E → List Effect
  execute_feedback goal_uuid msg c = elim (Dict.get c.feedback_callbacks goal_uuid) [
    | none ↦ []
    | some callback ↦ feedback callback msg ∷ []
  ]

  -- One round of the loop over the status messages.
  unfoldable pub execute_one_status : ℕ → ℕ → ActionClient R C E → List Effect × ActionClient R C E
  execute_one_status goal_uuid status c = elim (Dict.get c.goal_handles goal_uuid) [
    | none ↦ ([], c)
    | some weak ↦ elim (Dict.get c.handles weak) [
      | none ↦ ([], record c { goal_handles = Dict.del c.goal_handles goal_uuid })
      | some handle ↦
          let told = Dict.set c.handles weak (record handle { status = status }) in
          if is_done_status status
          then (
            filtered c.enable_feedback_msg_optimization (filter_remove goal_uuid),
            record c { handles = told; goal_handles = Dict.del c.goal_handles goal_uuid },
          )
          else ([], record c { handles = told })
    ]
  ]

  unfoldable pub execute_status :
      List (ℕ × ℕ) → ActionClient R C E → List Effect × ActionClient R C E
  unfolding execute_one_status
  execute_status [] c = ([], c)
  execute_status ((goal_uuid, status) ∷ status_list) c =
      let one = execute_one_status goal_uuid status c in
      let rest = execute_status status_list one.1 in (one.0 ++ rest.0, rest.1)

-- What `take_data` took.
pub record TakenData (R C : Type 0) : Type 0 where
  pub goal : Option (ℕ × Bool)
  pub cancel : Option (ℕ × C)
  pub result : Option (ℕ × R)
  pub feedback_msg : Option (ℕ × ℕ)
  pub status : Option (List (ℕ × ℕ))

-- `if key in taken_data`
abbrev pub where_taken {ℓ κ} : {A : Type ℓ} {B : Type κ} → Option A → B → (A → B) → B
where_taken none skipped act = skipped
where_taken (some a) skipped act = act a

module _ {R C E : Type 0} where
  -- `execute` behind the goal response.
  unfoldable pub execute_rest :
      TakenData R C → ℕ → ActionClient R C E → List Effect × ActionClient R C E
  unfolding execute_cancel execute_result execute_feedback execute_status
  execute_rest taken executor c =
      let cancelled = where_taken taken.cancel ([], c) (λ r. execute_cancel r.0 r.1 executor c) in
      let finished =
        where_taken taken.result ([], cancelled.1)
          (λ r. execute_result r.0 r.1 executor cancelled.1) in
      let fed = where_taken taken.feedback_msg [] (λ m. execute_feedback m.0 m.1 finished.1) in
      let told = where_taken taken.status ([], finished.1) (λ l. execute_status l finished.1) in
      (cancelled.0 ++ (finished.0 ++ (fed ++ told.0)), told.1)

  -- `execute`
  unfoldable pub execute :
      TakenData R C → ℕ → ActionClient R C E → Result Error (List Effect) × ActionClient R C E
  unfolding execute_goal execute_rest
  execute taken executor c =
      let answered = where_taken taken.goal (ok [], c) (λ g. execute_goal g.0 g.1 executor c) in
      elim answered.0 [
        | err e ↦ (err e, answered.1)
        | ok effects ↦
            let rest = execute_rest taken executor answered.1 in (ok (effects ++ rest.0), rest.1)
      ]
