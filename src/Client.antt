-- ===== src/Client.antt =====
-- rclpy/rclpy/client.py, class Client, and what `Executor._take_client` does with a response. A request is known by
-- its sequence number, which the C library gives; a future object by a number of its own.
pub mod Requests
pub mod Response
mod Samples
use rclpy.Prelude.{
  ℕ, suc, Bool, true, false, Option, none, some, List, [], ◌∷◌, ◌++◌, Result, ok, err,
  if◌then◌else◌, ◌==◌, nat_eq,
}
use rclpy.Dict
use rclpy.Dict.{Dict, is_some}
use rclpy.Future
use rclpy.Future.{Future, Effect}

pub data Error : Type 0 where
  runtime_error key_error : Error

-- The client, and the future objects that it made.
pub record Client (V E : Type 0) : Type 0 where
  pub pending_requests : Dict ℕ ℕ
  pub futures : Dict ℕ (Future V E)
  pub next_future : ℕ

-- The done callback `self.remove_pending_request`, as a callback of a future.
abbrev pub remove_callback : ℕ
remove_callback = 0

-- The first key with a value: the loop over `items()`.
unfoldable pub find_key : ℕ → List (ℕ × ℕ) → Option ℕ
find_key future [] = none
find_key future ((seq, req_future) ∷ items) =
    let rest = find_key future items in if req_future == future then some seq else rest

module _ {V E : Type 0} where
  -- `call_async`, behind the type test, with the sequence number of the request that was sent.
  unfoldable pub call_async : ℕ → Client V E → Result Error ℕ × Client V E
  call_async sequence_number c =
      if is_some (Dict.get c.pending_requests sequence_number)
      then (err runtime_error, c)
      else let (future, _) = Future.add_done_callback remove_callback false (Future.new none) in
        (
          ok c.next_future,
          record {
            pending_requests = Dict.set c.pending_requests sequence_number c.next_future;
            futures = Dict.set c.futures c.next_future future;
            next_future = suc c.next_future;
          },
        )

  unfoldable pub get_pending_request : ℕ → Client V E → Result Error ℕ
  get_pending_request sequence_number c = elim (Dict.get c.pending_requests sequence_number) [
    | none ↦ err key_error
    | some future ↦ ok future
  ]

  unfoldable pub remove_pending_request : ℕ → Client V E → Client V E
  remove_pending_request future c = elim (find_key future c.pending_requests.entries) [
    | none ↦ c
    | some seq ↦ record c { pending_requests = Dict.del c.pending_requests seq }
  ]

  -- The `_execute` of `_take_client`, for a response that was taken: its future gets the executor and the result. The
  -- future object is there, since the dictionary holds it.
  unfoldable pub take_response : ℕ → V → ℕ → Client V E → Client V E × List Effect
  take_response sequence_number response executor c = elim (get_pending_request sequence_number c) [
    | err _ ↦ (c, [])
    | ok future ↦ elim (Dict.get c.futures future) [
      | none ↦ (c, [])
      | some f ↦
          let (f', effects) = Future.set_result response (Future.set_executor (some executor) f) in
          (record c { futures = Dict.set c.futures future f' }, effects)
    ]
  ]
