-- ===== src/Client/Samples.antt =====
-- A client with one pending request, and a second one.
use rclpy.Prelude.{
  ℕ, ◌≡◌, refl, true, false, none, some, String, [], ◌∷◌, ok, err, ◌==◌, if◌then◌else◌, nat_eq,
  arith,
}
use rclpy.Client
use rclpy.Dict
use rclpy.Future
use rclpy.Future.{Future, pending, create_task, callback}
use rclpy.Client.{
  Client, remove_callback, call_async, get_pending_request, remove_pending_request, take_response,
  find_key,
}
use rclpy.Client.Requests.{IsValid}
use rclpy.Client.Response.{operations-IsValid, call_async-response}

abbrev open_future : Future ℕ String
open_future = record {
  state = pending;
  result = none;
  exception = none;
  exception_fetched = false;
  callbacks = callback 0 ∷ [];
  executor = none;
}

abbrev client : Client ℕ String
client = record {
  pending_requests = record { entries = (10, 0) ∷ [] };
  futures = record { entries = (0, open_future) ∷ [] };
  next_future = 1;
}

-- What is pending in it.
entry : (k : ℕ) → Dict.get client.pending_requests k ≡ (if 10 == k then some 0 else none)
unfolding Dict.get
entry k = refl

client-IsValid : IsValid client
unfolding Dict.get
client-IsValid = record {
  made = λ seq f h. ground (arith, entry seq, h);
  own = λ seq seq' f h h'. ground (arith, entry seq, entry seq', h, h');
  unique = record { entries = (refl, tt) };
}

-- The first request cannot be made twice at once.
call_again : (call_async 10 client).0 ≡ err Client.runtime_error
unfolding call_async Dict.get
call_again = refl

operations-IsValid_example :
    ((seq : ℕ)
      → IsValid (call_async seq client).1
        × ((k f : ℕ)
            → Dict.get client.pending_requests k ≡ some f
            → Dict.get (call_async seq client).1.pending_requests k ≡ some f))
    × ((f : ℕ)
        → IsValid (remove_pending_request f client)
          × ((k : ℕ)
              → Dict.get client.pending_requests k ≡ some f
              → Dict.get (remove_pending_request f client).pending_requests k ≡ none)
          × ((k : ℕ)
              → (Dict.get client.pending_requests k ≡ some f → ⊥)
              → Dict.get (remove_pending_request f client).pending_requests k
                ≡ Dict.get client.pending_requests k))
    × ((seq : ℕ) (response : ℕ) (executor : ℕ)
        → let c' = (take_response seq response executor client).0 in
          IsValid c'
          × (c'.pending_requests ≡ client.pending_requests)
          × ((g : ℕ)
              → (Dict.get client.pending_requests seq ≡ some g → ⊥)
              → Dict.get c'.futures g ≡ Dict.get client.futures g))
operations-IsValid_example = operations-IsValid client client-IsValid

call_async-response_example :
    let (r, c1) = call_async 11 client in
    let (c2, effects) = take_response 11 42 5 c1 in
    (r ≡ ok 1)
    × (effects ≡ create_task remove_callback ∷ [])
    × ((f : Future ℕ String) × (Dict.get c2.futures 1 ≡ some f)
        × (f.result ≡ some 42)
        × (Future.is_done f ≡ true))
    × ((k : ℕ) → (1 == k) ≡ false → Dict.get c2.futures k ≡ Dict.get client.futures k)
    × ((k : ℕ)
        → Dict.get (remove_pending_request 1 c2).pending_requests k
          ≡ Dict.get client.pending_requests k)
unfolding Dict.get
call_async-response_example = call_async-response client client-IsValid 11 5 42 refl
