-- ===== src/Client/Response.antt =====
-- Calls and responses of a client (rclpy/rclpy/client.py, `_take_client` of rclpy/rclpy/executors.py).
use rclpy.Prelude.{
  ℕ, ◌<◌, ◌≡◌, inl, inr, refl, sym, ap, ◌∙◌, true, false, none, some, [], ◌∷◌, ok, if◌then◌else◌,
  ◌==◌, ==-eq, ==-refl, nat_eq, Bool-cases, Option-cases, arith,
}
use rclpy.Dict
use rclpy.Dict.{Dict, is_some}
use rclpy.Future
use rclpy.Future.{Future, Effect, create_task, finished, FutureState, callback}
use rclpy.Client.{
  Client, remove_callback, call_async, get_pending_request, remove_pending_request, take_response,
}
use rclpy.Client.Requests.{
  IsValid, called, call_async_new, called-IsValid, remove_pending_request-exact,
}

module _ {V E : Type 0} where
  -- What a response does, where its request is pending.
  take_go :
      (c : Client V E) (seq f : ℕ) (response : V) (executor : ℕ) (g : Future V E)
      → Dict.get c.pending_requests seq ≡ some f
      → Dict.get c.futures f ≡ some g
      → let (g', effects) = Future.set_result response (Future.set_executor (some executor) g) in
        take_response seq response executor c
        ≡ (record c { futures = Dict.set c.futures f g' }, effects)
  unfolding take_response get_pending_request
  take_go c seq f response executor g e e' = rw (e, e', take_response) refl

  pub take_response-IsValid :
      (c : Client V E) (seq : ℕ) (response : V) (executor : ℕ)
      → IsValid c
      → IsValid (take_response seq response executor c).0
  unfolding take_response get_pending_request
  take_response-IsValid c seq response executor v =
      elim (Option-cases (Dict.get c.pending_requests seq)) [
        | inl e ↦ rw (e, take_response) v
        | inr (f, e) ↦ elim (Option-cases (Dict.get c.futures f)) [
          | inl e' ↦ rw (e, e', take_response) v
          | inr (g, e') ↦
              rw (e, e', take_response)
                (record {
                  made = λ k h there. (
                    (v.made k h there).0,
                    elim (Bool-cases (f == h)) [
                      | inl d ↦ rw (Dict.get-set c.futures f h _, d) refl
                      | inr d ↦ rw (Dict.get-set c.futures f h _, d) (v.made k h there).1
                    ],
                  );
                  own = v.own;
                  unique = v.unique;
                })
        ]
      ]

  call_async-IsValid : (c : Client V E) (seq : ℕ) → IsValid c → IsValid (call_async seq c).1
  unfolding call_async
  call_async-IsValid c seq v = elim (Option-cases (Dict.get c.pending_requests seq)) [
    | inl e ↦ rw (call_async_new c v seq e) (called-IsValid c v seq)
    | inr (f, e) ↦ rw (e, call_async) v
  ]

  -- A pending request keeps its future in a call.
  call_async-pending :
      (c : Client V E) (seq k f : ℕ)
      → IsValid c
      → Dict.get c.pending_requests k ≡ some f
      → Dict.get (call_async seq c).1.pending_requests k ≡ some f
  unfolding call_async
  call_async-pending c seq k f v h = elim (Option-cases (Dict.get c.pending_requests seq)) [
    | inr (g, e) ↦ rw (e, call_async) h
    | inl e ↦ rw (call_async_new c v seq e) (elim (Bool-cases (seq == k)) [
      | inr d ↦ rw (Dict.get-set c.pending_requests seq k c.next_future, d) h
      | inl d ↦
          (let no : none ≡ some f = sym e ∙ ap (Dict.get c.pending_requests) (==-eq seq k d) ∙ h in
            cc)
    ])
  ]

  -- A response leaves the requests pending, and all futures but the one of its request alone.
  take_response-others :
      (c : Client V E) (seq : ℕ) (response : V) (executor : ℕ)
      → let c' = (take_response seq response executor c).0 in
        (c'.pending_requests ≡ c.pending_requests)
        × ((g : ℕ)
            → (Dict.get c.pending_requests seq ≡ some g → ⊥)
            → Dict.get c'.futures g ≡ Dict.get c.futures g)
  unfolding take_response get_pending_request
  take_response-others c seq response executor =
      elim (Option-cases (Dict.get c.pending_requests seq)) [
        | inl e ↦ rw (e, take_response) (refl, λ g h. refl)
        | inr (f, e) ↦ elim (Option-cases (Dict.get c.futures f)) [
          | inl e' ↦ rw (e, e', take_response) (refl, λ g h. refl)
          | inr (s, e') ↦
              rw (e, e', take_response)
                (
                  refl,
                  λ g h. elim (Bool-cases (f == g)) [
                    | inr d ↦ rw (Dict.get-set c.futures f g _, d) refl
                    | inl d ↦ absurd (h (ap (λ n. some n) (==-eq f g d)))
                  ],
                )
        ]
      ]

  -- Every operation of a client keeps that each pending request has a future object of its own, and does
  -- not disturb the other requests. A call leaves every pending request its future, also where its own
  -- number is pending; the removal of a future's request removes it and keeps the requests of other futures;
  -- a response removes no request, and leaves all futures alone that are not the one of its own request.
  pub operations-IsValid :
      (c : Client V E)
      → IsValid c
      → ((seq : ℕ)
          → IsValid (call_async seq c).1
            × ((k f : ℕ)
                → Dict.get c.pending_requests k ≡ some f
                → Dict.get (call_async seq c).1.pending_requests k ≡ some f))
        × ((f : ℕ)
            → IsValid (remove_pending_request f c)
              × ((k : ℕ)
                  → Dict.get c.pending_requests k ≡ some f
                  → Dict.get (remove_pending_request f c).pending_requests k ≡ none)
              × ((k : ℕ)
                  → (Dict.get c.pending_requests k ≡ some f → ⊥)
                  → Dict.get (remove_pending_request f c).pending_requests k
                    ≡ Dict.get c.pending_requests k))
        × ((seq : ℕ) (response : V) (executor : ℕ)
            → let c' = (take_response seq response executor c).0 in
              IsValid c'
              × (c'.pending_requests ≡ c.pending_requests)
              × ((g : ℕ)
                  → (Dict.get c.pending_requests seq ≡ some g → ⊥)
                  → Dict.get c'.futures g ≡ Dict.get c.futures g))
  operations-IsValid c v = (
    λ seq. (call_async-IsValid c seq v, λ k f h. call_async-pending c seq k f v h),
    λ f. let (w, gone, others, _) = remove_pending_request-exact c v f in (w, gone, others),
    λ seq response executor.
        let (same, others) = take_response-others c seq response executor in
        (take_response-IsValid c seq response executor v, same, others),
  )

  module _ (c : Client V E) (v : IsValid c) (seq executor : ℕ) (response : V) where
    -- The future of a new request.
    abbrev fresh : Future V E
    fresh = (Future.add_done_callback remove_callback false (Future.new none)).0

    taken : take_response seq response executor (called c v seq) ≡ (
      record (called c v seq) {
        futures =
            Dict.set
              (called c v seq).futures
              c.next_future
              (Future.set_result response (Future.set_executor (some executor) fresh)).0;
      },
      (Future.set_result response (Future.set_executor (some executor) fresh)).1,
    )
    taken =
        take_go (called c v seq) seq c.next_future response executor fresh
          (Dict.get-set c.pending_requests seq seq c.next_future ∙ rw (==-refl seq) refl)
          (Dict.get-set c.futures c.next_future c.next_future fresh
            ∙ rw (==-refl c.next_future) refl)

    effects_taken :
        (Future.set_result response (Future.set_executor (some executor) fresh)).1
        ≡ create_task remove_callback ∷ []
    unfolding Future.set_result Future.set_executor Future.schedule_or_invoke_done_callbacks
        Future.add_done_callback Future.new
    effects_taken = refl

    pub removed :
        (d : Client V E)
        → IsValid d
        → d.pending_requests ≡ Dict.set c.pending_requests seq c.next_future
        → Dict.get c.pending_requests seq ≡ none
        → (k : ℕ)
        → Dict.get (remove_pending_request c.next_future d).pending_requests k
          ≡ Dict.get c.pending_requests k
    removed d w same free k =
        let (_, gone, others, _) = remove_pending_request-exact d w c.next_future in
        let entry : Dict.get d.pending_requests k
            ≡ (if seq == k then some c.next_future else Dict.get c.pending_requests k) =
          ap (λ p. Dict.get p k) same ∙ Dict.get-set c.pending_requests seq k c.next_future in
        elim (Bool-cases (seq == k)) [
          | inl e ↦
              gone k (entry ∙ rw e refl)
              ∙ sym (ap (Dict.get c.pending_requests) (sym (==-eq seq k e)) ∙ free)
          | inr e ↦
              let old : Dict.get d.pending_requests k ≡ Dict.get c.pending_requests k =
                entry ∙ rw e refl in
              others k (λ h. irreflexive c.next_future (v.made k c.next_future (sym old ∙ h)).0)
              ∙ old
        ]
      where
        irreflexive : (n : ℕ) → n < n → ⊥
        irreflexive n h = omega (arith, h)

    -- If the sequence number of a request is not pending, then the call gives a new future; a response with
    -- this number finishes this future with its result, leaves all others alone, and hands the removal of the
    -- request to the executor as a task; and behind the removal the same requests are pending as before the call.
    pub call_async-response :
        Dict.get c.pending_requests seq ≡ none
        → let (r, c1) = call_async seq c in
          let (c2, effects) = take_response seq response executor c1 in
          (r ≡ ok c.next_future)
          × (effects ≡ create_task remove_callback ∷ [])
          × ((f : Future V E) × (Dict.get c2.futures c.next_future ≡ some f)
              × (f.result ≡ some response)
              × (Future.is_done f ≡ true))
          × ((k : ℕ) → (c.next_future == k) ≡ false → Dict.get c2.futures k ≡ Dict.get c.futures k)
          × ((k : ℕ)
              → Dict.get (remove_pending_request c.next_future c2).pending_requests k
                ≡ Dict.get c.pending_requests k)
    unfolding Future.set_result Future.set_executor Future.schedule_or_invoke_done_callbacks
        Future.is_done
    call_async-response free =
        rw (call_async_new c v seq free, taken)
          (
            refl,
            effects_taken,
            (
              (Future.set_result response (Future.set_executor (some executor) fresh)).0,
              Dict.get-set (called c v seq).futures c.next_future c.next_future _
                  ∙ rw (==-refl c.next_future) refl,
              refl,
              refl,
            ),
            λ k d.
                Dict.get-set (called c v seq).futures c.next_future k _
                ∙ rw d (Dict.get-set c.futures c.next_future k fresh ∙ rw d refl),
            removed _
                (rw taken at (
                  take_response-IsValid (called c v seq) seq response executor
                    (called-IsValid c v seq)))
                refl free,
          )
