-- ===== src/Client/Requests.antt =====
-- The pending requests of a client (rclpy/rclpy/client.py) and the futures that they have.
use rclpy.Prelude.{
  ℕ, suc, ◌<◌, ◌≡◌, ◌⊎◌, inl, inr, refl, sym, ap, ◌∙◌, true, false, none, some, List, [], ◌∷◌, ok,
  ◌==◌, ==-eq, ==-refl, nat_eq, Bool-cases, Option-cases, arith,
}
use rclpy.Dict
use rclpy.Dict.{Dict, is_some}
use rclpy.Future
use rclpy.Future.{Future, Effect}
use rclpy.Client.{Client, remove_callback, find_key, call_async, remove_pending_request}

module _ {V E : Type 0} where
  -- A pending request has a future object that was made before, and no other request has it.
  pub record IsValid (c : Client V E) : Type 0 where
    pub made :
        (seq f : ℕ)
        → Dict.get c.pending_requests seq ≡ some f
        → (f < c.next_future) × (is_some (Dict.get c.futures f) ≡ true)
    pub own :
        (seq seq' f : ℕ)
        → Dict.get c.pending_requests seq ≡ some f
        → Dict.get c.pending_requests seq' ≡ some f
        → seq ≡ seq'
    pub unique : Dict.IsUnique c.pending_requests

  module _ (c : Client V E) (v : IsValid c) (seq : ℕ) where
    -- The client behind a call.
    abbrev pub called : Client V E
    called = record {
      pending_requests = Dict.set c.pending_requests seq c.next_future;
      futures =
          Dict.set c.futures c.next_future
            (Future.add_done_callback remove_callback false (Future.new none)).0;
      next_future = suc c.next_future;
    }

    pub call_async_new :
        Dict.get c.pending_requests seq ≡ none → call_async seq c ≡ (ok c.next_future, called)
    unfolding call_async
    call_async_new e = rw (e, call_async) refl

    -- An entry behind a call is the new one or one from before.
    entry_cases :
        (k f : ℕ)
        → Dict.get called.pending_requests k ≡ some f
        → (((seq == k) ≡ true) × (f ≡ c.next_future)) ⊎ (Dict.get c.pending_requests k ≡ some f)
    entry_cases k f h = elim (Bool-cases (seq == k)) [
      | inl e ↦ inl (
        e,
        (let h' : some c.next_future ≡ some f =
              rw (Dict.get-set c.pending_requests seq k c.next_future, e) at h in
            cc),
      )
      | inr e ↦ inr (rw (Dict.get-set c.pending_requests seq k c.next_future, e) at h)
    ]

    not_new : (f : ℕ) → f ≡ c.next_future → f < c.next_future → ⊥
    not_new f e less = omega (arith, e, less)

    pub called-IsValid : IsValid called
    called-IsValid = record {
      made = λ k f h. elim (entry_cases k f h) [
        | inl (_, e) ↦ rw e (
          omega arith,
          rw (Dict.get-set c.futures c.next_future c.next_future _, ==-refl c.next_future) refl,
        )
        | inr old ↦
            let (less, there) = v.made k f old in
            let other : (c.next_future == f) ≡ false = ground (arith, less) in
            (omega (arith, less), rw (Dict.get-set c.futures c.next_future f _, other) there)
      ];
      own = λ k k' f h h'. elim (entry_cases k f h) [
        | inl (e, n) ↦ elim (entry_cases k' f h') [
          | inl (e', _) ↦ sym (==-eq seq k e) ∙ ==-eq seq k' e'
          | inr old ↦ absurd (not_new f n (v.made k' f old).0)
        ]
        | inr old ↦ elim (entry_cases k' f h') [
          | inl (_, n) ↦ absurd (not_new f n (v.made k f old).0)
          | inr old' ↦ v.own k k' f old old'
        ]
      ];
      unique = Dict.set-IsUnique c.pending_requests seq c.next_future v.unique;
    }

module _ where
  -- The key that is found has the value, and if a key has it, then one is found.
  find_key-get :
      (f s : ℕ) (l : List (ℕ × ℕ))
      → Dict.IsUnique (record { entries = l })
      → find_key f l ≡ some s
      → Dict.get (record { entries = l }) s ≡ some f
  unfolding find_key
  find_key-get f s [] u h = cc
  find_key-get f s ((j, g) ∷ l) u h =
      let (fresh, u') = Dict.IsUnique-cons j g l u in
      elim (Bool-cases (g == f)) [
        | inl e ↦
            let h' : some j ≡ some s = rw e at h in
            let same : j ≡ s = cc in
            rw (Dict.get-cons j s g l, same, ==-refl s) (ap some (==-eq g f e))
        | inr e ↦
            let rest = find_key-get f s l u' (rw e at h) in
            elim (Bool-cases (j == s)) [
              | inr d ↦ rw (Dict.get-cons j s g l, d) rest
              | inl d ↦
                  (let c : none ≡ some f =
                      sym fresh ∙ ap (Dict.get (record { entries = l })) (==-eq j s d) ∙ rest in
                    cc)
            ]
      ]

  find_key-some :
      (f s : ℕ) (l : List (ℕ × ℕ))
      → Dict.get (record { entries = l }) s ≡ some f
      → is_some (find_key f l) ≡ true
  unfolding find_key
  find_key-some f s [] h = (let c : none ≡ some f = sym (Dict.get-nil s) ∙ h in cc)
  find_key-some f s ((j, g) ∷ l) h = elim (Bool-cases (g == f)) [
    | inl e ↦ rw e refl
    | inr e ↦ elim (Bool-cases (j == s)) [
      | inl d ↦
          (let h' : some g ≡ some f = rw (Dict.get-cons j s g l, d) at h in
            let same : g ≡ f = cc in let c : true ≡ false = sym (==-refl f) ∙ (rw same at e) in cc)
      | inr d ↦ rw e (find_key-some f s l (rw (Dict.get-cons j s g l, d) at h))
    ]
  ]

module _ {V E : Type 0} (c : Client V E) (v : IsValid c) where
  -- Whose request it is that has a future, if any.
  pub found :
      (f : ℕ)
      → ((find_key f c.pending_requests.entries ≡ none)
          × ((s : ℕ) → Dict.get c.pending_requests s ≡ some f → ⊥))
        ⊎ ((seq : ℕ) × (find_key f c.pending_requests.entries ≡ some seq)
            × (Dict.get c.pending_requests seq ≡ some f))
  found f = elim (Option-cases (find_key f c.pending_requests.entries)) [
    | inl e ↦ inl (
      e,
      λ s h.
          (let b : false ≡ true = rw e at (find_key-some f s c.pending_requests.entries h) in cc),
    )
    | inr (seq, e) ↦ inr (seq, e, find_key-get f seq c.pending_requests.entries v.unique e)
  ]

  without-IsValid :
      (seq : ℕ) → IsValid (record c { pending_requests = Dict.del c.pending_requests seq })
  without-IsValid seq = record {
    made = λ k f h. v.made k f (before k f h);
    own = λ k k' f h h'. v.own k k' f (before k f h) (before k' f h');
    unique = Dict.del-IsUnique c.pending_requests seq v.unique;
  }
    where
      before :
          (k f : ℕ)
          → Dict.get (Dict.del c.pending_requests seq) k ≡ some f
          → Dict.get c.pending_requests k ≡ some f
      before k f h = elim (Bool-cases (seq == k)) [
        | inl e ↦ (let b : none ≡ some f = rw (Dict.get-del c.pending_requests seq k, e) at h in cc)
        | inr e ↦ rw (Dict.get-del c.pending_requests seq k, e) at h
      ]

  -- Removing a future takes exactly the request that has it off the pending ones.
  pub remove_pending_request-exact :
      (f : ℕ)
      → let c' = remove_pending_request f c in
        IsValid c'
        × ((s : ℕ) → Dict.get c.pending_requests s ≡ some f → Dict.get c'.pending_requests s ≡ none)
        × ((s : ℕ)
            → (Dict.get c.pending_requests s ≡ some f → ⊥)
            → Dict.get c'.pending_requests s ≡ Dict.get c.pending_requests s)
        × (c'.futures ≡ c.futures)
  unfolding remove_pending_request
  remove_pending_request-exact f = elim (found f) [
    | inl (e, nobody) ↦
        rw (e, remove_pending_request) (v, λ s h. absurd (nobody s h), λ s h. refl, refl)
    | inr (seq, e, has) ↦
        rw (e, remove_pending_request)
          (
            without-IsValid seq,
            λ s h.
                (let same : seq ≡ s = v.own seq s f has h in
                  rw (Dict.get-del c.pending_requests seq s, same, ==-refl s) refl),
            λ s h. elim (Bool-cases (seq == s)) [
              | inl d ↦ absurd (h (ap (Dict.get c.pending_requests) (sym (==-eq seq s d)) ∙ has))
              | inr d ↦ rw (Dict.get-del c.pending_requests seq s, d) refl
            ],
            refl,
          )
  ]
