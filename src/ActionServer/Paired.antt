-- ===== src/ActionServer/Paired.antt =====
-- The tables of an action server (rclpy/rclpy/action/server.py): goal handles and result futures together.
use rclpy.Prelude.{
  ℕ, zero, suc, ◌≡◌, ◌≢◌, inl, inr, refl, sym, ap, ◌∙◌, Bool, true, false, not, ◌&&◌, Option, none,
  some, All, List, [], ◌∷◌, length, Result-cases, ok, err, ◌==◌, ==-refl, ==-eq, nat_eq, Bool-cases,
  Option-cases, arith, contains, Distinct, get_elem?,
}
use rclpy.Dict
use rclpy.Dict.{Dict, is_some}
use rclpy.Future
use rclpy.Future.{Future}
use rclpy.ActionServer.{
  GoalStates, cancel_goal, key_error, ActionServer, execute_goal_request,
  execute_get_result_request, execute_expire_goals, update_state, cancel_one, cancel_loop,
  execute_cancel_request,
}

module _ {S V E : Type 0} where
  pub record IsPaired (s : ActionServer S V E) : Type 0 where
    pub at :
        (id : ℕ) → is_some (Dict.get s.goal_handles id) ≡ is_some (Dict.get s.result_futures id)

  -- Entries that are set or deleted in both dictionaries.
  set_both :
      (hs : Dict ℕ (Option S)) (fs : Dict ℕ (Future V E)) (k id : ℕ) (h : Option S) (f : Future V E)
      → is_some (Dict.get hs id) ≡ is_some (Dict.get fs id)
      → is_some (Dict.get (Dict.set hs k h) id) ≡ is_some (Dict.get (Dict.set fs k f) id)
  set_both hs fs k id h f e = elim (Bool-cases (k == id)) [
    | inl d ↦ rw (Dict.get-set hs k id h, Dict.get-set fs k id f, d) refl
    | inr d ↦ rw (Dict.get-set hs k id h, Dict.get-set fs k id f, d) e
  ]

  del_both :
      (hs : Dict ℕ (Option S)) (fs : Dict ℕ (Future V E)) (k id : ℕ)
      → is_some (Dict.get hs id) ≡ is_some (Dict.get fs id)
      → is_some (Dict.get (Dict.del hs k) id) ≡ is_some (Dict.get (Dict.del fs k) id)
  del_both hs fs k id e = elim (Bool-cases (k == id)) [
    | inl d ↦ rw (Dict.get-del hs k id, Dict.get-del fs k id, d) refl
    | inr d ↦ rw (Dict.get-del hs k id, Dict.get-del fs k id, d) e
  ]

-- An entry that is replaced.
is_some-replace :
    {A : Type 0} (d : Dict ℕ A) (k id : ℕ) (a : A)
    → is_some (Dict.get d k) ≡ true
    → is_some (Dict.get (Dict.set d k a) id) ≡ is_some (Dict.get d id)
is_some-replace d k id a h = elim (Bool-cases (k == id)) [
  | inl e ↦
      rw (Dict.get-set d k id a, e)
        (sym (ap (λ i. is_some (Dict.get d i)) (sym (==-eq k id e)) ∙ h))
  | inr e ↦ rw (Dict.get-set d k id a, e) refl
]

module _ {S V E : Type 0} (s : ActionServer S V E) (p : IsPaired s) where
  goal_request-IsPaired :
      (id : ℕ) (known accept : Bool) (handle : Option S)
      → IsPaired (execute_goal_request id known accept handle s).1
  unfolding execute_goal_request
  goal_request-IsPaired id known accept handle = elim (Bool-cases (not known && accept)) [
    | inr e ↦ rw e p
    | inl e ↦ elim (Option-cases handle) [
      | inl n ↦ rw (e, n) p
      | inr (h, n) ↦
          rw (e, n)
            (record {
              at = λ i.
                  set_both s.goal_handles s.result_futures id i (some h) (Future.new none) (p.at i);
            })
    ]
  ]

  future_of :
      (id : ℕ)
      → is_some (Dict.get s.goal_handles id) ≡ true
      → (f : Future V E) × (Dict.get s.result_futures id ≡ some f)
  future_of id h = elim (Option-cases (Dict.get s.result_futures id)) [
    | inr (f, e) ↦ (f, e)
    | inl e ↦ (let c : false ≡ true = ap is_some (sym e) ∙ sym (p.at id) ∙ h in cc)
  ]

  -- A request for a result raises nothing.
  get_result-IsPaired :
      (id send : ℕ)
      → let (r, s') = execute_get_result_request id send s in (r ≢ err key_error) × IsPaired s'
  unfolding execute_get_result_request
  get_result-IsPaired id send = elim (Bool-cases (is_some (Dict.get s.goal_handles id))) [
    | inr e ↦ rw e (λ h. cc, p)
    | inl e ↦
        let (f, there) = future_of id e in
        rw (e, there, execute_get_result_request)
          (
            λ h. cc,
            record {
              at = λ i. p.at i ∙ sym (is_some-replace s.result_futures id i _ (ap is_some there));
            },
          )
  ]

module _ {S V E : Type 0} where
  -- The server behind the removal of a goal.
  abbrev without : ℕ → ActionServer S V E → ActionServer S V E
  without id s = record s {
    goal_handles = Dict.del s.goal_handles id;
    result_futures = Dict.del s.result_futures id;
  }

  without-IsPaired : (id : ℕ) (s : ActionServer S V E) → IsPaired s → IsPaired (without id s)
  without-IsPaired id s p = record {
    at = λ i. del_both s.goal_handles s.result_futures id i (p.at i);
  }

  expire_go :
      (id : ℕ) (ids : List ℕ) (s : ActionServer S V E)
      → IsPaired s
      → is_some (Dict.get s.goal_handles id) ≡ true
      → execute_expire_goals (id ∷ ids) s ≡ execute_expire_goals ids (without id s)
  unfolding execute_expire_goals
  expire_go id ids s p h = elim (Option-cases (Dict.get s.goal_handles id)) [
    | inl e ↦ (let c : false ≡ true = rw e at h in cc)
    | inr (g, e) ↦ (let (f, there) = future_of s p id h in rw (e, there, execute_expire_goals) refl)
  ]

  expire_stop :
      (id : ℕ) (ids : List ℕ) (s : ActionServer S V E)
      → is_some (Dict.get s.goal_handles id) ≡ false
      → execute_expire_goals (id ∷ ids) s ≡ (err key_error, s)
  unfolding execute_expire_goals
  expire_stop id ids s h = elim (Option-cases (Dict.get s.goal_handles id)) [
    | inl e ↦ rw (e, execute_expire_goals) refl
    | inr (g, e) ↦ (let c : true ≡ false = rw e at h in cc)
  ]

  expire_goals-IsPaired :
      (ids : List ℕ) (s : ActionServer S V E) → IsPaired s → IsPaired (execute_expire_goals ids s).1
  unfolding execute_expire_goals
  expire_goals-IsPaired [] s p = p
  expire_goals-IsPaired (id ∷ ids) s p =
      let rest = expire_goals-IsPaired ids (without id s) (without-IsPaired id s p) in
      elim (Bool-cases (is_some (Dict.get s.goal_handles id))) [
        | inl h ↦ rw (expire_go id ids s p h) rest
        | inr h ↦ rw (expire_stop id ids s h) p
      ]

  still_tracked :
      (id : ℕ) (s : ActionServer S V E) (ids : List ℕ)
      → contains id ids ≡ false
      → All (λ i. is_some (Dict.get s.goal_handles i) ≡ true) ids
      → All (λ i. is_some (Dict.get (without id s).goal_handles i) ≡ true) ids
  still_tracked id s [] d a = tt
  still_tracked id s (j ∷ js) d a = (
    elim (Bool-cases (id == j)) [
      | inl e ↦ (let c : true ≡ false = sym (rw (==-eq id j e, ==-refl j) refl) ∙ d in cc)
      | inr e ↦ rw (Dict.get-del s.goal_handles id j, e) a.0
    ],
    still_tracked id s js (ground (arith, d)) a.1,
  )

  -- If each expired goal is tracked and none is there twice, then all expire and no key is missing.
  pub expire_goals-ok :
      (ids : List ℕ) (s : ActionServer S V E)
      → IsPaired s
      → Distinct ids
      → All (λ id. is_some (Dict.get s.goal_handles id) ≡ true) ids
      → (execute_expire_goals ids s).0 ≡ ok tt
  unfolding execute_expire_goals
  expire_goals-ok [] s p d a = refl
  expire_goals-ok (id ∷ ids) s p d a = rw (expire_go id ids s p a.0) (
      expire_goals-ok ids (without id s) (without-IsPaired id s p) d.1
        (still_tracked id s ids d.0 a.1))

module _ {S V E : Type 0} (states : GoalStates S) (accept : ℕ → Bool) where
  cancel_one-IsPaired :
      (g : ℕ) (s : ActionServer S V E) → IsPaired s → IsPaired (cancel_one states accept g s).1
  unfolding cancel_one
  cancel_one-IsPaired g s p = elim (Option-cases (Dict.get s.goal_handles g)) [
    | inl e ↦ rw (e, cancel_one) p
    | inr (h, e) ↦ elim (Bool-cases (accept g)) [
      | inr a ↦ rw (e, a, cancel_one) (record { at = p.at })
      | inl a ↦ elim (Result-cases (update_state states cancel_goal h)) [
        | inr (x, u) ↦ rw (e, a, u, cancel_one) (record { at = p.at })
        | inl ((h', n), u) ↦
            rw (e, a, u, cancel_one)
              (record { at = λ i. is_some-replace s.goal_handles g i h' (ap is_some e) ∙ p.at i })
      ]
    ]
  ]

  cancel_loop-IsPaired :
      (fuel i : ℕ) (goals : List ℕ) (s : ActionServer S V E)
      → IsPaired s
      → IsPaired (cancel_loop states accept fuel i goals s).1
  unfolding cancel_loop
  cancel_loop-IsPaired zero i goals s p = p
  cancel_loop-IsPaired (suc fuel) i goals s p = elim (Option-cases (get_elem? goals i)) [
    | inl e ↦ rw (e, cancel_loop) p
    | inr (g, e) ↦
        rw (e, cancel_loop) (cancel_loop-IsPaired fuel (suc i) _ _ (cancel_one-IsPaired g s p))
  ]

-- Whatever is requested, each goal with a handle has a future for its result and the other way round: this is kept
-- by requests for goals, for results, which then never miss a key, and for cancelling, and when goals expire.
pub operations-IsPaired :
    {S V E : Type 0} (states : GoalStates S) (s : ActionServer S V E)
    → IsPaired s
    → ((id : ℕ) (known accept : Bool) (handle : Option S)
        → IsPaired (execute_goal_request id known accept handle s).1)
      × ((id send : ℕ)
          → ((execute_get_result_request id send s).0 ≢ err key_error)
            × IsPaired (execute_get_result_request id send s).1)
      × ((accept : ℕ → Bool) (goals : List ℕ)
          → IsPaired (execute_cancel_request states accept goals s).1)
      × ((ids : List ℕ) → IsPaired (execute_expire_goals ids s).1)
unfolding execute_cancel_request
operations-IsPaired states s p = (
  λ id known accept handle. goal_request-IsPaired s p id known accept handle,
  λ id send. get_result-IsPaired s p id send,
  λ accept goals. cancel_loop-IsPaired states accept (length goals) 0 goals s p,
  λ ids. expire_goals-IsPaired ids s p,
)
