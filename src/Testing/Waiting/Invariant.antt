-- ===== src/Testing/Waiting/Invariant.antt =====
-- What holds of a waiter after every event (nameko/testing/services.py).
use nameko.Prelude.{
  ℕ, suc, zero, String, string_eq, ◌≡◌, ◌≢◌, ◌⊎◌, inl, inr, Bool, true, ◌&&◌, Option, none, some,
  List, [], ◌∷◌, ◌++◌, Bool-cases, arith, refl, Among, Among-before, Among-last, last?-Among, head?,
  last?, last?-append, ap, sym, ◌∙◌, subst, Option-cases, if◌then◌else◌,
}
use mathlib.Core.List.{append-nil, append_assoc}
use nameko.Action.{Result}
use nameko.Testing.Waiting.{
  Phase, in_block, for_result, for_teardown, left, Waiter, Event, completes, tears_down, block_ends,
  goes_on, watches_results, watches_teardowns, is_ctx, is_complete, on_worker_result,
  on_worker_teardown, go_on, end_block, send, complete_with, proceed, leave_block, acquire_teardown,
  acquire_result, step, run,
}

-- The workers that completed, with their outcomes.
abbrev pub Done : Type 0 → Type 0 → Type 0
Done X A = List (ℕ × Result X A)

module _ {X A : Type 0} where
  -- Of the first and of the last.
  abbrev pub outcome_of : Option (ℕ × Result X A) → Option (Result X A)
  outcome_of none = none
  outcome_of (some (ctx, outcome)) = some outcome

  abbrev pub ctx_of : Option (ℕ × Result X A) → Option ℕ
  ctx_of none = none
  ctx_of (some (ctx, outcome)) = some ctx

  -- A worker that completed was torn down.
  abbrev pub Torn : List (Event X A) → Done X A → Type 0
  Torn past done =
      (ctx : ℕ) × (outcome : Result X A) × Among (ctx, outcome) done × Among (tears_down ctx) past

  abbrev pub Quiet : Waiter X A → Type 0
  Quiet w = (w.teardowns ≡ 0) × (w.phase ≢ left)

  pub record Inv (past : List (Event X A)) (done : Done X A) (w : Waiter X A) : Type 0 where
    pub reported : w.result ≡ outcome_of (head? done)
    pub current : w.worker_ctx ≡ ctx_of (last? done)
    pub torn : Quiet w ⊎ Torn past done

  Torn-more :
      (past more : List (Event X A)) (done done' : Done X A)
      → Torn past done
      → Torn (past ++ more) (done ++ done')
  Torn-more past more done done' (ctx, outcome, d, t) = (
    ctx,
    outcome,
    Among-before (ctx, outcome) done done' d,
    Among-before (tears_down ctx) past more t,
  )

  send-head? :
      (done : Done X A) (c : ℕ) (o : Result X A)
      → send o (outcome_of (head? done)) ≡ outcome_of (head? (done ++ (c, o) ∷ []))
  send-head? [] c o = refl
  send-head? (d ∷ done) c o = refl

  -- A step of the thread that waits reports nothing else, and does not leave before a teardown.
  record Moves (w w' : Waiter X A) : Type 0 where
    same_result : w'.result ≡ w.result
    same_ctx : w'.worker_ctx ≡ w.worker_ctx
    quiet : Quiet w → Quiet w'

  stays : (w : Waiter X A) → Moves w w
  stays w = record { same_result = refl; same_ctx = refl; quiet = λ q. q }

  acquire_teardown-Moves :
      (n : ℕ) (w : Waiter X A) → w.teardowns ≡ n → Moves w (acquire_teardown n w)
  acquire_teardown-Moves zero w e = record {
    same_result = refl;
    same_ctx = refl;
    quiet = λ q. (q.0, λ h. absurd (cc));
  }
  acquire_teardown-Moves (suc n) w e = record {
    same_result = refl;
    same_ctx = refl;
    quiet = λ q. absurd (ground (arith, e, q.0));
  }

  acquire_result-Moves : (n : ℕ) (w : Waiter X A) → Moves w (acquire_result n w)
  acquire_result-Moves zero w = record {
    same_result = refl;
    same_ctx = refl;
    quiet = λ q. (q.0, λ h. absurd (cc));
  }
  acquire_result-Moves (suc n) w =
      let m = acquire_teardown-Moves w.teardowns (record w { results = n }) refl in
      record { same_result = m.same_result; same_ctx = m.same_ctx; quiet = λ q. m.quiet q }

  proceed-Moves : (p : Phase) (w : Waiter X A) → Moves w (proceed p w)
  proceed-Moves in_block w = stays w
  proceed-Moves for_result w = acquire_result-Moves w.results w
  proceed-Moves for_teardown w = acquire_teardown-Moves w.teardowns w refl
  proceed-Moves left w = stays w

  leave_block-Moves : (p : Phase) (w : Waiter X A) → Moves w (leave_block p w)
  leave_block-Moves in_block w = acquire_result-Moves w.results w
  leave_block-Moves for_result w = stays w
  leave_block-Moves for_teardown w = stays w
  leave_block-Moves left w = stays w

  Inv-further :
      (past more : List (Event X A)) (done : Done X A) (w w' : Waiter X A)
      → Moves w w'
      → Inv past done w
      → Inv (past ++ more) (done ++ []) w'
  Inv-further past more done w w' m i = record {
    reported =
        m.same_result ∙ (i.reported ∙ ap (λ d. outcome_of (head? d)) (sym (append-nil done)));
    current = m.same_ctx ∙ (i.current ∙ ap (λ d. ctx_of (last? d)) (sym (append-nil done)));
    torn = elim i.torn [ inl q ↦ inl (m.quiet q) | inr t ↦ inr (Torn-more past more done [] t) ];
  }

  is_ctx-last :
      (ctx : ℕ) (done : Done X A)
      → is_ctx ctx (ctx_of (last? done)) ≡ true
      → (outcome : Result X A) × (last? done ≡ some (ctx, outcome))
  is_ctx-last ctx done e = elim (Option-cases (last? done)) [
    | inl nobody ↦ absurd (ground (arith, nobody, e))
    | inr ((c, outcome), h) ↦
        let it : c ≡ ctx = ground (arith, h, e) in (outcome, h ∙ ap (λ x. some (x, outcome)) it)
  ]

  Inv-tears_down :
      (past : List (Event X A)) (done : Done X A) (w : Waiter X A) (ctx : ℕ)
      → Inv past done w
      → Inv (past ++ tears_down ctx ∷ []) (done ++ []) (on_worker_teardown ctx w)
  unfolding on_worker_teardown
  Inv-tears_down past done w ctx i =
      elim (Bool-cases (watches_teardowns w.phase && is_ctx ctx w.worker_ctx)) [
        | inr no_it ↦ rw no_it (Inv-further past (tears_down ctx ∷ []) done w w (stays w) i)
        | inl yes_it ↦
            let (outcome, ended) = is_ctx-last ctx done (ground (arith, yes_it, i.current)) in
            let further = Inv-further past (tears_down ctx ∷ []) done w w (stays w) i in
            rw yes_it (record {
              reported = further.reported;
              current = further.current;
              torn = inr (
                ctx,
                outcome,
                Among-before (ctx, outcome) done [] (last?-Among (ctx, outcome) done ended),
                Among-last (tears_down ctx) past,
              );
            })
      ]

  Inv-completes :
      (past : List (Event X A)) (e : Event X A) (done : Done X A) (w : Waiter X A) (ctx : ℕ)
      (outcome : Result X A)
      → Inv past done w
      → Inv (past ++ e ∷ []) (done ++ (ctx, outcome) ∷ []) (complete_with ctx outcome w)
  Inv-completes past e done w ctx outcome i = record {
    reported = ap (send outcome) i.reported ∙ send-head? done ctx outcome;
    current = sym (ap ctx_of (last?-append done (ctx, outcome)));
    torn = elim i.torn [
      | inl q ↦ inl q
      | inr t ↦ inr (Torn-more past (e ∷ []) done ((ctx, outcome) ∷ []) t)
    ];
  }

module _ {X A : Type 0} (method_name : String) (callback : ℕ → Result X A → Bool) where
  -- The worker that completes with an event, if the waiter still watches.
  abbrev pub completing : Event X A → Waiter X A → Done X A
  completing (completes ctx method outcome) w =
      if watches_results w.phase && is_complete method_name callback ctx method outcome
      then (ctx, outcome) ∷ []
      else []
  completing _ w = []

  unfoldable pub completed : List (Event X A) → Waiter X A → Done X A
  unfolding step
  completed [] w = []
  completed (e ∷ events) w = completing e w ++ completed events (step method_name callback e w)

  step-Inv :
      (e : Event X A) (past : List (Event X A)) (done : Done X A) (w : Waiter X A)
      → Inv past done w
      → Inv (past ++ e ∷ []) (done ++ completing e w) (step method_name callback e w)
  unfolding step on_worker_result go_on end_block
  step-Inv (completes ctx method outcome) past done w i =
      elim (Bool-cases
        (watches_results w.phase && is_complete method_name callback ctx method outcome)) [
          | inl yes_it ↦
              rw yes_it (Inv-completes past (completes ctx method outcome) done w ctx outcome i)
          | inr no_it ↦
              rw no_it (Inv-further past (completes ctx method outcome ∷ []) done w w (stays w) i)
        ]
  step-Inv (tears_down ctx) past done w i = Inv-tears_down past done w ctx i
  step-Inv block_ends past done w i =
      Inv-further past (block_ends ∷ []) done w _ (leave_block-Moves w.phase w) i
  step-Inv goes_on past done w i =
      Inv-further past (goes_on ∷ []) done w _ (proceed-Moves w.phase w) i

  pub run-Inv :
      (events past : List (Event X A)) (done : Done X A) (w : Waiter X A)
      → Inv past done w
      → Inv (past ++ events) (done ++ completed events w) (run method_name callback events w)
  unfolding run completed
  run-Inv [] past done w i = Inv-further past [] done w w (stays w) i
  run-Inv (e ∷ events) past done w i =
      let w' = step method_name callback e w in
      subst
        (λ l.
          Inv l (done ++ (completing e w ++ completed events w'))
            (run method_name callback events w'))
        (append_assoc past (e ∷ []) events)
        (subst (λ d. Inv ((past ++ e ∷ []) ++ events) d (run method_name callback events w'))
          (append_assoc done (completing e w) (completed events w'))
          (run-Inv events (past ++ e ∷ []) (done ++ completing e w) w' (step-Inv e past done w i)))
