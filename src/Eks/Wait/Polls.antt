-- ===== src/Eks/Wait/Polls.antt =====
-- eks.go: a wait for an update of which the polls come in any order.
use opsy_ami_operator.Prelude.{
  ℕ, zero, suc, String, List, [], ◌∷◌, ◌++◌, ◌≡◌, refl, sym, ap, ◌∙◌, ◌<◌, arith, All, length,
}
use opsy_ami_operator.Go.{Exec, ok, err, panics, pure, total, ◌>>=◌}
use opsy_ami_operator.Go.Outcomes.{bind_after}
use opsy_ami_operator.Env.{Env, WaitEvent, ticked, called, received}
use opsy_ami_operator.Env.Aws.{NodegroupStatus}
use opsy_ami_operator.Eks.{ManagerRefresh}
use opsy_ami_operator.Eks.Wait.{Answer, answer, on_answer, wait_loop, wait_for_update_completion}

-- The update is still going on, as far as the answer tells.
abbrev pub IsWaiting : Answer → Type 0
IsWaiting (ok NodegroupStatus.active) = ⊥
IsWaiting (ok NodegroupStatus.degraded) = ⊥
IsWaiting (ok _) = Unit
IsWaiting (err _) = Unit
IsWaiting panics = ⊥

snoc_append :
    {A : Type 0} (xs : List A) (x : A) (ys : List A) → (xs ++ (x ∷ [])) ++ ys ≡ xs ++ (x ∷ ys)
snoc_append [] x ys = refl
snoc_append (z ∷ xs) x ys = ap (λ l. z ∷ l) (snoc_append xs x ys)

length-snoc : {A : Type 0} (xs : List A) (x : A) → length (xs ++ (x ∷ [])) ≡ suc (length xs)
length-snoc [] x = refl
length-snoc (z ∷ xs) x = ap suc (length-snoc xs x)

same_head : {A : Type 0} {x y : A} {xs ys : List A} → x ∷ xs ≡ y ∷ ys → x ≡ y
same_head h = ground arith

same_tail : {A : Type 0} {x y : A} {xs ys : List A} → x ∷ xs ≡ y ∷ ys → xs ≡ ys
same_tail h = ground arith

module _ {W : Type 0} (env : Env W) (m : ManagerRefresh) (group : String) where
  -- The events from a world on, with so many polls whose call is open and so many answers that wait:
  -- the calls, one after the other, give the answers of the list, and so many answers are received.
  -- Polls may overlap, and none of the calls panics.
  pub data Polls : ℕ → ℕ → W → List WaitEvent → List Answer → ℕ → Type 0 where
    ended : {open' waiting : ℕ} {w : W} → Polls open' waiting w [] [] 0
    tick :
        {open' waiting received' : ℕ} {w : W} {es : List WaitEvent} {answers : List Answer}
        → Polls (suc open') waiting w es answers received'
        → Polls open' waiting w (ticked ∷ es) answers received'
    call :
        {open' waiting received' : ℕ} {w : W} {es : List WaitEvent} {answers : List Answer}
        (a : Answer) (w₁ : W)
        → answer env m group w ≡ (ok a, w₁)
        → Polls open' (suc waiting) w₁ es answers received'
        → Polls (suc open') waiting w (called ∷ es) (a ∷ answers) received'
    receive :
        {open' waiting received' : ℕ} {w : W} {es : List WaitEvent} {answers : List Answer}
        → Polls open' waiting w es answers received'
        → Polls open' (suc waiting) w (received ∷ es) answers (suc received')

  waits :
      (a : Answer) (rest : Exec W (Unit {0})) → IsWaiting a → on_answer env m group a rest ≡ rest
  unfolding on_answer
  waits (ok NodegroupStatus.active) rest h = absurd h
  waits (ok NodegroupStatus.degraded) rest h = absurd h
  waits (ok NodegroupStatus.creating) rest h = refl
  waits (ok NodegroupStatus.updating) rest h = refl
  waits (ok NodegroupStatus.deleting) rest h = refl
  waits (ok (NodegroupStatus.other s)) rest h = refl
  waits (err e) rest h = refl
  waits panics rest h = absurd h

  -- An answer is received: it is the first that says that the group is active, or the update goes on.
  on_received :
      (a : Answer) (rest : Exec W (Unit {0})) (w : W) (before after answers : List Answer) (r : ℕ)
      → a ∷ answers ≡ before ++ (ok NodegroupStatus.active ∷ after)
      → All IsWaiting before
      → length before < suc r
      → ((before' : List Answer)
          → answers ≡ before' ++ (ok NodegroupStatus.active ∷ after)
          → All IsWaiting before'
          → length before' < r
          → (w' : W) × (rest w ≡ (ok tt, w')))
      → (w' : W) × (on_answer env m group a rest w ≡ (ok tt, w'))
  unfolding on_answer pure
  on_received a rest w [] after answers r e h lt k =
      (w, (λ i. on_answer env m group (same_head e i) rest w))
  on_received a rest w (x ∷ before) after answers r e (h, hs) lt k =
      let (w', done) = k before (same_tail e) hs (omega arith) in
      (
        w',
        (λ i. on_answer env m group (same_head e i) rest w)
            ∙ ap (λ (f : Exec W (Unit {0})). f w) (waits x rest h)
            ∙ done,
      )

  wait_loop-Polls :
      (open' waiting : ℕ) (queue : List Answer) (w : W) (es : List WaitEvent)
      (answers before after : List Answer) (r : ℕ)
      → Polls open' waiting w es answers r
      → waiting ≡ length queue
      → queue ++ answers ≡ before ++ (ok NodegroupStatus.active ∷ after)
      → All IsWaiting before
      → length before < r
      → (w' : W) × (wait_loop env m group open' queue es w ≡ (ok tt, w'))
  unfolding wait_loop
  wait_loop-Polls o n queue w [] answers before after r ended l e h lt = absurd (omega arith)
  wait_loop-Polls o n queue w (_ ∷ es) answers before after r (tick p) l e h lt =
      wait_loop-Polls (suc o) n queue w es answers before after r p l e h lt
  wait_loop-Polls (suc o) n queue w (_ ∷ es) (_ ∷ answers) before after r (call a w₁ at p) l e h
        lt =
      let (w', done) =
        wait_loop-Polls o (suc n) (queue ++ (a ∷ [])) w₁ es answers before after r p
          (ap suc l ∙ sym (length-snoc queue a)) (snoc_append queue a answers ∙ e) h lt in
      (w', bind_after (answer env m group) _ w w₁ a at ∙ done)
  wait_loop-Polls o (suc n) [] w (_ ∷ es) answers before after (suc r) (receive p) l e h lt =
      absurd (omega arith)
  wait_loop-Polls o (suc n) (a ∷ queue) w (_ ∷ es) answers before after (suc r) (receive p) l e h
        lt =
      on_received a (wait_loop env m group o queue es) w before after (queue ++ answers) r e h lt
        λ before' e' h' lt'.
          wait_loop-Polls o n queue w es answers before' after r p (omega arith) e' h' lt'

  -- In whatever order the ticks, the calls and the receipts come, the wait ends with success if, before
  -- the end of the context, an answer that the group is active is received and every call before that
  -- answer's failed or found the update going on. No call panics.
  pub wait_for_update_completion-Polls :
      (w : W) (answers before after : List Answer) (r : ℕ)
      → Polls zero zero
          (env.wait_events m.cluster_name group w).1
          (env.wait_events m.cluster_name group w).0
          answers
          r
      → answers ≡ before ++ (ok NodegroupStatus.active ∷ after)
      → All IsWaiting before
      → length before < r
      → (w' : W) × (wait_for_update_completion env m group w ≡ (ok tt, w'))
  unfolding wait_for_update_completion ◌>>=◌ total
  wait_for_update_completion-Polls w answers before after r p e h lt =
      let (es, w₁) = env.wait_events m.cluster_name group w in
      wait_loop-Polls zero zero [] w₁ es answers before after r p refl e h lt
