-- ===== src/Log/Order.antt =====
-- basic/final1/log.h: no message is lost.
use c_study.Prelude.{
  ◌≡◌, refl, sym, ap, ◌∙◌, subst, ℕ, List, [], ◌∷◌, ◌++◌, append_assoc, none, some, Bool, true,
  false, if◌then◌else◌,
}
use c_study.Log.{LogQueue, push, pop, shutdown, Reaches, start, pushed, popped, closed}

-- The file and then the queue have what was pushed; a worker that has ended left nothing.
abbrev pub Complete : List (List ℕ) → LogQueue → Type 0
Complete ms s =
    (s.written ++ s.queue ≡ ms) × (s.ended ≡ true → (s.queue ≡ []) × (s.is_shutdown ≡ true))

some-injective : {A : Type 0} {x y : A} → some x ≡ some y → x ≡ y
some-injective e = cc

none-some : {A : Type 0} {x : A} → none ≡ some x → ⊥
none-some e = cc

differ : false ≡ true → ⊥
differ e = cc

pop-Complete :
    (ms : List (List ℕ)) (s t : LogQueue) (q : List (List ℕ)) (stopped : Bool)
    → s.queue ≡ q
    → s.is_shutdown ≡ stopped
    → Complete ms s
    → s.ended ≡ false
    → pop s q ≡ some t
    → Complete ms t
unfolding pop
pop-Complete ms s t [] true eq es c go e =
    subst (Complete ms) (some-injective (rw (es, if◌then◌else◌) at e)) (c.0, λ _. (eq, refl))
pop-Complete ms s t [] false eq es c go e = absurd (none-some (rw (es, if◌then◌else◌) at e))
pop-Complete ms s t (m ∷ q) stopped eq es c go e = subst (Complete ms) (some-injective e) (
  append_assoc s.written (m ∷ []) q ∙ ap (λ xs. s.written ++ xs) (sym eq) ∙ c.0,
  λ end. absurd (differ (sym go ∙ end)),
)

-- In every state that a logger reaches, the lines in the file followed by the queue are the pushed messages,
-- each once and in order; and once the worker's loop has ended, the queue is empty and the logger
-- was shut down: no message is lost at the end.
pub Reaches-Complete : (ms : List (List ℕ)) (s : LogQueue) → Reaches ms s → Complete ms s
unfolding push shutdown
Reaches-Complete _ _ start = (refl, λ e. absurd (differ e))
Reaches-Complete _ _ (pushed {ms} {s} msg r running) =
    let (all, end) = Reaches-Complete ms s r in
    (
      sym (append_assoc s.written s.queue (msg ∷ [])) ∙ ap (λ xs. xs ++ msg ∷ []) all,
      λ e. absurd (differ (sym running ∙ (end e).1)),
    )
Reaches-Complete ms _ (popped {s} {t} r go e) =
    pop-Complete ms s t s.queue s.is_shutdown refl refl (Reaches-Complete ms s r) go e
Reaches-Complete ms _ (closed {s} r) =
    let (all, end) = Reaches-Complete ms s r in (all, λ e. ((end e).0, refl))
