-- ===== src/SharedPtr/Life.antt =====
-- basic/type_ptr/simpleSharedPtr.h: an object lives exactly as long as pointers share it.
use c_study.Prelude.{ℕ, ◌≡◌, refl, sym, ap, ◌∙◌, subst, [], length, none, some}
use c_study.Prelude.Run.{ok, Returns}
use c_study.SharedPtr.{
  Store, handle_at, count_at, use_count, Op, op_construct_null, op_construct, op_copy_construct,
  op_copy_assign, op_move_construct, op_move_assign, op_reset, op_destruct, run_op, Fits, Reaches,
  start, call,
}
use c_study.SharedPtr.Count.{refs, count_at_lem}
use c_study.SharedPtr.Steps.{
  IsCounted, shared, construct_null-IsCounted, construct-IsCounted, copy_construct-IsCounted,
  copy_assign-IsCounted, move_construct-IsCounted, move_assign-IsCounted, reset-IsCounted,
  destruct-IsCounted,
}

run_op-IsCounted :
    (o : Op) (s : Store) → Fits o (length s.handles) → IsCounted s → Returns (run_op o s) IsCounted
unfolding run_op
run_op-IsCounted op_construct_null s f v = (_, refl, construct_null-IsCounted s v)
run_op-IsCounted (op_construct p) s f v = (_, refl, construct-IsCounted p s v)
run_op-IsCounted (op_copy_construct a) s f v = copy_construct-IsCounted a s v
run_op-IsCounted (op_copy_assign i a) s f v = copy_assign-IsCounted i a s f.0 v
run_op-IsCounted (op_move_construct other) s f v = (_, refl, move_construct-IsCounted other s f v)
run_op-IsCounted (op_move_assign i other) s f v = move_assign-IsCounted i other s f.0 f.1 v
run_op-IsCounted (op_reset i p) s f v = reset-IsCounted i p s f v
run_op-IsCounted (op_destruct i) s f v = destruct-IsCounted i s f v

start-IsCounted : IsCounted (record { handles = []; counts = [] })
unfolding refs
start-IsCounted = record { same = λ i. refl; counted = λ b. refl }

ok-injective : {A : Type 0} {x y : A} → ok x ≡ ok y → x ≡ y
ok-injective e = cc

-- In every store that constructions, copies, moves, assignments, resets and destructions lead to, and for
-- every block: its count is the number of pointers that share it. Both pointers of a handle are null together.
pub Reaches-IsCounted : (s : Store) → Reaches s → IsCounted s
Reaches-IsCounted _ start = start-IsCounted
Reaches-IsCounted _ (call {s} {t} o r f e) =
    let (u, run, v) = run_op-IsCounted o s f (Reaches-IsCounted s r) in
    subst IsCounted (ok-injective (sym run ∙ e)) v

-- In every store that calls of the members lead to, a call on slots that are there returns, and leads to such
-- a store again: no block is used or freed after it was deleted.
pub Reaches-Returns_call :
    (s : Store) (o : Op) → Reaches s → Fits o (length s.handles) → Returns (run_op o s) Reaches
Reaches-Returns_call s o r f =
    let (u, run, v) = run_op-IsCounted o s f (Reaches-IsCounted s r) in (u, run, call o r f run)

use_count_some :
    (s : Store) (i b : ℕ)
    → IsCounted s
    → (handle_at s i).control ≡ some b
    → count_at s.counts b ≡ ok (refs b s.handles)
use_count_some s i b v e = count_at_lem s.counts b (shared s i b v e) ∙ ap ok (sym (v.counted b))

use_count-eq :
    (s : Store) (i b : ℕ) → (handle_at s i).control ≡ some b → use_count i s ≡ count_at s.counts b
unfolding use_count
use_count-eq s i b e = ap (λ o. elim o [ none ↦ ok 0 | some b' ↦ count_at s.counts b' ]) e

-- In such a store `use_count()` of a pointer that is not null is the number of pointers that share its block.
use_count-refs :
    (s : Store) (i b : ℕ)
    → Reaches s
    → (handle_at s i).control ≡ some b
    → use_count i s ≡ ok (refs b s.handles)
use_count-refs s i b r e = use_count-eq s i b e ∙ use_count_some s i b (Reaches-IsCounted s r) e
