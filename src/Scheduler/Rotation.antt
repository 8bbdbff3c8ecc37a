-- ===== src/Scheduler/Rotation.antt =====
-- The round: every task of the queue has its turn, in order, and the queue is as it was.
use fzkernel.Base.{ℕ, zero, suc, ◌≡◌, sym, ap, ◌∙◌, Option, some, List, [], ◌∷◌, ◌++◌, length}
use mathlib.Core.List.{append-nil, append_assoc}
use fzkernel.Scheduler.{insert_task, next_task}

-- The tasks that the next `n` calls return, and the queue after them.
abbrev pub turns : ℕ → List ℕ → List (Option ℕ) × List ℕ
turns zero q = ([], q)
turns (suc n) q =
    let first = next_task q in let rest = turns n first.1 in (first.0 ∷ rest.0, rest.1)

abbrev pub each : List ℕ → List (Option ℕ)
each [] = []
each (x ∷ xs) = some x ∷ each xs

turns-append : (xs ys : List ℕ) → turns (length xs) (xs ++ ys) ≡ (each xs, ys ++ xs)
unfolding next_task insert_task
turns-append [] ys = ap (λ q. ([], q)) (sym (append-nil ys))
turns-append (x ∷ xs) ys =
    let moved : (xs ++ ys) ++ (x ∷ []) ≡ xs ++ (ys ++ (x ∷ [])) = append_assoc xs ys (x ∷ []) in
    let later = ap (λ q. turns (length xs) q) moved ∙ turns-append xs (ys ++ (x ∷ [])) in
    let whole : (ys ++ (x ∷ [])) ++ xs ≡ ys ++ (x ∷ xs) = append_assoc ys (x ∷ []) xs in
    ap (λ r. (some x ∷ r.0, r.1)) (later ∙ ap (λ q. (each xs, q)) whole)

-- As many calls of `next_task` as the queue is long return every task of the queue once, in the
-- order of the queue, and leave the queue as it was.
pub next_task-turns : (q : List ℕ) → turns (length q) q ≡ (each q, q)
next_task-turns q = ap (λ l. turns (length q) l) (sym (append-nil q)) ∙ turns-append q []
