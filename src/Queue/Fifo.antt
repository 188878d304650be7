-- ===== src/Queue/Fifo.antt =====
-- The queue's specification: a list of payloads, oldest first; an empty queue answers null.
use semester_5_coursework.Prelude.{ℕ, List, [], ◌∷◌, ◌++◌}

abbrev pub push : List ℕ → ℕ → List ℕ
push xs v = xs ++ (v ∷ [])

abbrev pub pop : List ℕ → ℕ × List ℕ
pop [] = (0, [])
pop (v ∷ xs) = (v, xs)

abbrev pub peek : List ℕ → ℕ
peek [] = 0
peek (v ∷ xs) = v
