-- ===== src/Os/Traces.antt =====
-- What a trace tells of the descriptors that were closed.
use scalable_server.Prelude.{ℤ, List, [], ◌∷◌, ◌++◌, ◌≡◌, refl}
use scalable_server.Os.Calls.{Call, Answer, Event, did, close}

unfoldable pub closes_after : (c : Call) → Answer c → List ℤ → List ℤ
closes_after (close fd) _ before = fd ∷ before
closes_after _ _ before = before

-- The descriptors that a trace tried to close, the last first.
unfoldable pub closes : List Event → List ℤ
unfolding closes_after
closes [] = []
closes (did c a ∷ t) = closes_after c a (closes t)

-- A list `xs`, its first element first, put on a list that has the last one first.
unfoldable pub followed_by : {A : Type 0} → List A → List A → List A
followed_by before [] = before
followed_by before (x ∷ xs) = followed_by (x ∷ before) xs

-- The calls of a trace, the last first.
unfoldable pub calls : List Event → List Call
calls [] = []
calls (did c a ∷ t) = c ∷ calls t

pub followed_by-append :
    {A : Type 0} (before xs ys : List A)
    → followed_by (followed_by before xs) ys ≡ followed_by before (xs ++ ys)
unfolding followed_by
followed_by-append before [] ys = refl
followed_by-append before (x ∷ xs) ys = followed_by-append (x ∷ before) xs ys
