-- ===== src/Process/Closed.antt =====
-- When the calls of the process close what they have opened.
use chain_application.Prelude.{
  ℕ, ◌+◌, ◌≡◌, refl, List, [], ◌∷◌, ◌++◌, Bool, true, false, ◌&&◌, ltb, if◌then◌else◌,
}
use chain_application.App.{
  Call, open_database, close_database, serve, close_http, close_telemetry, flush_logger,
}

abbrev is_open_database : Call → Bool
is_open_database c = elim c [ open_database ↦ true | _ ↦ false ]

abbrev is_close_database : Call → Bool
is_close_database c = elim c [ close_database ↦ true | _ ↦ false ]

abbrev is_serve : Call → Bool
is_serve c = elim c [ serve ↦ true | _ ↦ false ]

abbrev is_close_http : Call → Bool
is_close_http c = elim c [ close_http t ↦ true | _ ↦ false ]

abbrev is_close_telemetry : Call → Bool
is_close_telemetry c = elim c [ close_telemetry ↦ true | _ ↦ false ]

abbrev is_flush_logger : Call → Bool
is_flush_logger c = elim c [ flush_logger ↦ true | _ ↦ false ]

abbrev pub count : (Call → Bool) → List Call → ℕ
count p [] = 0
count p (c ∷ cs) = (if p c then 1 else 0) + count p cs

-- After each call of the first kind comes one of the second.
abbrev pub follows : (Call → Bool) → (Call → Bool) → List Call → Bool
follows p q [] = true
follows p q (c ∷ cs) = (if p c then ltb 0 (count q cs) else true) && follows p q cs

-- Telemetry is shut down once and the logger is flushed after it; a server that serves is shut down
-- after it has started, and a store that was opened is closed.
abbrev pub IsClosed : List Call → Type 0
IsClosed calls =
    (count is_close_telemetry calls ≡ 1)
    × (follows is_close_telemetry is_flush_logger calls ≡ true)
    × (count is_close_http calls ≡ count is_serve calls)
    × (follows is_serve is_close_http calls ≡ true)
    × (count is_close_database calls ≡ count is_open_database calls)
    × (follows is_open_database is_close_database calls ≡ true)

-- What stands before the deferred calls: a cleanup, or a run with or without a second flush.
pub data IsBody : List Call → Type 0 where
  failed : IsBody (close_telemetry ∷ flush_logger ∷ [])
  finished : (t : ℕ) → IsBody (serve ∷ close_http t ∷ close_telemetry ∷ flush_logger ∷ [])
  reported :
      (t : ℕ) → IsBody (serve ∷ close_http t ∷ close_telemetry ∷ flush_logger ∷ flush_logger ∷ [])

pub IsBody-IsClosed :
    (body : List Call)
    → IsBody body
    → IsClosed (body ++ []) × IsClosed (open_database ∷ body ++ close_database ∷ [])
IsBody-IsClosed _ failed =
    ((refl, refl, refl, refl, refl, refl), (refl, refl, refl, refl, refl, refl))
IsBody-IsClosed _ (finished t) =
    ((refl, refl, refl, refl, refl, refl), (refl, refl, refl, refl, refl, refl))
IsBody-IsClosed _ (reported t) =
    ((refl, refl, refl, refl, refl, refl), (refl, refl, refl, refl, refl, refl))
