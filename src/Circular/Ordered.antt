-- ===== src/Circular/Ordered.antt =====
-- Every step of the parent and the child of include/tswrite.h is one of the queue, and the queue has
-- its end last.
use mts_utils.Base.{ℕ, ◌≡◌, ◌⊎◌, inl, inr, refl, sym, ◌∙◌, List, [], ◌∷◌, ◌++◌, Bool, true, false}
use mathlib.Core.Path.{subst}
use mts_utils.Circular.Steps.{
  Entry, packets, eof, System, Step, start, copy, complete, prepare, mark, release, send, advance,
  stop, Queue,
}
use mts_utils.Circular.Refine.{
  QueueStep, rest, put, commit, close, take_out, finish, Represents, Matches,
}
use mts_utils.Circular.Simulate.{start-Matches}
use mts_utils.Circular.Fill.{copy-Matches, complete-Matches, prepare-Matches}
use mts_utils.Circular.Ends.{mark-Matches, release-Matches}
use mts_utils.Circular.Takes.{send-Matches, advance-Matches, stop-Matches}

-- Where a system of parent, child and circular buffer stands for a queue of items, each of their
-- steps is one of the queue, which holds fewer entries than the buffer has items, or none, and
-- the system still stands for the queue.
pub Step-Matches :
    {s t : System} (q : Queue) → Represents s q → Step s t → Matches s.writer.buffer.size t q
Step-Matches q reps (start s writer fills not_started not_full step) =
    start-Matches s q writer reps fills not_started not_full step
Step-Matches q reps (copy s packet writer fills started long step) =
    copy-Matches s q packet writer reps fills started long step
Step-Matches q reps (complete s it writer fills started looked not_empty step) =
    complete-Matches s q it writer reps fills started looked not_empty step
Step-Matches q reps (prepare s full) = prepare-Matches s q reps full
Step-Matches q reps (mark s writer fills not_started not_full step) =
    mark-Matches s q writer reps fills not_started not_full step
Step-Matches q reps (release s ends) = release-Matches s q reps ends
Step-Matches q reps (send s bytes waits not_empty not_eof read) =
    send-Matches s q reps waits bytes not_empty not_eof read
Step-Matches q reps (advance s buffer sends step) = advance-Matches s q buffer reps sends step
Step-Matches q reps (stop s buffer waits not_empty is_eof) =
    stop-Matches s q reps waits buffer not_empty is_eof

abbrev pub NoEof : List Entry → Type 0
NoEof [] = Unit
NoEof (packets bytes ∷ es) = NoEof es
NoEof (eof ∷ es) = ⊥

-- The end comes last, and nothing is left behind it.
abbrev pub IsOrdered : Queue → Type 0
IsOrdered q =
    ((q.closing ≡ false) × (q.closed ≡ false) × NoEof q.entries)
    ⊎ ((q.closing ≡ true)
        × (q.current ≡ [])
        × (((ds : List Entry) × (q.entries ≡ ds ++ eof ∷ []) × NoEof ds × (q.closed ≡ false))
            ⊎ (q.entries ≡ [])))

NoEof-snoc : (es : List Entry) (bytes : List ℕ) → NoEof es → NoEof (es ++ packets bytes ∷ [])
NoEof-snoc [] bytes h = tt
NoEof-snoc (packets b ∷ es) bytes h = NoEof-snoc es bytes h
NoEof-snoc (eof ∷ es) bytes h = absurd h

not_false : {b : Bool} → b ≡ true → b ≡ false → ⊥
not_false e f = cc

-- What an ordered queue has left once its first entry is out.
Taken : Queue → List Entry → Bool → Type 0
Taken q more closed =
    ((q.closing ≡ false) × (closed ≡ false) × NoEof more)
    ⊎ ((q.closing ≡ true)
        × (q.current ≡ [])
        × (((ds : List Entry) × (more ≡ ds ++ eof ∷ []) × NoEof ds × (closed ≡ false))
            ⊎ (more ≡ [])))

closing_take :
    (q : Queue) (bytes : List ℕ) (more ds : List Entry)
    → packets bytes ∷ more ≡ ds ++ eof ∷ []
    → NoEof ds
    → (es : List Entry) × (more ≡ es ++ eof ∷ []) × NoEof es
closing_take q bytes more [] e no_eof = cc
closing_take q bytes more (packets b ∷ ds) e no_eof = (ds, cc, no_eof)
closing_take q bytes more (eof ∷ ds) e no_eof = absurd no_eof

closing_finish : (more ds : List Entry) → eof ∷ more ≡ ds ++ eof ∷ [] → NoEof ds → more ≡ []
closing_finish more [] e no_eof = cc
closing_finish more (packets b ∷ ds) e no_eof = cc
closing_finish more (eof ∷ ds) e no_eof = absurd no_eof

no_empty : (e : Entry) (more : List Entry) → e ∷ more ≡ [] → ⊥
no_empty e more h = cc

take_ordered :
    (q : Queue) (bytes : List ℕ) (more : List Entry)
    → q.entries ≡ packets bytes ∷ more
    → IsOrdered q
    → Taken q more q.closed
unfolding Taken
take_ordered q bytes more entries (inl (open1, unclosed, no_eof)) =
    inl (open1, unclosed, subst NoEof entries no_eof)
take_ordered q bytes more entries (inr (closing, no_bytes, inl (ds, e, no_eof, unclosed))) =
    let (es, left, no_more) = closing_take q bytes more ds (sym entries ∙ e) no_eof in
    inr (closing, no_bytes, inl (es, left, no_more, unclosed))
take_ordered q bytes more entries (inr (closing, no_bytes, inr e)) =
    absurd (no_empty (packets bytes) more (sym entries ∙ e))

finish_ordered :
    (q : Queue) (more : List Entry) → q.entries ≡ eof ∷ more → IsOrdered q → Taken q more true
unfolding Taken
finish_ordered q more entries (inl (open1, unclosed, no_eof)) = absurd (subst NoEof entries no_eof)
finish_ordered q more entries (inr (closing, no_bytes, inl (ds, e, no_eof, unclosed))) =
    inr (closing, no_bytes, inr (closing_finish more ds (sym entries ∙ e) no_eof))
finish_ordered q more entries (inr (closing, no_bytes, inr e)) =
    absurd (no_empty eof more (sym entries ∙ e))

pub QueueStep-IsOrdered : {size : ℕ} {q r : Queue} → QueueStep size q r → IsOrdered q → IsOrdered r
unfolding Taken
QueueStep-IsOrdered (rest q) ordered = ordered
QueueStep-IsOrdered (put q bytes open1) (inl ordered) = inl ordered
QueueStep-IsOrdered (put q bytes open1) (inr (closing, empty_hand, more)) =
    absurd (not_false closing open1)
QueueStep-IsOrdered (commit q open1 room) (inl (o, unclosed, no_eof)) =
    inl (o, unclosed, NoEof-snoc q.entries q.current no_eof)
QueueStep-IsOrdered (commit q open1 room) (inr (closing, empty_hand, more)) =
    absurd (not_false closing open1)
QueueStep-IsOrdered (close q open1 no_bytes room) (inl (o, unclosed, no_eof)) =
    inr (refl, no_bytes, inl (q.entries, refl, no_eof, unclosed))
QueueStep-IsOrdered (close q open1 no_bytes room) (inr (closing, empty_hand, more)) =
    absurd (not_false closing open1)
QueueStep-IsOrdered (take_out q bytes more entries) ordered =
    take_ordered q bytes more entries ordered
QueueStep-IsOrdered (finish q more entries) ordered = finish_ordered q more entries ordered
