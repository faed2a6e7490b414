-- ===== src/Queue/Sqlite/Runs.antt =====
-- Any sequence of calls from the empty database.
use blessing_ai.Prelude.{
  ◌≡◌, refl, String, some, List, [], ◌∷◌, arith, All, All-In, In, here, there, eq_iff,
}
use blessing_ai.Queue.Models.{running, JobRecord}
use blessing_ai.Queue.Jobs.{IsApart, IsExclusive}
use blessing_ai.Queue.Jobs.Invariant.{IsValid, Evolves-IsValid}
use blessing_ai.Queue.Sqlite.Table.{Db, initial}
use blessing_ai.Queue.Sqlite.Calls.{Call, perform, perform_all, IsAdmissible}
use blessing_ai.Queue.Sqlite.Moves.{perform-Evolves}

pub initial-IsValid : IsValid initial.jobs
initial-IsValid = record { unique = tt; sound = tt; exclusive = tt }

-- Every method keeps the invariant of the queue: ids are unique, every job is sound, and no two
-- running jobs share a scope.
pub perform-IsValid :
    (c : Call) (db : Db) → IsAdmissible c → IsValid db.jobs → IsValid (perform c db).jobs
perform-IsValid c db a v = Evolves-IsValid (perform-Evolves c db a v.unique) v

pub perform_all-IsValid :
    (cs : List Call) (db : Db)
    → All IsAdmissible cs
    → IsValid db.jobs
    → IsValid (perform_all cs db).jobs
unfolding perform_all
perform_all-IsValid [] db a v = v
perform_all-IsValid (c ∷ cs) db a v =
    perform_all-IsValid cs (perform c db) a.1 (perform-IsValid c db a.0 v)

exclusive_pair :
    (xs : List JobRecord) {a b : JobRecord} (k : String)
    → IsExclusive xs
    → In a xs
    → In b xs
    → a.status ≡ running
    → b.status ≡ running
    → a.scope_key ≡ some k
    → b.scope_key ≡ some k
    → a ≡ b
exclusive_pair [] k h i j ra rb sa sb = elim i [ ]
exclusive_pair (x ∷ xs) k h here here ra rb sa sb = refl
exclusive_pair (x ∷ xs) k h here (there j) ra rb sa sb =
    let apart = All-In (IsApart x) h.0 j ra rb in ground (arith, eq_iff k k)
exclusive_pair (x ∷ xs) k h (there i) here ra rb sa sb =
    let apart = All-In (IsApart x) h.0 i rb ra in ground (arith, eq_iff k k)
exclusive_pair (x ∷ xs) k h (there i) (there j) ra rb sa sb =
    exclusive_pair xs k h.1 i j ra rb sa sb

-- After any calls on an empty queue, two running jobs of one scope are the same job.
pub one_running_per_scope :
    (cs : List Call) {a b : JobRecord} (k : String)
    → All IsAdmissible cs
    → In a (perform_all cs initial).jobs
    → In b (perform_all cs initial).jobs
    → a.status ≡ running
    → b.status ≡ running
    → a.scope_key ≡ some k
    → b.scope_key ≡ some k
    → a ≡ b
one_running_per_scope cs k ok =
    exclusive_pair (perform_all cs initial).jobs k
      (perform_all-IsValid cs initial ok initial-IsValid).exclusive
