-- ===== src/Queue/Jsonl/Runs.antt =====
-- Any sequence of calls on the JSONL store, of all methods but `create_job`.
use blessing_ai.Prelude.{ℕ, String, Option, List, [], ◌∷◌}
use blessing_ai.Queue.Models.{GateState, JobKind, JobRecord}
use blessing_ai.Queue.Jobs.{Moved, moves}
use blessing_ai.Queue.Jobs.Invariant.{IsValid, Evolves-IsValid}
use blessing_ai.Queue.Jsonl
use blessing_ai.Queue.Jsonl.{Files, read_jobs}
use blessing_ai.Queue.Jsonl.Claim
use blessing_ai.Queue.Jsonl.Finish
use blessing_ai.Queue.Jsonl.Replay.{read_event}
use blessing_ai.Queue.Jsonl.Recovery.{recover_expired-IsValid}
use blessing_ai.Queue.Jsonl.Moves
use blessing_ai.Queue.Jsonl.Moves.{claim_next-Evolves}

-- The arguments of a method, times included, in the method's order.
pub data JsonlCall : Type 0 where
  claim_next : String → ℕ → ℕ → Option (List JobKind) → JsonlCall
  heartbeat : ℕ → String → ℕ → ℕ → JsonlCall
  recover_expired : ℕ → JsonlCall
  append_event : ℕ → String → String → ℕ → JsonlCall
  update_conversation_id : ℕ → String → ℕ → JsonlCall
  mark_success :
      ℕ → String → String → String → Option String → Option String → GateState → ℕ → ℕ → JsonlCall
  mark_failure :
      ℕ
      → String
      → String
      → Option String
      → Option String
      → Option String
      → GateState
      → ℕ
      → ℕ
      → JsonlCall
  schedule_retry : ℕ → ℕ → String → Option String → ℕ → JsonlCall
  retry_failed : ℕ → ℕ → ℕ → JsonlCall
  cancel : ℕ → ℕ → ℕ → JsonlCall

unfoldable pub call : JsonlCall → Files → Files
call (JsonlCall.claim_next w now ttl kinds) s = (Claim.claim_next w now ttl kinds s).1
call (JsonlCall.heartbeat i w until now) s = (Claim.heartbeat i w until now s).1
call (JsonlCall.recover_expired now) s = (Claim.recover_expired now s).1
call (JsonlCall.append_event i t raw now) s = Jsonl.append_event i t raw now s
call (JsonlCall.update_conversation_id i c now) s = Jsonl.update_conversation_id i c now s
call (JsonlCall.mark_success i w r path c head gate finished now) s =
    (Finish.mark_success i w r path c head gate finished now s).1
call (JsonlCall.mark_failure i w code err r head gate finished now) s =
    (Finish.mark_failure i w code err r head gate finished now s).1
call (JsonlCall.schedule_retry i next code err now) s =
    (Finish.schedule_retry i next code err now s).1
call (JsonlCall.retry_failed i due now) s = (Finish.retry_failed i due now s).1
call (JsonlCall.cancel i finished now) s = (Finish.cancel i finished now s).1

unfoldable pub call_all : List JsonlCall → Files → Files
call_all [] s = s
call_all (c ∷ cs) s = call_all cs (call c s)

keep :
    (s : Files) {ys : List JobRecord} → IsValid (read_jobs s) → Moved (read_jobs s) ys → IsValid ys
keep s v m = Evolves-IsValid (moves m) v

call-IsValid : (c : JsonlCall) (s : Files) → IsValid (read_jobs s) → IsValid (read_jobs (call c s))
unfolding call Jsonl.append_event
call-IsValid (JsonlCall.claim_next w now ttl kinds) s v =
    Evolves-IsValid (claim_next-Evolves w now ttl kinds s v.unique) v
call-IsValid (JsonlCall.heartbeat i w until now) s v =
    keep s v (Moves.heartbeat-Moved i now s v.unique w until)
call-IsValid (JsonlCall.recover_expired now) s v = recover_expired-IsValid now s v
call-IsValid (JsonlCall.append_event i t raw now) s v = rw (read_event i t raw now s) v
call-IsValid (JsonlCall.update_conversation_id i c now) s v =
    keep s v (Moves.update_conversation_id-Moved i now s v.unique c)
call-IsValid (JsonlCall.mark_success i w r path c head gate finished now) s v =
    keep s v (Moves.mark_success-Moved i now s v.unique w r path c head gate finished)
call-IsValid (JsonlCall.mark_failure i w code err r head gate finished now) s v =
    keep s v (Moves.mark_failure-Moved i now s v.unique w code err r head gate finished)
call-IsValid (JsonlCall.schedule_retry i next code err now) s v =
    keep s v (Moves.schedule_retry-Moved i now s v.unique next code err)
call-IsValid (JsonlCall.retry_failed i due now) s v =
    keep s v (Moves.retry_failed-Moved i now s v.unique due)
call-IsValid (JsonlCall.cancel i finished now) s v =
    keep s v (Moves.cancel-Moved i now s v.unique finished)

-- If the jobs that the files hold have unique ids, are each sound and never share a scope while they
-- run, then so do those that are read back after any of these calls.
pub call_all-IsValid :
    (cs : List JsonlCall) (s : Files) → IsValid (read_jobs s) → IsValid (read_jobs (call_all cs s))
unfolding call_all
call_all-IsValid [] s v = v
call_all-IsValid (c ∷ cs) s v = call_all-IsValid cs (call c s) (call-IsValid c s v)
