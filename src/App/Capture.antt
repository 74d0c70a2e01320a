-- ===== src/App/Capture.antt =====
-- responseCapture of internal/app/app.go: the status and the bytes that the access log reports.
use cherry_waf.Base.{
  ℕ, ◌+◌, ◌≡◌, refl, ap, ◌∙◌, Bool, true, false, List, [], ◌∷◌, arith, if◌then◌else◌, nat_eq,
  string_eq, text_eq,
}

pub record Capture : Type 0 where
  pub status : ℕ
  pub bytes : ℕ
  pub wrote : Bool

-- `&responseCapture{…, status: http.StatusOK}`
abbrev pub fresh : Capture
fresh = record { status = 200; bytes = 0; wrote = false }

unfoldable pub write_header : ℕ → Capture → Capture
write_header status w = if w.wrote then w else record w { status = status; wrote = true }

-- `Write` and `ReadFrom`: the number of bytes that the writer below took.
unfoldable pub write : ℕ → Capture → Capture
unfolding write_header
write n w = let w = if w.wrote then w else write_header 200 w in record w { bytes = w.bytes + n }

unfoldable pub flush : Capture → Capture
unfolding write_header
flush w = if w.wrote then w else write_header 200 w

pub data Call : Type 0 where
  header : ℕ → Call
  data_written : ℕ → Call
  flushed : Call

unfoldable pub call : Call → Capture → Capture
unfolding write_header write flush
call (header status) w = write_header status w
call (data_written n) w = write n w
call flushed w = flush w

unfoldable pub calls : List Call → Capture → Capture
unfolding call
calls [] w = w
calls (c ∷ cs) w = calls cs (call c w)

-- What a client is told: the status of the first call, which is 200 unless that sets another.
abbrev pub first_status : List Call → ℕ
first_status [] = 200
first_status (header status ∷ cs) = status
first_status (data_written n ∷ cs) = 200
first_status (flushed ∷ cs) = 200

abbrev pub total : List Call → ℕ
total [] = 0
total (header status ∷ cs) = total cs
total (data_written n ∷ cs) = n + total cs
total (flushed ∷ cs) = total cs

abbrev wrote_at : ℕ → ℕ → Capture
wrote_at status bytes = record { status = status; bytes = bytes; wrote = true }

calls-wrote :
    (cs : List Call) (status bytes : ℕ)
    → calls cs (wrote_at status bytes) ≡ wrote_at status (bytes + total cs)
unfolding calls call write_header write flush
calls-wrote [] status bytes = ap (wrote_at status) (omega arith)
calls-wrote (header later ∷ cs) status bytes = calls-wrote cs status bytes
calls-wrote (data_written n ∷ cs) status bytes =
    calls-wrote cs status (bytes + n) ∙ ap (wrote_at status) (omega arith)
calls-wrote (flushed ∷ cs) status bytes = calls-wrote cs status bytes

-- What is logged of the calls that follow a first one.
calls_from :
    (cs : List Call) (status bytes : ℕ)
    → ((calls cs (wrote_at status bytes)).status ≡ status)
      × ((calls cs (wrote_at status bytes)).bytes ≡ bytes + total cs)
calls_from cs status bytes = (
  ap (λ w. w.status) (calls-wrote cs status bytes),
  ap (λ w. w.bytes) (calls-wrote cs status bytes),
)

-- Whatever a handler calls, what is logged is the status of its first call and the sum of the bytes.
pub calls_logged :
    (cs : List Call)
    → ((calls cs fresh).status ≡ first_status cs) × ((calls cs fresh).bytes ≡ total cs)
unfolding calls call write_header write flush
calls_logged [] = (refl, refl)
calls_logged (header status ∷ cs) = let (s, b) = calls_from cs status 0 in (s, b ∙ omega arith)
calls_logged (data_written n ∷ cs) = let (s, b) = calls_from cs 200 (0 + n) in (s, b ∙ omega arith)
calls_logged (flushed ∷ cs) = let (s, b) = calls_from cs 200 0 in (s, b ∙ omega arith)
