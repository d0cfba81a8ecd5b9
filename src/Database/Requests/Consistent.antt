-- ===== src/Database/Requests/Consistent.antt =====
-- crates/adapters/src/operation_journal.rs: what holds of the tables after any sequence of requests.
use compose_nest.Common.{refl, ◌&&◌, List, [], ◌∷◌, ◌++◌, arith}
use compose_nest.Database.{Tables, Engine, is_open}
use compose_nest.Database.Operations.{is_step}
use compose_nest.Database.Requests.{
  Request, serve_all, serve, EnforcesKeys, Change, keeps, accepts, records, finishes, reconciles,
  moves, interrupts,
}
use compose_nest.Database.Requests.Refines.{serve-Change}
use compose_nest.Database.Requests.Preserved.{
  accepts-IsConsistent, records-IsConsistent, finishes-IsConsistent, moves-IsConsistent,
  interrupts-IsConsistent, IsConsistent,
}

pub Change-IsConsistent : (s t : Tables) → IsConsistent s → Change s t → IsConsistent t
Change-IsConsistent s t c (keeps e) = rw e c
Change-IsConsistent s t c (accepts row receipt instances new same fresh free request plan e) =
    rw e (accepts-IsConsistent s instances row (s.receipts ++ receipt ∷ []) c new fresh free)
Change-IsConsistent s t c (records parent row looked running attempt unfinished next idle fresh e) =
    rw e (records-IsConsistent s parent row c looked running next idle fresh)
Change-IsConsistent s t c (finishes id sequence outcome now e) =
    rw e (finishes-IsConsistent s (λ r. is_step id sequence r && is_open r) outcome now c)
Change-IsConsistent s t c (reconciles id sequence outcome now row found again e) =
    rw e (finishes-IsConsistent s (is_step id sequence) outcome now c)
Change-IsConsistent s t c (moves id current status f looked live same ends e) =
    rw e (moves-IsConsistent s id current status f c looked live same ends)
Change-IsConsistent s t c (interrupts e) = rw e (interrupts-IsConsistent s c)

-- The tables before the journal's first request.
abbrev pub no_operations : Tables → Tables
no_operations s = record s { operations = []; steps = []; receipts = [] }

module _ (engine : Engine) (enforces : EnforcesKeys engine) where
  kept : (qs : List Request) (s : Tables) → IsConsistent s → IsConsistent (serve_all engine qs s)
  kept [] s c = c
  kept (q ∷ qs) s c =
      kept qs (serve engine q s) (Change-IsConsistent s _ c (serve-Change engine enforces q s))

  -- After any requests of the operation journal to a database that began with no operations: an instance has at most one
  -- unresolved operation, the steps of every operation are numbered 1, 2, ... within 64 bits and only
  -- the last may lack an outcome, a resolved operation has no such step, no two operations have one
  -- ID, and every step belongs to an operation.
  pub serve_all-IsConsistent :
      (qs : List Request) (s : Tables) → IsConsistent (serve_all engine qs (no_operations s))
  serve_all-IsConsistent qs s = kept qs (no_operations s) (record {
    step_keys = tt;
    keys = tt;
    single = λ id. omega arith;
    logs = λ id. tt;
    closed = λ id r found done. refl;
    owned = λ id lost. refl;
  })
