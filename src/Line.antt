-- ===== src/Line.antt =====
-- source/io.c and the use of source/proto_timers.c by the protocol code: a serial line or socket as
-- the sequence of what its reads meet, with the running protocol timers and the bytes written.
pub mod Laws
use sc_open.Prelude.{
  ℕ, zero, suc, ◌+◌, Bool, true, false, ◌||◌, Option, none, some, List, [], ◌∷◌, ◌++◌, ◌==◌,
  if◌then◌else◌,
}

-- What happens while a read waits: read() delivers a byte, fails or reports the end of the
-- connection, or the alarm of a protocol timer goes off. Bytes with no `pause` between them have
-- arrived together, so that one read() of a longer buffer returns them at once.
pub data Event : Type 0 where
  got : ℕ → Event
  failed : Event
  expired : ℕ → Event
  pause : Event

-- `writes` holds the outcomes of the next calls of write(), which succeed once it is used up;
-- `timers` the indices of the running protocol timers; `sent` every byte written, in order.
pub record Line : Type 0 where
  pub events : List Event
  pub writes : List Bool
  pub sent : List ℕ
  pub timers : List ℕ

-- How a statement ends: with a value; by `return code` out of the C function; by the siglongjmp()
-- of a timer's alarm; or never, when a read has nothing left to wait for.
pub data Exit (A : Type 0) : Type 0 where
  value : A → Exit A
  ret : ℕ → Exit A
  jump : ℕ → Exit A
  blocked : Exit A

abbrev pub M : Type 0 → Type 0
M A = Line → Exit A × Line

abbrev pub pure : {A : Type 0} → A → M A
pure a l = (value a, l)

abbrev pub return : {A : Type 0} → ℕ → M A
return code l = (ret code, l)

abbrev pub bind_exit : {A B : Type 0} → Exit A → Line → (A → M B) → Exit B × Line
bind_exit (value a) l f = f a l
bind_exit (ret code) l f = (ret code, l)
bind_exit (jump k) l f = (jump k, l)
bind_exit blocked l f = (blocked, l)

infixl 5 ◌>>=◌ ◌>>◌
abbrev pub ◌>>=◌ : {A B : Type 0} → M A → (A → M B) → M B
◌>>=◌ m f l = let r = m l in bind_exit r.0 r.1 f

abbrev pub ◌>>◌ : {A B : Type 0} → M A → M B → M B
m >> k = m >>= λ _. k

abbrev pub mem : ℕ → List ℕ → Bool
mem k [] = false
mem k (j ∷ js) = k == j || mem k js

abbrev pub remove : ℕ → List ℕ → List ℕ
remove k [] = []
remove k (j ∷ js) = let rest = remove k js in if k == j then rest else j ∷ rest

-- start_proto_timer(): one that runs already is refused and left as it is. The return code is not
-- looked at by the protocol code.
unfoldable pub start_timer : ℕ → M (Unit {0})
start_timer k l = (value tt, if mem k l.timers then l else record l { timers = k ∷ l.timers })

unfoldable pub stop_timer : ℕ → M (Unit {0})
stop_timer k l = (value tt, record l { timers = remove k l.timers })

-- my_readc(): `none` is its error return. The alarm of a running timer stops that timer and jumps;
-- one of a timer that does not run has no effect.
unfoldable pub read_events : List ℕ → List Event → Exit (Option ℕ) × List Event × List ℕ
read_events timers [] = (blocked, [], timers)
read_events timers (got c ∷ es) = (value (some c), es, timers)
read_events timers (failed ∷ es) = (value none, es, timers)
read_events timers (expired k ∷ es) =
    let wait = read_events timers es in if mem k timers then (jump k, es, remove k timers) else wait
read_events timers (pause ∷ es) = read_events timers es

unfoldable pub my_readc : M (Option ℕ)
my_readc l = let r = read_events l.timers l.events in (r.0, record l { events = r.1; timers = r.2 })

-- The bytes that one read() of at most n bytes returns.
unfoldable pub take_run : ℕ → List Event → List ℕ × List Event
take_run zero es = ([], es)
take_run (suc n) [] = ([], [])
take_run (suc n) (got c ∷ es) = let r = take_run n es in (c ∷ r.0, r.1)
take_run (suc n) (failed ∷ es) = ([], failed ∷ es)
take_run (suc n) (expired k ∷ es) = ([], expired k ∷ es)
take_run (suc n) (pause ∷ es) = ([], pause ∷ es)

unfoldable pub readx_events : ℕ → List ℕ → List Event → Exit (Option (List ℕ)) × List Event × List ℕ
readx_events len timers [] = (blocked, [], timers)
readx_events len timers (got c ∷ es) =
    let r = take_run len (got c ∷ es) in (value (some r.0), r.1, timers)
readx_events len timers (failed ∷ es) = (value none, es, timers)
readx_events len timers (expired k ∷ es) =
    let wait = readx_events len timers es in
    if mem k timers then (jump k, es, remove k timers) else wait
readx_events len timers (pause ∷ es) = readx_events len timers es

-- my_readx(): `none` is its error return -1.
unfoldable pub my_readx : ℕ → M (Option (List ℕ))
my_readx len l =
    let r = readx_events len l.timers l.events in (r.0, record l { events = r.1; timers = r.2 })

-- my_write(): `false` is its error return. A write that succeeds is taken to write all bytes.
unfoldable pub my_write : List ℕ → M Bool
my_write bytes l = elim l.writes [
  | [] ↦ (value true, record l { sent = l.sent ++ bytes })
  | ok ∷ rest ↦
      if ok
      then (value true, record l { writes = rest; sent = l.sent ++ bytes })
      else (value false, record l { writes = rest })
]

-- my_writec(): `false` is its error return.
unfoldable pub my_writec : ℕ → M Bool
my_writec b l = elim l.writes [
  | [] ↦ (value true, record l { sent = l.sent ++ b ∷ [] })
  | ok ∷ rest ↦
      if ok
      then (value true, record l { writes = rest; sent = l.sent ++ b ∷ [] })
      else (value false, record l { writes = rest })
]

-- `if (my_writec(...)) return code;`
unfoldable pub write_or : (code b : ℕ) → M (Unit {0})
write_or code b = do ok ← my_writec b; if ok then pure tt else return code

abbrev pub catch_exit : {A : Type 0} → Exit A → Line → ℕ → M A → Exit A × Line
catch_exit (value a) l k handler = (value a, l)
catch_exit (ret code) l k handler = (ret code, l)
catch_exit (jump j) l k handler = if j == k then handler l else (jump j, l)
catch_exit blocked l k handler = (blocked, l)

-- `if (do_the_setsigjump(...)) handler` in front of a body: the jump of timer k lands in the handler.
unfoldable pub catch : {A : Type 0} → ℕ → M A → M A → M A
catch k body handler l = let r = body l in catch_exit r.0 r.1 k handler
