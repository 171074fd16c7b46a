-- ===== src/Variables/Local.antt =====
-- A local variable that is new, read back at its place.
use sc_open.Prelude.{Option}
use sc_open.TmpVariables.{Text, Search}
use sc_open.Variables.{vt_user, Place, Put, done, Got, variable_get}

-- What a place reads of a name after a put.
unfoldable pub read_back : Search → Place → (name : Text) → Put → Got
read_back bsearch p name (done t) = variable_get bsearch p name vt_user t
read_back bsearch p name _ = Got.out_of_bounds
