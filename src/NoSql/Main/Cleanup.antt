-- ===== src/NoSql/Main/Cleanup.antt =====
-- The cleanup of the database server.
use wasm_cloud_computing_ben.Prelude.{
  ℕ, suc, ◌+◌, ◌≡◌, ◌≢◌, refl, ap, ◌∙◌, Option, none, some, List, [], ◌∷◌, ◌++◌, arith,
}
use wasm_cloud_computing_ben.Prelude.Int.{ℤ, pos, negsuc}
use wasm_cloud_computing_ben.Server.Address.{Ntop}
use wasm_cloud_computing_ben.Server.{
  Accepted, failed, accepted, Event, shut, closed, database_detached, database_deleted, Ending,
  broke, jumped, blocked, crashed, Answers, accept_loop, serve, Exit, success, failure, finish,
}
use wasm_cloud_computing_ben.NoSql.Db.{Db}
use wasm_cloud_computing_ben.NoSql.Work.{fill_db}
use wasm_cloud_computing_ben.NoSql.Main.{main, cleanup}

-- How often the database was detached and deleted, and the descriptors that the server closes of its own.
pub record Tally : Type 0 where
  pub detached : ℕ
  pub deleted : ℕ
  pub closes : List ℕ

abbrev pub tally : List Event → Tally
tally [] = record { detached = 0; deleted = 0; closes = [] }
tally (database_detached ∷ es) = record (tally es) { detached = suc (tally es).detached }
tally (database_deleted ∷ es) = record (tally es) { deleted = suc (tally es).deleted }
tally (closed fd ∷ es) = record (tally es) { closes = fd ∷ (tally es).closes }
tally (_ ∷ es) = tally es

-- Events of the accepting loop: none of these.
abbrev IsQuiet : List Event → Type 0
IsQuiet es = tally es ≡ record { detached = 0; deleted = 0; closes = [] }

abbrev Adds : List Event → List Event → Type 0
Adds xs ys =
    ((tally (xs ++ ys)).detached ≡ (tally xs).detached + (tally ys).detached)
    × ((tally (xs ++ ys)).deleted ≡ (tally xs).deleted + (tally ys).deleted)
    × ((tally (xs ++ ys)).closes ≡ (tally xs).closes ++ (tally ys).closes)

tally-append : (xs ys : List Event) → Adds xs ys
tally-append [] ys = (omega arith, omega arith, refl)
tally-append (closed fd ∷ xs) ys =
    let (detached, deleted, closes) = tally-append xs ys in
    (detached, deleted, ap (λ l. fd ∷ l) closes)
tally-append (x ∷ xs) ys =
    let (detached, deleted, closes) = tally-append xs ys in (omega arith, omega arith, closes)

accept_loop-IsQuiet : (ntop : Ntop) (os : List Accepted) → IsQuiet (accept_loop ntop os).0
unfolding accept_loop
accept_loop-IsQuiet ntop [] = refl
accept_loop-IsQuiet ntop (failed ∷ rest) = refl
accept_loop-IsQuiet ntop (accepted fd addr allocated started ∷ rest) =
    ground (arith, accept_loop-IsQuiet ntop rest)

abbrev pub sockets : ℤ → List ℕ
sockets (pos fd) = fd ∷ []
sockets (negsuc n) = []

abbrev own : Option ℕ → List ℕ
own none = []
own (some fd) = fd ∷ []

abbrev IsEnd : Exit → Type 0
IsEnd success = Unit
IsEnd failure = Unit
IsEnd _ = ⊥

finish-tally :
    (fd : Option ℕ) (events : List Event) (ending : Ending)
    → IsQuiet events
    → IsEnd (finish cleanup (fd, events, ending)).1
    → tally (finish cleanup (fd, events, ending)).0
      ≡ record { detached = 1; deleted = 1; closes = own fd }
unfolding finish
finish-tally none events broke quiet e = ground (arith, tally-append events cleanup)
finish-tally (some fd) events broke quiet e =
    ground (arith, tally-append events (cleanup ++ (shut fd ∷ closed fd ∷ [])))
finish-tally none events jumped quiet e = ground (arith, tally-append events cleanup)
finish-tally (some fd) events jumped quiet e =
    ground (arith, tally-append events (cleanup ++ (closed fd ∷ [])))
finish-tally fd events blocked quiet e = elim e [ ]
finish-tally fd events crashed quiet e = elim e [ ]

serve-IsQuiet :
    (ntop : Ntop) (os : Answers)
    → IsQuiet (serve ntop os).1 × (own (serve ntop os).0 ≡ sockets os.socket)
unfolding serve
serve-IsQuiet ntop os = ground (arith, accept_loop-IsQuiet ntop os.accepts)

serve-finish-tally :
    (ntop : Ntop) (os : Answers)
    → IsEnd (finish cleanup (serve ntop os)).1
    → tally (finish cleanup (serve ntop os)).0
      ≡ record { detached = 1; deleted = 1; closes = sockets os.socket }
serve-finish-tally ntop os e =
    let (quiet, counted) = serve-IsQuiet ntop os in
    let (fd, events, ending) = serve ntop os in
    finish-tally fd events ending quiet e
    ∙ ap (λ n. record { detached = 1; deleted = 1; closes = n }) counted

finish-IsEnd :
    (fd : Option ℕ) (events : List Event) (ending : Ending)
    → ending ≢ blocked
    → ending ≢ crashed
    → IsEnd (finish cleanup (fd, events, ending)).1
unfolding finish
finish-IsEnd fd events broke b c = tt
finish-IsEnd fd events jumped b c = tt
finish-IsEnd fd events blocked b c = absurd (b refl)
finish-IsEnd fd events crashed b c = absurd (c refl)

-- Where the initial records fit in the database, and with a server that neither waits for ever nor crashes,
-- `main` has detached and deleted the database exactly once, and has closed the descriptor of its own socket
-- exactly once if it got one, and no other but those of clients.
pub main_cleans_up :
    (d : Db) (ntop : Ntop) (s s' : d.Store) (indeterminate : Option ℕ) (os : Answers)
    → fill_db d s ≡ some s'
    → (serve ntop os).2 ≢ blocked
    → (serve ntop os).2 ≢ crashed
    → tally (main d ntop (some s) indeterminate os).0
      ≡ record { detached = 1; deleted = 1; closes = sockets os.socket }
unfolding main
main_cleans_up d ntop s s' indeterminate os filled live defined =
    let (fd, events, ending) = serve ntop os in
    rw (filled, main) (serve-finish-tally ntop os (finish-IsEnd fd events ending live defined))
