-- ===== src/World.antt =====
-- The state of the server while it answers one request, and the steps that the handlers share.
-- One request runs to its end before the next one starts; within it the clock stands still.
use my_account_controller.Common.{ℕ, ◌+◌, ◌≡◌, refl, arith, Text, ok, err, prisma, Exec, List}
use my_account_controller.Database.{Db, Written, written, refused}
use my_account_controller.Auth.Session.{Session}
use my_account_controller.Auth.KeyStore.{Entries}

-- What an approved candidate asks of a mailbox.
pub data MailAction : Type 0 where
  delete spam : MailAction

-- A call that moved a message: the mail account, the message and the action.
pub record MailCall : Type 0 where
  pub email_account_id : Text
  pub external_message_id : Text
  pub action : MailAction

-- `mailbox` lists the calls that moved a message in a remote mailbox, the latest first. `draws` counts the reads from the random source: salts, initialisation vectors, states, ids.
pub record World : Type 0 where
  pub db : Db
  pub keys : Entries
  pub session : Session
  pub now : ℕ
  pub draws : ℕ
  pub mailbox : List MailCall

abbrev pub Action : Type 0 → Type 0
Action A = Exec World A

abbrev pub draw : Action ℕ
draw w = (ok w.draws, record w { draws = w.draws + 1 })

abbrev pub change_session : (Session → Session) → Action (Unit {0})
change_session f w = (ok tt, record w { session = f w.session })

abbrev pub change_keys : (Entries → Entries) → Action (Unit {0})
change_keys f w = (ok tt, record w { keys = f w.keys })

abbrev pub change_db : (Db → Db) → Action (Unit {0})
change_db f w = (ok tt, record w { db = f w.db })

abbrev pub db_of : World → Db
db_of w = w.db

abbrev pub put_db : Db → World → World
put_db db w = record w { db = db }

-- A write to one table: its rows after the write, or Prisma's error.
abbrev pub store : {Row : Type 0} → (World → Written Row) → (List Row → Db → Db) → Action (Unit {0})
store write put w = elim (write w) [
  | written rows ↦ (ok tt, record w { db = put rows w.db })
  | refused c ↦ (err (prisma c), w)
]

-- A write that went through: the rows that it left.
pub store-ok :
    {Row : Type 0} (write : World → Written Row) (put : List Row → Db → Db) (w : World) {w' : World}
    → store write put w ≡ (ok tt, w')
    → (rows : List Row) × (write w ≡ written rows) × (w' ≡ record w { db = put rows w.db })
store-ok write put w h = written_cases put w (write w) h
  where
    written_cases :
        {Row : Type 0} (put : List Row → Db → Db) (w : World) (result : Written Row) {w' : World}
        → store (λ v. result) put w ≡ (ok tt, w')
        → (rows : List Row) × (result ≡ written rows) × (w' ≡ record w { db = put rows w.db })
    written_cases put w (written rows) h = (rows, refl, ground arith)
    written_cases put w (refused c) h = cc
