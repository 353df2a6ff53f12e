-- ===== src/Persistence/Commit.antt =====
-- What a transaction's block leaves: its changes where it returns, nothing where it raises.
use smokejumper.Prelude.{◌≡◌, ok, err, Error}
use smokejumper.Persistence.{Database, Tx, begin}

pub begin-ok :
    {A : Type 0} (m : Tx A) (db : Database) {a : A} {db' : Database}
    → m db ≡ ok (a, db')
    → begin m db ≡ (ok a, db')
unfolding begin
begin-ok m db e = rw (e, begin)

pub begin-err :
    {A : Type 0} (m : Tx A) (db : Database) {error : Error}
    → m db ≡ err error
    → begin m db ≡ (err error, db)
unfolding begin
begin-err m db e = rw (e, begin)
