-- ===== src/Store/Ids.antt =====
-- No two entries of a table have one id, as the primary key demands.
use anki_backup_tool.Base.{Bool, none, List, [], ◌∷◌, ◌++◌, ◌≡◌, ◌≢◌, refl, keep, nat_eq, arith}
use anki_backup_tool.Backup.{Uuid, BackupEntry}
use anki_backup_tool.Store.Contract.{lookup}

abbrev pub UniqueIds : List BackupEntry → Type 0
UniqueIds [] = Unit
UniqueIds (e ∷ es) = (lookup e.id es ≡ none) × UniqueIds es

pub lookup-snoc :
    (id : Uuid) (es : List BackupEntry) (e : BackupEntry)
    → lookup id es ≡ none
    → e.id ≢ id
    → lookup id (es ++ e ∷ []) ≡ none
lookup-snoc id [] e h ne = ground arith
lookup-snoc id (x ∷ es) e h ne = ground (arith, lookup-snoc id es e)

pub UniqueIds-snoc :
    (es : List BackupEntry) (e : BackupEntry)
    → UniqueIds es
    → lookup e.id es ≡ none
    → UniqueIds (es ++ e ∷ [])
UniqueIds-snoc [] e u h = (refl, tt)
UniqueIds-snoc (x ∷ es) e u h = ground (arith, lookup-snoc x.id es e, UniqueIds-snoc es e u.1)

pub lookup-keep :
    (p : BackupEntry → Bool) (id : Uuid) (es : List BackupEntry)
    → lookup id es ≡ none
    → lookup id (keep p es) ≡ none
lookup-keep p id [] h = refl
lookup-keep p id (x ∷ es) h = ground (arith, lookup-keep p id es)

pub UniqueIds-keep :
    (p : BackupEntry → Bool) (es : List BackupEntry) → UniqueIds es → UniqueIds (keep p es)
UniqueIds-keep p [] u = tt
UniqueIds-keep p (x ∷ es) u = ground (arith, lookup-keep p x.id es, UniqueIds-keep p es u.1)
