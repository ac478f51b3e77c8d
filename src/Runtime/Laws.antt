-- ===== src/Runtime/Laws.antt =====
-- What the memory commands do on a block that is there.
use libzbxpgsql.Base.{ℕ, ◌≡◌, some, none}
use libzbxpgsql.Runtime.{World, Object, load, free, write}

pub load-some : (w : World) (p : ℕ) (o : Object) → w.heap p ≡ some o → load p w ≡ some (o, w)
unfolding load
load-some w p o h = rw (h, load)

pub free-some :
    (w : World) (p : ℕ) (o : Object)
    → w.heap p ≡ some o
    → free p w ≡ some (tt, record w { heap = write w.heap p none })
unfolding free
free-some w p o h = rw (h, free)
